-- ===== src/Io.antt =====
-- Memory and output as the C code uses them: stores into a buffer, and `write(2)`.
-- `none` is undefined behaviour: an access outside of the buffer.
use ustat.Base.{
  lt→ltb, le→ltb, ◌<◌, ◌≤◌, ==_iff, ◌∙◌, ap, refl, ◌≡◌, arith, le→leb, length-append,
  take-append_length, append_assoc, Bool-cases, inl, inr, ℤ, pos, negsuc, ℕ, Bytes, List, [], ◌∷◌,
  ◌++◌, Option, none, some, ltb, leb, ◌==◌, if◌then◌else◌, length, set, take, drop, replicate,
}

-- One call of `write(2)` that the program makes.
pub record Write : Type 0 where
  pub fd : ℕ
  pub bytes : Bytes

-- What a function of the program does: a fault, or its result and the writes that it made.
abbrev pub Emits : Type 0 → Type 0
Emits A = Option (A × List Write)

abbrev pub prepend : {A : Type 0} → List Write → Emits A → Emits A
prepend w none = none
prepend w (some (a, ws)) = some (a, w ++ ws)

infixl 5 ◌>>=◌ ◌>>◌
abbrev pub ◌>>=◌ : {A B : Type 0} → Emits A → (A → Emits B) → Emits B
none >>= f = none
some (a, w) >>= f = prepend w (f a)

abbrev pub ◌>>◌ : {A B : Type 0} → Emits A → Emits B → Emits B
m >> k = m >>= λ _. k

abbrev pub return : {A : Type 0} → A → Emits A
return a = some (a, [])

abbrev pub wrote : ℕ → Bytes → Write
wrote fd b = record { fd = fd; bytes = b }

-- `write(fd, buf, n)`: reads `n` bytes of the buffer, which must have them.
abbrev pub write : ℕ → Bytes → ℕ → Emits (Unit {0})
write fd buf n = if leb n (length buf) then some (tt, wrote fd (take n buf) ∷ []) else none

-- `write(fd, s, n)` of a literal, for all its `n` bytes.
abbrev pub puts : ℕ → Bytes → Emits (Unit {0})
puts fd s = some (tt, wrote fd s ∷ [])

abbrev pub stdout : ℕ
stdout = 1

abbrev pub stderr : ℕ
stderr = 2

-- A fault where a value is missing.
abbrev pub from : {A : Type 0} → Option A → Emits A
from none = none
from (some a) = some (a, [])

-- `buf[i] = v`.
unfoldable pub store : Bytes → ℕ → ℕ → Option Bytes
store buf i v = if ltb i (length buf) then some (set buf i v) else none

-- A function of a library stores `bs` at the start of `buf`.
unfoldable pub store_all : Bytes → Bytes → Option Bytes
store_all buf bs = if leb (length bs) (length buf) then some (bs ++ drop (length bs) buf) else none

-- An array on the stack. Its first contents are not specified; zeros stand for them.
abbrev pub char_array : ℕ → Bytes
char_array n = replicate n 0

-- A file behind a descriptor: what its next reads give. A chunk is the most that one read returns,
-- an empty one is an end of file, and so is the end of the list.
pub data Read : Type 0 where
  chunk : Bytes → Read
  fails : Read

abbrev pub Fd : Type 0
Fd = List Read

-- What read(2) returns, what it stores, and the file behind it.
pub record Got : Type 0 where
  pub ret : ℤ
  pub bytes : Bytes
  pub left : Fd

-- `read(fd, buf, n)`
unfoldable pub sys_read : ℕ → Fd → Got
sys_read n [] = record { ret = pos 0; bytes = []; left = [] }
sys_read n (fails ∷ fd) = record { ret = negsuc 0; bytes = []; left = fd }
sys_read n (chunk b ∷ fd) =
    if leb (length b) n
    then record { ret = pos (length b); bytes = b; left = fd }
    else record { ret = pos n; bytes = take n b; left = chunk (drop n b) ∷ fd }

-- The bytes of a file, up to its first end or failure.
abbrev pub content : Fd → Bytes
content [] = []
content (fails ∷ fd) = []
content (chunk [] ∷ fd) = []
content (chunk (c ∷ b) ∷ fd) = c ∷ (b ++ content fd)

-- Everything that was written to one descriptor, in order.
unfoldable pub output : ℕ → List Write → Bytes
output fd [] = []
output fd (w ∷ ws) = let rest = output fd ws in if w.fd == fd then w.bytes ++ rest else rest

-- The result of an action, with all that it wrote to one descriptor.
abbrev pub said : {A : Type 0} → ℕ → Emits A → Option (A × Bytes)
said fd none = none
said fd (some (a, ws)) = some (a, output fd ws)

pub store_in : (buf : Bytes) (i v : ℕ) → i < length buf → store buf i v ≡ some (set buf i v)
unfolding store
store_in buf i v h = rw (lt→ltb i (length buf) h, store) refl

pub store_out : (buf : Bytes) (i v : ℕ) → length buf ≤ i → store buf i v ≡ none
unfolding store
store_out buf i v h = rw (le→ltb i (length buf) h, store) refl

pub store_all_in :
    (buf bs : Bytes) → length bs ≤ length buf → store_all buf bs ≡ some (bs ++ drop (length bs) buf)
unfolding store_all
store_all_in buf bs h = rw (le→leb (length bs) (length buf) h, store_all) refl

-- A text is written whole.
pub write-append :
    (fd : ℕ) (s rest : Bytes) → write fd (s ++ rest) (length s) ≡ some (tt, wrote fd s ∷ [])
write-append fd s rest = rw (
  le→leb (length s) (length (s ++ rest)) (omega (arith, length-append s rest)),
  take-append_length,
)

pub output-append : (fd : ℕ) (a b : List Write) → output fd (a ++ b) ≡ output fd a ++ output fd b
unfolding output
output-append fd [] b = refl
output-append fd (w ∷ a) b = elim (Bool-cases (w.fd == fd)) [
  | inl e ↦ rw e (rw (output-append fd a b, append_assoc))
  | inr e ↦ rw e (output-append fd a b)
]

pub output-wrote :
    (fd : ℕ) (b : Bytes) (ws : List Write) → output fd (wrote fd b ∷ ws) ≡ b ++ output fd ws
unfolding output
output-wrote fd b ws = rw ((==_iff fd fd).1 refl)

pub output-nil : (fd : ℕ) → output fd [] ≡ []
unfolding output
output-nil fd = refl

-- What an action wrote, from the text of it.
pub said-eq-some :
    {A : Type 0} (fd : ℕ) (m : Emits A) {a : A} {t : Bytes}
    → said fd m ≡ some (a, t)
    → (ws : List Write) × (m ≡ some (a, ws)) × (output fd ws ≡ t)
said-eq-some fd none e = cc
said-eq-some fd (some (b, ws)) e = (ws, cc, cc)

-- What was written before an action stands in front.
pub said-prepend :
    {A : Type 0} (fd : ℕ) (ws : List Write) (m : Emits A)
    → said fd (prepend ws m)
      ≡ elim (said fd m) [ none ↦ none | some (a, t) ↦ some (a, output fd ws ++ t) ]
said-prepend fd ws none = refl
said-prepend fd ws (some (a, ws')) = ap (λ t. some (a, t)) (output-append fd ws ws')

-- Writes to other descriptors do not count.
pub said-prepend_silent :
    {A : Type 0} (fd : ℕ) (ws : List Write) (m : Emits A)
    → output fd ws ≡ []
    → said fd (prepend ws m) ≡ said fd m
said-prepend_silent fd ws none h = refl
said-prepend_silent fd ws (some (a, ws')) h =
    ap (λ t. some (a, t)) (output-append fd ws ws' ∙ rw h refl)
