-- ===== src/Program/Order.antt =====
-- The order of the table of modules, and which entry an argument is given to.
use ustat.Base.{
  ltb→lt, ltb_false→le, ℕ, suc, ◌+◌, ◌≤◌, ◌<◌, Bool, true, false, not, ◌&&◌, Bytes, List, [], ◌∷◌,
  ◌≡◌, refl, ◌∙◌, ap, ◌⊎◌, inl, inr, ltb, ◌==◌, if◌then◌else◌, length, get_or, map, All, Lacks,
  arith, Bool-cases,
}
use ustat.Djb.{Djb, text, cstr, starts_with}
use ustat.Program.{UstatModule, named_modules, find_module}

-- The bytes of a C string in front of its zero byte.
abbrev pub until_zero : Bytes → Bytes
until_zero [] = []
until_zero (c ∷ s) = if c == 0 then [] else c ∷ until_zero s

-- The name of a module, without its zero byte.
abbrev pub title : UstatModule → Bytes
title m = until_zero m.name

abbrev pub titles : List Bytes
titles = map title named_modules

module _ {A : Type 0} where
  unfoldable pub all_of : (A → Bool) → List A → Bool
  all_of p [] = true
  all_of p (x ∷ xs) = p x && all_of p xs

pub and_both : (a b : Bool) → a && b ≡ true → (a ≡ true) × (b ≡ true)
and_both a b h = ground arith

pub all_of-All :
    {A : Type 0} (p : A → Bool) (xs : List A) → all_of p xs ≡ true → All (λ x. p x ≡ true) xs
unfolding all_of
all_of-All p [] h = tt
all_of-All p (x ∷ xs) h =
    let (now, rest) = and_both (p x) (all_of p xs) h in (now, all_of-All p xs rest)

unfoldable pub no_zero : Bytes → Bool
no_zero s = all_of (λ c. not (c == 0)) s

pub no_zero-Lacks : (s : Bytes) → no_zero s ≡ true → Lacks 0 s
unfolding no_zero all_of
no_zero-Lacks [] h = tt
no_zero-Lacks (c ∷ s) h =
    let (now, rest) = and_both (not (c == 0)) (no_zero s) h in (ground arith, no_zero-Lacks s rest)

unfoldable pub same : Bytes → Bytes → Bool
same [] [] = true
same (a ∷ s) (b ∷ t) = a == b && same s t
same _ _ = false

pub same-eq : (s t : Bytes) → same s t ≡ true → s ≡ t
unfolding same
same-eq [] [] h = refl
same-eq [] (b ∷ t) h = ground arith
same-eq (a ∷ s) [] h = ground arith
same-eq (a ∷ s) (b ∷ t) h =
    let (now, rest) = and_both (a == b) (same s t) h in
    let heads : a ≡ b = ground arith in rw (heads, same-eq s t rest)

-- The name is a C string.
unfoldable pub IsNamed : UstatModule → Type 0
IsNamed m = (m.name ≡ cstr (title m)) × Lacks 0 (title m)

named : UstatModule → Bool
named m = same m.name (cstr (title m)) && no_zero (title m)

named-IsNamed : (m : UstatModule) → named m ≡ true → IsNamed m
unfolding named IsNamed
named-IsNamed m h =
    let (a, b) = and_both (same m.name (cstr (title m))) (no_zero (title m)) h in
    (same-eq m.name (cstr (title m)) a, no_zero-Lacks (title m) b)

pub All-map :
    {A : Type 0} {P Q : A → Type 0} → ((x : A) → P x → Q x) → (xs : List A) → All P xs → All Q xs
All-map f [] h = tt
All-map f (x ∷ xs) (h, hs) = (f x h, All-map f xs hs)

pub table-IsNamed : All IsNamed named_modules
unfolding named same no_zero all_of
table-IsNamed = All-map named-IsNamed named_modules (all_of-All named named_modules refl)

-- The position of the first text, from `j` on, that starts the argument.
abbrev pub first_title : List Bytes → ℕ → Bytes → ℕ
first_title [] j arg = j
first_title (n ∷ ns) j arg = if starts_with arg n then j else first_title ns (suc j) arg

pub find_module-first_title :
    (d : Djb) (ms : List UstatModule) (j : ℕ) (arg rest : Bytes)
    → All IsNamed ms
    → Lacks 0 arg
    → find_module d ms j (text arg rest) ≡ first_title (map title ms) j arg
unfolding find_module IsNamed
find_module-first_title d [] j arg rest h lacks = refl
find_module-first_title d (m ∷ ms) j arg rest ((name, clean), h) lacks =
    let ih = find_module-first_title d ms (suc j) arg rest h lacks in
    let test : d.str_start (text arg rest) m.name ≡ starts_with arg (title m) =
      ap (d.str_start (text arg rest)) name ∙ d.str_start-text arg (title m) rest [] lacks clean in
    rw (test, ih)

-- Two texts at the front of the same argument: the shorter one starts the longer one.
starts_with-comparable :
    (arg n m : Bytes)
    → starts_with arg n ≡ true
    → starts_with arg m ≡ true
    → length n ≤ length m
    → starts_with m n ≡ true
starts_with-comparable arg [] m hn hm h = refl
starts_with-comparable [] (b ∷ n) m hn hm h = ground arith
starts_with-comparable (a ∷ arg) (b ∷ n) [] hn hm h = absurd (omega arith)
starts_with-comparable (a ∷ arg) (b ∷ n) (c ∷ m) hn hm h =
    let (ab, on) = and_both (a == b) (starts_with arg n) hn in
    let (ac, om) = and_both (a == c) (starts_with arg m) hm in
    let heads : (c == b) ≡ true = ground arith in
    rw (heads, starts_with-comparable arg n m on om (omega arith)) refl

-- No text starts a later one.
unfoldable pub unshadowed : List Bytes → Bool
unshadowed [] = true
unshadowed (n ∷ ns) = all_of (λ m. not (starts_with m n)) ns && unshadowed ns

-- A text that the argument does not start with, or one that is not longer.
unfoldable pub NotLonger : Bytes → Bytes → Bytes → Type 0
NotLonger arg best n = (starts_with arg n ≡ false) ⊎ (length n ≤ length best)

not_longer :
    (arg n m : Bytes) → starts_with arg n ≡ true → not (starts_with m n) ≡ true → NotLonger arg n m
unfolding NotLonger
not_longer arg n m hn free = elim (Bool-cases (starts_with arg m)) [
  | inr e ↦ inl e
  | inl e ↦ elim (Bool-cases (ltb (length m) (length n))) [
    | inl short ↦ inr (omega (arith, ltb→lt (length m) (length n) short))
    | inr long ↦
        let under = starts_with-comparable arg n m hn e (ltb_false→le (length m) (length n) long) in
        absurd (ground arith)
  ]
]

-- Where the first match stands: nowhere, or at an index.
unfoldable pub Match : List Bytes → ℕ → Bytes → Type 0
Match ns j arg =
    (All (λ n. starts_with arg n ≡ false) ns × (first_title ns j arg ≡ j + length ns))
    ⊎ ((i : ℕ) × (first_title ns j arg ≡ j + i)
        × (i < length ns)
        × (starts_with arg (get_or ns i []) ≡ true)
        × All (NotLonger arg (get_or ns i [])) ns)

Match-later :
    (n : Bytes) (ns : List Bytes) (j : ℕ) (arg : Bytes)
    → starts_with arg n ≡ false
    → Match ns (suc j) arg
    → Match (n ∷ ns) j arg
unfolding Match NotLonger
Match-later n ns j arg e (inl (absent, at)) = inl ((e, absent), rw e (omega (arith, at)))
Match-later n ns j arg e (inr (i, at, small, hit, best)) =
    inr (suc i, rw e (omega (arith, at)), omega arith, hit, (inl e, best))

pub first_title-Match :
    (ns : List Bytes) (j : ℕ) (arg : Bytes) → unshadowed ns ≡ true → Match ns j arg
unfolding unshadowed Match NotLonger
first_title-Match [] j arg h = inl (tt, omega arith)
first_title-Match (n ∷ ns) j arg h =
    let (free, rest) = and_both (all_of (λ m. not (starts_with m n)) ns) (unshadowed ns) h in
    elim (Bool-cases (starts_with arg n)) [
      | inr e ↦ Match-later n ns j arg e (first_title-Match ns (suc j) arg rest)
      | inl e ↦ inr (
        0,
        rw e (omega arith),
        omega arith,
        e,
        (
          inr (omega arith),
          All-map (λ m f. not_longer arg n m e f) ns
              (all_of-All (λ m. not (starts_with m n)) ns free),
        ),
      )
    ]
