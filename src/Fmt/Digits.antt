-- ===== src/Fmt/Digits.antt =====
-- The two loops of `fmt_uint64` against the decimal print of the number.
use ustat.Base.{
  ℕ, zero, suc, ◌+◌, ◌/◌, ◌%◌, ◌<◌, Bytes, [], ◌∷◌, ◌++◌, append_assoc, some, ◌≡◌, ◌≢◌, refl, ap,
  arith, ◌==◌, Bool-cases, inl, inr, if◌then◌else◌, All, All-append, length, length-append,
  set-append_length, lt→ltb,
}
use ustat.Decimal.{IsDigit, IsLean, IsDecimal, value, value-snoc}
use ustat.Fmt.{len_loop, store_loop, fmt_len}
use ustat.Io.{store}

-- The digits, the last one split off each time.
dec : ℕ → ℕ → Bytes
dec zero v = []
dec (suc f) v =
    let rest = dec f (v / 10) in (if v / 10 == 0 then [] else rest) ++ (b'0' + v % 10) ∷ []

-- The decimal print of a number.
pub decimal : ℕ → Bytes
unfolding dec
decimal v = dec (v + 1) v

abbrev HeadIsPos : Bytes → Type 0
HeadIsPos [] = ⊥
HeadIsPos (c ∷ s) = c ≢ b'0'

HeadIsPos-append : (a b : Bytes) → HeadIsPos a → HeadIsPos (a ++ b)
HeadIsPos-append [] b h = absurd h
HeadIsPos-append (c ∷ a) b h = h

HeadIsPos-IsLean : (a : Bytes) → HeadIsPos a → IsLean a
HeadIsPos-IsLean [] h = h
HeadIsPos-IsLean (c ∷ []) h = tt
HeadIsPos-IsLean (c ∷ d ∷ a) h = h

dec-HeadIsPos : (f v : ℕ) → v < f → v ≢ 0 → HeadIsPos (dec f v)
unfolding dec
dec-HeadIsPos zero v h p = absurd (omega arith)
dec-HeadIsPos (suc f) v h p = elim (Bool-cases (v / 10 == 0)) [
  | inl e ↦ rw e (ground arith)
  | inr e ↦ rw e (HeadIsPos-append _ _ (dec-HeadIsPos f (v / 10) (ground arith) (ground arith)))
]

dec-digits : (f v : ℕ) → v < f → All IsDigit (dec f v)
unfolding dec
dec-digits zero v h = absurd (omega arith)
dec-digits (suc f) v h = elim (Bool-cases (v / 10 == 0)) [
  | inl e ↦ rw e (ground arith)
  | inr e ↦
      rw e (
        All-append IsDigit (dec f (v / 10)) _ (dec-digits f (v / 10) (ground arith)) (ground arith))
]

value-dec : (f v : ℕ) → v < f → value 0 (dec f v) ≡ v
unfolding dec
value-dec zero v h = absurd (omega arith)
value-dec (suc f) v h = elim (Bool-cases (v / 10 == 0)) [
  | inl e ↦ rw e (ground arith)
  | inr e ↦ rw (e, value-snoc) (ground (arith, value-dec f (v / 10)))
]

-- The decimal print of a number is one.
pub decimal-IsDecimal : (v : ℕ) → IsDecimal v (decimal v)
unfolding decimal
decimal-IsDecimal v = record {
  digits = dec-digits (v + 1) v (omega arith);
  lean = lean (v + 1) v (omega arith);
  spells = value-dec (v + 1) v (omega arith);
}
  where
    lean : (f v : ℕ) → v < f → IsLean (dec f v)
    lean zero zero h = absurd (omega arith)
    lean (suc f) zero h = unfold dec in tt
    lean f (suc v) h = HeadIsPos-IsLean _ (dec-HeadIsPos f (suc v) h (omega arith))

len_loop-dec : (f v l : ℕ) → v < f → len_loop f v l + 1 ≡ l + length (dec f v)
unfolding len_loop dec
len_loop-dec zero v l h = absurd (omega arith)
len_loop-dec (suc f) v l h = elim (Bool-cases (v / 10 == 0)) [
  | inl e ↦ rw e (ground arith)
  | inr e ↦ rw (e, length-append) (ground (arith, len_loop-dec f (v / 10) (l + 1)))
]

pub fmt_len-decimal : (v : ℕ) → fmt_len v ≡ length (decimal v)
unfolding fmt_len decimal
fmt_len-decimal v = omega (arith, len_loop-dec (v + 1) v 1 (omega arith))

-- The last item of a list that is not empty.
snoc-view :
    (n : ℕ) (xs : Bytes)
    → length xs ≡ suc n
    → (ys : Bytes) × (y : ℕ) × (xs ≡ ys ++ y ∷ []) × (length ys ≡ n)
snoc-view n [] h = absurd (omega arith)
snoc-view zero (x ∷ []) h = ([], x, refl, refl)
snoc-view zero (x ∷ y ∷ xs) h = absurd (omega arith)
snoc-view (suc n) (x ∷ xs) h =
    let (ys, y, e, l) = snoc-view n xs (omega arith) in (x ∷ ys, y, ap (◌∷◌ x) e, ap suc l)

nil_of_length : (xs : Bytes) → length xs ≡ 0 → xs ≡ []
nil_of_length [] h = refl
nil_of_length (x ∷ xs) h = absurd (omega arith)

store-last :
    {n : ℕ} (ys : Bytes) (y v : ℕ) (post : Bytes)
    → length ys ≡ n
    → store ((ys ++ y ∷ []) ++ post) n v ≡ some (ys ++ v ∷ post)
unfolding store
store-last {n} ys y v post k =
    let inside : n < length (ys ++ y ∷ post) = omega (arith, length-append ys (y ∷ post)) in
    rw (append_assoc, lt→ltb _ _ inside, ← k, set-append_length)

-- The stores fill the front of the buffer, to the last byte of it.
store_loop-dec :
    (f v n : ℕ) (pre post : Bytes)
    → v < f
    → length pre ≡ n
    → length (dec f v) ≡ n
    → store_loop f (pre ++ post) n v ≡ some (dec f v ++ post)
unfolding store_loop dec
store_loop-dec zero v n pre post h l m = absurd (omega arith)
store_loop-dec (suc f) v zero pre post h l m = absurd (
    omega
      (arith, length-append (if v / 10 == 0 then [] else dec f (v / 10)) ((b'0' + v % 10) ∷ [])))
store_loop-dec (suc f) v (suc n) pre post h l m =
    let (ys, y, e, k) = snoc-view n pre l in
    rw (e, store-last ys y _ post k, store_loop)
      (elim (Bool-cases (v / 10 == 0)) [
        | inl q ↦ rw q (rw (nil_of_length ys (omega (arith, k, rw q at m))))
        | inr q ↦
            rw (q, append_assoc)
              (store_loop-dec f (v / 10) n ys _ (ground arith) k
                (omega (arith, length-append (dec f (v / 10)) ((b'0' + v % 10) ∷ []), rw q at m)))
      ])

pub store_loop-decimal :
    (v n : ℕ) (pre post : Bytes)
    → length pre ≡ n
    → length (decimal v) ≡ n
    → store_loop (v + 1) (pre ++ post) n v ≡ some (decimal v ++ post)
unfolding decimal
store_loop-decimal v n pre post = store_loop-dec (v + 1) v n pre post (omega arith)
