-- ===== src/Decimal/Value.antt =====
-- Digits, the number that they spell, and the canonical print of a number.
use ustat.Base.{
  ℕ, ◌+◌, ◌-◌, ◌*◌, ◌^◌, ◌≤◌, ◌<◌, Bytes, [], ◌∷◌, ◌++◌, ◌≡◌, ◌≢◌, refl, arith, All, length,
}
use native.Mathlib.Nat.{pow-suc, mul-le-mul_right}

abbrev pub IsDigit : ℕ → Type 0
IsDigit c = (b'0' ≤ c) × (c ≤ b'9')

-- The number that digits spell behind `n`.
abbrev pub value : ℕ → Bytes → ℕ
value n [] = n
value n (c ∷ s) = value (n * 10 + (c - b'0')) s

-- No digit is missing, and no zero leads, but in `0` itself.
abbrev pub IsLean : Bytes → Type 0
IsLean [] = ⊥
IsLean (c ∷ []) = Unit
IsLean (c ∷ d ∷ s) = c ≢ b'0'

-- `bs` is the decimal print of `n`.
pub record IsDecimal (n : ℕ) (bs : Bytes) : Type 0 where
  pub digits : All IsDigit bs
  pub lean : IsLean bs
  pub spells : value 0 bs ≡ n

pub value-append : (n : ℕ) (a b : Bytes) → value n (a ++ b) ≡ value (value n a) b
value-append n [] b = refl
value-append n (c ∷ a) b = value-append (n * 10 + (c - b'0')) a b

pub value-snoc : (n : ℕ) (a : Bytes) (c : ℕ) → value n (a ++ c ∷ []) ≡ value n a * 10 + (c - b'0')
value-snoc n a c = value-append n a (c ∷ [])

pub value-ge : (n : ℕ) (a : Bytes) → n * 10 ^ length a ≤ value n a
value-ge n [] = omega arith
value-ge n (c ∷ a) = rw (pow-suc 10 (length a)) (omega (arith, value-ge (n * 10 + (c - b'0')) a))

pub value-lt : (n : ℕ) (a : Bytes) → All IsDigit a → value n a < (n + 1) * 10 ^ length a
value-lt n [] h = omega arith
value-lt n (c ∷ a) (hc, h) =
    let d = c - b'0' in
    let p = 10 ^ length a in
    let bound : d * p ≤ 9 * p = mul-le-mul_right p (omega arith) in
    rw (pow-suc 10 (length a)) (omega (arith, value-lt (n * 10 + d) a h, bound))
