-- ===== src/Decimal/Unique.antt =====
-- A number has one decimal print, and the print of a small number is short.
use native.Mathlib.Decide.{dec_lt}
use native.Mathlib.Nat.{pow-le-pow_right, mul-le-mul_right, pow-suc}
use ustat.Base.{
  ℕ, suc, ◌+◌, ◌-◌, ◌*◌, ◌^◌, ◌≤◌, ◌<◌, Bytes, [], ◌∷◌, ◌≡◌, ◌≢◌, refl, sym, ◌∙◌, arith, All,
  length,
}
use ustat.Decimal.Value.{IsDigit, value, IsDecimal, value-ge, value-lt}

-- Digit strings of one length that spell one number are equal.
value-injective :
    (n m : ℕ) (a b : Bytes)
    → All IsDigit a
    → All IsDigit b
    → length a ≡ length b
    → value n a ≡ value m b
    → (n ≡ m) × (a ≡ b)
value-injective n m [] [] ha hb l v = (v, refl)
value-injective n m [] (d ∷ b) ha hb l v = absurd (omega arith)
value-injective n m (c ∷ a) [] ha hb l v = absurd (omega arith)
value-injective n m (c ∷ a) (d ∷ b) (hc, ha) (hd, hb) l v =
    let (e, same) =
      value-injective (n * 10 + (c - b'0')) (m * 10 + (d - b'0')) a b ha hb (omega arith) v in
    let head : c ≡ d = omega arith in (omega arith, cc)

-- A lean print of two or more digits spells at least the power of ten below its length.
value-lean-ge :
    (c d : ℕ) (a : Bytes) → IsDigit c → c ≢ b'0' → 10 ^ suc (length a) ≤ value 0 (c ∷ d ∷ a)
value-lean-ge c d a hc ne =
    let start = (0 * 10 + (c - b'0')) * 10 + (d - b'0') in
    let bound : 10 * 10 ^ length a ≤ start * 10 ^ length a = mul-le-mul_right _ (omega arith) in
    rw (pow-suc 10 (length a)) (omega (arith, value-ge start a, bound))

pub length-IsDecimal_le :
    {n : ℕ} (k : ℕ) (bs : Bytes) → IsDecimal n bs → n < 10 ^ suc k → length bs ≤ suc k
length-IsDecimal_le k [] d h = omega arith
length-IsDecimal_le k (c ∷ []) d h = omega arith
length-IsDecimal_le k (c ∷ e ∷ a) d h = elim (dec_lt (length a) k) [
  | yes l ↦ omega arith
  | no l ↦
      let powers : 10 ^ suc k ≤ 10 ^ suc (length a) =
        pow-le-pow_right {n = 10} (omega arith) (omega arith) in
      absurd (omega (arith, value-lean-ge c e a d.digits.0 d.lean, d.spells, powers))
]

-- The other way round: a number below its length's power of ten.
pub lt-IsDecimal : {n : ℕ} (bs : Bytes) → IsDecimal n bs → n < 10 ^ length bs
lt-IsDecimal bs d = omega (arith, value-lt 0 bs d.digits, d.spells)

length-IsDecimal-le : {n : ℕ} (a b : Bytes) → IsDecimal n a → IsDecimal n b → length a ≤ length b
length-IsDecimal-le a [] da db = absurd db.lean
length-IsDecimal-le a (d ∷ b) da db = length-IsDecimal_le (length b) a da (lt-IsDecimal (d ∷ b) db)

pub IsDecimal-unique : {n : ℕ} (a b : Bytes) → IsDecimal n a → IsDecimal n b → a ≡ b
IsDecimal-unique a b da db =
    (value-injective 0 0 a b da.digits db.digits
      (omega (arith, length-IsDecimal-le a b da db, length-IsDecimal-le b a db da))
      (da.spells ∙ sym db.spells)).1
