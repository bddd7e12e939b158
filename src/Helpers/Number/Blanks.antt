-- ===== src/Helpers/Number/Blanks.antt =====
-- What stands in front of a number, and its first byte.

use ustat.Base.{
  ltb, lt→ltb, ◌||◌, ◌⊎◌, some, ◌==◌, zero, suc, All, length, false, true, ◌==◌, Bool-cases, inl,
  inr, ℕ, ◌+◌, ◌<◌, Bytes, [], ◌∷◌, ◌++◌, ◌≡◌, refl, ◌∙◌, arith, u64_mod,
}
use ustat.Decimal.{IsDigit}
use ustat.Helpers.{skip_blanks, DoubleReader, next_char}
use ustat.Helpers.Number.{At, next_char-append}

-- What stands in front of a number.
abbrev pub IsBlank : ℕ → Type 0
IsBlank c = (c ≡ 32) ⊎ (c ≡ 9)

blank_step :
    (k : ℕ) (r : DoubleReader)
    → IsBlank r.c
    → 0 < r.pos
    → skip_blanks (suc k) r ≡ skip_blanks k (next_char r)
unfolding skip_blanks
blank_step k r blank some_pos =
    let test : (r.c == 32 || r.c == 9) ≡ true = ground arith in
    rw (lt→ltb 0 r.pos some_pos, test, skip_blanks) refl

no_blank :
    (k : ℕ) (r : DoubleReader) → (r.c == 32 || r.c == 9) ≡ false → skip_blanks (suc k) r ≡ some r
unfolding skip_blanks
no_blank k r test = elim (Bool-cases (ltb 0 r.pos)) [
  | inl e ↦ rw (e, test, skip_blanks) refl
  | inr e ↦ rw (e, skip_blanks) refl
]

pub skip_blanks-At :
    (bs : Bytes) (k p y : ℕ) (r : DoubleReader) (s : Bytes)
    → All IsBlank bs
    → (IsBlank y → ⊥)
    → At r (bs ++ y ∷ s) p
    → 0 < p
    → length bs < k
    → p + length bs < u64_mod
    → (r' : DoubleReader) × (skip_blanks k r ≡ some r') × At r' (y ∷ s) (p + length bs)
skip_blanks-At bs zero p y r s blanks other h some_pos fuel small = absurd (omega arith)
skip_blanks-At [] (suc k) p y r s blanks other h some_pos fuel small =
    let c_is : r.c ≡ y = let whole = h.ahead in cc in
    let sum : p + 0 ≡ p = omega arith in
    let test : (r.c == 32 || r.c == 9) ≡ false = ground arith in (r, no_blank k r test, rw sum h)
skip_blanks-At (b ∷ bs) (suc k) p y r s (blank, blanks) other h some_pos fuel small =
    let c_is : r.c ≡ b = let whole = h.ahead in cc in
    let (r', e, at) =
      skip_blanks-At bs k (p + 1) y (next_char r) s blanks other
        (next_char-append r b y bs s p h (omega arith)) (omega arith) (omega arith) (omega arith) in
    let sum : p + 1 + length bs ≡ p + suc (length bs) = omega arith in
    (r', blank_step k r (rw c_is blank) (omega (arith, h.pos_is)) ∙ e, rw (← sum) at)

-- The first byte of some digits and a point, and what follows.
pub first_of_number :
    (ds t : Bytes)
    → All IsDigit ds
    → (y : ℕ) × (s : Bytes) × (ds ++ b'.' ∷ t ≡ y ∷ s) × (IsBlank y → ⊥) × ((y == b'-') ≡ false)
first_of_number [] t h = (b'.', t, refl, ground arith, refl)
first_of_number (d ∷ ds) t (digit, h) = (d, ds ++ b'.' ∷ t, refl, ground arith, ground arith)

pub first_of : (es s : Bytes) (x : ℕ) → (y : ℕ) × (t : Bytes) × (es ++ x ∷ s ≡ y ∷ t)
first_of [] s x = (x, s, refl)
first_of (e ∷ es) s x = (e, es ++ x ∷ s, refl)
