-- ===== src/Double/Loops.antt =====
-- The two loops of `write_double`.
use native.Mathlib.Nat.{pow-suc, mul-le-mul_left, one-le-pow}
use ustat.Base.{
  ℕ, zero, suc, ◌*◌, ◌^◌, ◌≤◌, false, List, [], ◌∷◌, ◌++◌, some, ◌==◌, codes, ◌≡◌, refl, ap, ◌∙◌,
  arith, replicate, le→ltb, All,
}
use ustat.Decimal.{IsDigit, value}
use ustat.Double.{int_max, scale_loop, zero_loop}
use ustat.Io.{Write, wrote, output, output-wrote}

pub scale_loop-pow : (n s : ℕ) → s * 10 ^ n ≤ int_max → scale_loop n s ≡ some (s * 10 ^ n)
unfolding scale_loop
scale_loop-pow zero s h = ap some (omega arith)
scale_loop-pow (suc n) s h =
    let p = pow-suc 10 n in
    let one : s * 10 * 1 ≤ s * 10 * 10 ^ n =
      mul-le-mul_left (s * 10) (one-le-pow n 10 (omega arith)) in
    let now : s * 10 * 10 ^ n ≡ s * 10 ^ suc n = rw p (omega arith) in
    rw (le→ltb int_max (s * 10) (omega arith))
      (scale_loop-pow n (s * 10) (omega arith) ∙ ap some now)

pub suc_ne_zero : (k : ℕ) → (suc k == 0) ≡ false
suc_ne_zero k = ground arith

unfoldable pub zero_writes : ℕ → ℕ → List Write
zero_writes fd zero = []
zero_writes fd (suc n) = wrote fd (codes "0") ∷ zero_writes fd n

pub zero_loop-writes : (fd n : ℕ) → zero_loop fd n ≡ some (tt, zero_writes fd n)
unfolding zero_loop zero_writes
zero_loop-writes fd zero = refl
zero_loop-writes fd (suc n) = rw (zero_loop-writes fd n)

pub output-zero_writes :
    (fd n : ℕ) (ws : List Write)
    → output fd (zero_writes fd n ++ ws) ≡ replicate n b'0' ++ output fd ws
unfolding zero_writes
output-zero_writes fd zero ws = refl
output-zero_writes fd (suc n) ws = rw (output-wrote, output-zero_writes fd n ws)

pub digits_0 : (n : ℕ) → All IsDigit (replicate n b'0')
digits_0 zero = tt
digits_0 (suc n) = ((omega arith, omega arith), digits_0 n)

pub value_0 : (n : ℕ) → value 0 (replicate n b'0') ≡ 0
value_0 zero = refl
value_0 (suc n) = value_0 n
