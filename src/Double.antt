-- ===== src/Double.antt =====
-- ustat_helper/write_double.c. There is no floating point here: the type `double` and what the code
-- computes with it are parameters.
mod Loops
pub mod Print
pub mod Range
use ustat.Base.{
  ◌≡◌, ◌≤◌, ℕ, zero, suc, ◌+◌, ◌-◌, ◌*◌, ◌%◌, ◌^◌, ◌<◌, Bool, true, false, Bytes, [], ◌∷◌, Option,
  none, some, ltb, ◌==◌, if◌then◌else◌, codes, u64_mod,
}
use ustat.Djb.{Djb, fmt_into}
use ustat.Io.{Emits, ◌>>=◌, ◌>>◌, from, write, puts, return, char_array}

pub record Double (D : Type 0) : Type 0 where
  -- `(double)n` of an unsigned number
  pub of_u64 : ℕ → D
  -- `(double)n` of a signed number, from its 64 bits
  pub of_i64 : ℕ → D
  -- `val < 0`
  pub is_negative : D → Bool
  pub mul : D → D → D
  pub add : D → D → D
  pub div : D → D → D
  -- `0.5`
  pub half : D
  -- `(uint64_t)val`, which C does not define unless -1 < val < 2 ^ 64: `none`
  pub to_u64 : D → Option ℕ
  pub to_u64-lt : (x : D) (n : ℕ) → to_u64 x ≡ some n → n < u64_mod
  -- `0 <= val && val <= 2 ^ k`. A power of two is a value of the type, so that rounding does not
  -- leave such a range.
  pub is_within : D → ℕ → Bool
  pub of_u64-within : (n k : ℕ) → k ≤ 64 → n ≤ 2 ^ k → is_within (of_u64 n) k ≡ true
  pub div-within :
      (x : D) (m j k : ℕ)
      → 2 ^ j ≤ m
      → m < u64_mod
      → is_within x (j + k) ≡ true
      → is_within (div x (of_u64 m)) k ≡ true
  pub mul-within :
      (x : D) (m j k : ℕ)
      → m ≤ 2 ^ j
      → j + k ≤ 64
      → is_within x k ≡ true
      → is_within (mul x (of_u64 m)) (j + k) ≡ true
  pub add_half-within :
      (x : D) (k : ℕ) → k < 64 → is_within x k ≡ true → is_within (add x half) (suc k) ≡ true
  pub to_u64-within :
      (x : D) (k : ℕ) → k < 64 → is_within x k ≡ true → (n : ℕ) × (to_u64 x ≡ some n)

abbrev pub int_max : ℕ
int_max = 2 ^ 31 - 1

-- `for (n = 0; n < prec; n++) s *= 10;`, by the rounds that are left; `none` is an overflow.
pub scale_loop : ℕ → ℕ → Option ℕ
scale_loop zero s = some s
scale_loop (suc n) s = if ltb int_max (s * 10) then none else scale_loop n (s * 10)

-- `for ( ; (s - n) > 0; s--) write(fd, "0", 1);`, by the rounds that are left.
pub zero_loop : ℕ → ℕ → Emits (Unit {0})
zero_loop fd zero = return tt
zero_loop fd (suc n) = do puts fd (codes "0"); zero_loop fd n

module _ (d : Djb) {D : Type 0} (f : Double D) where
  -- `val * s + 0.5`
  abbrev pub scaled : D → ℕ → D
  scaled val s = f.add (f.mul val (f.of_u64 s)) f.half

  -- What is printed behind the point: `((uint64_t)val) % s`, where this is defined.
  pub rounded : D → ℕ → Option ℕ
  rounded val s = elim (f.to_u64 (scaled val s)) [ none ↦ none | some n ↦ some (n % s) ]

  -- The part behind the test for `prec == 0`.
  write_fraction : ℕ → Bytes → D → ℕ → Emits ℕ
  write_fraction fd buf val prec = do
    s ← from (scale_loop prec 1)
    m ← from (rounded val s)
    (buf', n) ← from (fmt_into d buf m)
    puts fd (codes ".")
    zero_loop fd (prec - n)
    write fd buf' n
    return 1

  -- `write_double(fd, val, prec)`
  unfoldable pub write_double : ℕ → D → ℕ → Emits ℕ
  unfolding write_fraction rounded scale_loop zero_loop
  write_double fd val prec = do
    if f.is_negative val then puts fd (codes "-") else return tt
    whole ← from (f.to_u64 val)
    (buf, n) ← from (fmt_into d (char_array 20) whole)
    write fd buf n
    if prec == 0 then return 1 else write_fraction fd buf val prec
