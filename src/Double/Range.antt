-- ===== src/Double/Range.antt =====
-- Quotients of unsigned numbers, which `write_double` can print.
use ustat.Base.{ℕ, ◌+◌, ◌^◌, ◌<◌, ◌≤◌, true, ◌≡◌, refl, arith, u64_mod}
use ustat.Djb.{Djb}
use ustat.Double.Print.{converts}
use ustat.Double.{Double}

module _ (d : Djb) {D : Type 0} (f : Double D) where
  -- A quotient of at most 2 ^ 55 is printed with two digits behind the point.
  pub quotient-converts :
      (n m j : ℕ)
      → j + 55 ≤ 64
      → n ≤ 2 ^ (j + 55)
      → 2 ^ j ≤ m
      → m < u64_mod
      → converts d f (f.div (f.of_u64 n) (f.of_u64 m)) 2 ≡ true
  quotient-converts n m j room small large fits =
      let q = f.div (f.of_u64 n) (f.of_u64 m) in
      let whole =
        f.div-within (f.of_u64 n) m j 55 large fits (f.of_u64-within n (j + 55) room small) in
      let times = f.mul-within q 100 7 55 (omega arith) (omega arith) whole in
      let up = f.add_half-within (f.mul q (f.of_u64 100)) 62 (omega arith) times in
      let (a, is_a) = f.to_u64-within q 55 (omega arith) whole in
      let (b, is_b) = f.to_u64-within (f.add (f.mul q (f.of_u64 100)) f.half) 63 (omega arith) up in
      rw (is_a, is_b) refl
