-- ===== src/Load/Text.antt =====
-- The text of the three loads.
use ustat.Base.{
  ◌<◌, ◌≤◌, ◌^◌, u64_mod, ℕ, Bytes, List, ◌++◌, some, ◌≡◌, arith, codes, append-nil, append_assoc,
}
use ustat.Djb.{Djb}
use ustat.Double.Print.{fixed_text, write_double-converts}
use ustat.Double.Range.{quotient-converts}
use ustat.Double.{Double, write_double}
use ustat.Io.{Write, said, said-eq-some, output, output-append, output-wrote}
use ustat.Load.{Load, print_loop, load_print, load_init, get_loadavg}

module _ (d : Djb) {D : Type 0} (f : Double D) (fd : ℕ) where
  two_digits :
      (n scale : ℕ)
      → n < u64_mod
      → 2 ^ 9 ≤ scale
      → scale < u64_mod
      → let x = f.div (f.of_u64 n) (f.of_u64 scale) in
        (ws : List Write) × (write_double d f fd x 2 ≡ some (1, ws))
        × (output fd ws ≡ fixed_text d f x 2)
  two_digits n scale small large fits =
      let x = f.div (f.of_u64 n) (f.of_u64 scale) in
      said-eq-some fd (write_double d f fd x 2) (
        write_double-converts d f fd x 1 (omega arith)
          (quotient-converts d f n scale 9 (omega arith) (omega arith) large fits))

  -- One load, over its scale.
  abbrev pub load_text : ℕ → ℕ → Bytes
  load_text n scale = fixed_text d f (f.div (f.of_u64 n) (f.of_u64 scale)) 2

  -- With a scale of nine bits at least: the three loads that the system gives are each divided by the scale and printed with two digits
  -- behind the point, with a blank between them and none at the end.
  pub load_print-fixed_text :
      (a b c scale : ℕ) (load : Load D)
      → a < u64_mod
      → b < u64_mod
      → c < u64_mod
      → 2 ^ 9 ≤ scale
      → scale < u64_mod
      → let now = (load_init f (some (a, b, c)) scale load).0 in
        said fd (load_print f d fd now)
        ≡ some (
          1,
          load_text a scale ++ codes " " ++ (load_text b scale ++ codes " " ++ load_text c scale),
        )
  unfolding load_print print_loop load_init get_loadavg
  load_print-fixed_text a b c scale load ha hb hc large fits =
      let (w1, e1, t1) = two_digits a scale ha large fits in
      let (w2, e2, t2) = two_digits b scale hb large fits in
      let (w3, e3, t3) = two_digits c scale hc large fits in
      rw (e1, e2, e3) (simp (output-append, output-wrote, t1, t2, t3, append-nil, append_assoc))
