-- ===== src/Human/Units.antt =====
-- The scale that is chosen, by the size of the value, and what is printed with it.
use ustat.Base.{
  true, ℕ, zero, suc, ◌*◌, ◌^◌, ◌<◌, ◌≤◌, Bytes, none, some, ltb, if◌then◌else◌, codes, u64_mod, [],
  ◌∷◌, ◌++◌, ◌≡◌, refl, arith, Bool-cases, inl, inr,
}
use ustat.Djb.{Djb}
use ustat.Double.Print.{fixed_text, write_double-converts, converts}
use ustat.Double.Range.{quotient-converts}
use ustat.Double.{Double, write_double}
use ustat.Human.{Scale, human_scale, write_suffix, write_uint64_human}
use ustat.Base.{List, ◌∙◌, ap, ltb→lt, ltb_false→le}
use ustat.Io.{Write, said-eq-some, output, output-append, output-wrote, output-nil, said, wrote}

abbrev scaled : ℕ → ℕ → Scale
scaled scale suf = record { scale = scale; suf = suf }

-- The scale by ranges: from two units on the next unit is chosen.
abbrev pub scale_by_range : ℕ → Scale
scale_by_range val =
    if ltb val 2000
    then scaled 1 0
    else if ltb val (2 * 10 ^ 6)
    then scaled (10 ^ 3) 1
    else if ltb val (2 * 10 ^ 9)
    then scaled (10 ^ 6) 2
    else if ltb val (2 * 10 ^ 12)
    then scaled (10 ^ 9) 3
    else if ltb val (2 * 10 ^ 15)
    then scaled (10 ^ 12) 4
    else if ltb val (2 * 10 ^ 18)
    then scaled (10 ^ 15) 5
    else scaled (10 ^ 18) 6

pub human_scale-scale_by_range : (val : ℕ) → val < u64_mod → human_scale 1 val ≡ scale_by_range val
unfolding human_scale
human_scale-scale_by_range val h = ground arith

large_scale :
    (val : ℕ)
    → 2000 ≤ val
    → (2 ^ 9 ≤ (scale_by_range val).scale) × ((scale_by_range val).scale < u64_mod)
large_scale val h = (ground arith, ground arith)

-- The letter of a unit; there is none for plain numbers.
abbrev pub unit_text : ℕ → Bytes
unit_text zero = []
unit_text (suc zero) = codes "k"
unit_text (suc (suc zero)) = codes "m"
unit_text (suc (suc (suc zero))) = codes "g"
unit_text (suc (suc (suc (suc j)))) = codes "t"

module _ (d : Djb) {D : Type 0} (f : Double D) (fd : ℕ) where
  suffix_writes :
      (c j : ℕ)
      → j < 5
      → (ws : List Write) × (write_suffix d f fd (scaled c j) ≡ some (1, ws))
        × (output fd ws ≡ unit_text j)
  unfolding write_suffix
  suffix_writes c zero h = ([], refl, output-nil fd)
  suffix_writes c (suc zero) h =
      (wrote fd (codes "k") ∷ [], refl, output-wrote fd (codes "k") [] ∙ rw output-nil)
  suffix_writes c (suc (suc zero)) h =
      (wrote fd (codes "m") ∷ [], refl, output-wrote fd (codes "m") [] ∙ rw output-nil)
  suffix_writes c (suc (suc (suc zero))) h =
      (wrote fd (codes "g") ∷ [], refl, output-wrote fd (codes "g") [] ∙ rw output-nil)
  suffix_writes c (suc (suc (suc (suc zero)))) h =
      (wrote fd (codes "t") ∷ [], refl, output-wrote fd (codes "t") [] ∙ rw output-nil)
  suffix_writes c (suc (suc (suc (suc (suc j))))) h = absurd (omega arith)

  -- The number, as the call of `write_double` prints it.
  number_text : ℕ → ℕ → Bytes
  number_text val c = fixed_text d f (f.div (f.of_u64 val) (f.of_u64 c)) 2

  -- The number, and then the suffix.
  human-suffix :
      (val : ℕ) (s : Scale)
      → human_scale 1 val ≡ s
      → converts d f (f.div (f.of_u64 val) (f.of_u64 s.scale)) 2 ≡ true
      → (t : Bytes)
      → ((ws : List Write) × (write_suffix d f fd s ≡ some (1, ws)) × (output fd ws ≡ t))
      → said fd (write_uint64_human d f fd 1 val) ≡ some (1, number_text val s.scale ++ t)
  unfolding write_uint64_human number_text
  human-suffix val s e fits t (ws, wrote_s, text_s) =
      let q = f.div (f.of_u64 val) (f.of_u64 s.scale) in
      let (ws', wrote_q, text_q) =
        said-eq-some fd (write_double d f fd q 2)
          (write_double-converts d f fd q 1 (omega arith) fits) in
      rw (e, wrote_q, wrote_s, output-append, text_q, text_s)

  -- The suffix that would stand behind the string.
  human-suffix_none :
      (val : ℕ) (s : Scale)
      → human_scale 1 val ≡ s
      → converts d f (f.div (f.of_u64 val) (f.of_u64 s.scale)) 2 ≡ true
      → write_suffix d f fd s ≡ none
      → write_uint64_human d f fd 1 val ≡ none
  unfolding write_uint64_human
  human-suffix_none val s e fits wrote_s =
      let q = f.div (f.of_u64 val) (f.of_u64 s.scale) in
      let (ws', wrote_q, text_q) =
        said-eq-some fd (write_double d f fd q 2)
          (write_double-converts d f fd q 1 (omega arith) fits) in
      rw (e, wrote_q, wrote_s)

  -- The quotient by the unit is small enough to be printed.
  scale-converts :
      (val c j : ℕ)
      → val < u64_mod
      → scale_by_range val ≡ scaled c j
      → converts d f (f.div (f.of_u64 val) (f.of_u64 c)) 2 ≡ true
  scale-converts val c j h e =
      let c_is : (scale_by_range val).scale ≡ c = ap (λ s. s.scale) e in
      elim (Bool-cases (ltb val 2000)) [
        | inl low ↦
            let one : 1 ≡ c = rw low at c_is in
            quotient-converts d f val c 0 (omega arith) (omega (arith, ltb→lt val 2000 low))
              (omega arith) (omega arith)
        | inr high ↦
            let (large, fits) = large_scale val (ltb_false→le val 2000 high) in
            quotient-converts d f val c 9 (omega arith) (omega arith) (rw (← c_is) large)
              (rw (← c_is) fits)
      ]

  -- One theorem for the values below 2 * 10 ^ 15.
  units_small :
      (val c j : ℕ)
      → val < u64_mod
      → scale_by_range val ≡ scaled c j
      → j < 5
      → said fd (write_uint64_human d f fd 1 val) ≡ some (1, number_text val c ++ unit_text j)
  units_small val c j h e small =
      human-suffix val (scaled c j) (human_scale-scale_by_range val h ∙ e)
        (scale-converts val c j h e) (unit_text j) (suffix_writes c j small)

  below_5 : (val : ℕ) → val < 2 * 10 ^ 15 → (scale_by_range val).suf < 5
  below_5 val h = ground arith

  above :
      (val : ℕ) → 2 * 10 ^ 15 ≤ val → val < 2 * 10 ^ 18 → scale_by_range val ≡ scaled (10 ^ 15) 5
  above val low h = ground arith

  far_above : (val : ℕ) → 2 * 10 ^ 18 ≤ val → scale_by_range val ≡ scaled (10 ^ 18) 6
  far_above val low = ground arith

  behind_suffix : (c : ℕ) → write_suffix d f fd (scaled c 5) ≡ some (1, wrote fd (0 ∷ []) ∷ [])
  unfolding write_suffix
  behind_suffix c = refl

  no_suffix : (c : ℕ) → write_suffix d f fd (scaled c 6) ≡ none
  unfolding write_suffix
  no_suffix c = refl

  -- A value below 2 * 10 ^ 15 is printed in full and without a fault: as the quotient by the unit
  -- that `scale_by_range` gives for it, with two digits behind the point, and then the letter of
  -- that unit: nothing, k, m, g or t. The next unit is taken from two of it on.
  pub write_uint64_human-scale_by_range :
      (val : ℕ)
      → val < 2 * 10 ^ 15
      → let s = scale_by_range val in
        said fd (write_uint64_human d f fd 1 val)
        ≡ some (1, fixed_text d f (f.div (f.of_u64 val) (f.of_u64 s.scale)) 2 ++ unit_text s.suf)
  unfolding number_text
  write_uint64_human-scale_by_range val h =
      let s = scale_by_range val in units_small val s.scale s.suf (omega arith) refl (below_5 val h)

  -- From 2 * 10 ^ 15 on the suffix is not one of the letters: below 2 * 10 ^ 18 the zero byte of
  -- the string of letters is written, and from there to 2 ^ 64 the function reads behind it.
  pub write_uint64_human_beyond :
      (val : ℕ)
      → 2 * 10 ^ 15 ≤ val
      → val < u64_mod
      → said fd (write_uint64_human d f fd 1 val) ≡ (
          if ltb val (2 * 10 ^ 18)
          then some (1, fixed_text d f (f.div (f.of_u64 val) (f.of_u64 (10 ^ 15))) 2 ++ 0 ∷ [])
          else none)
  unfolding number_text
  write_uint64_human_beyond val low h = elim (Bool-cases (ltb val (2 * 10 ^ 18))) [
    | inl e ↦ rw e (
        human-suffix val (scaled (10 ^ 15) 5)
          (human_scale-scale_by_range val h ∙ above val low (ltb→lt val (2 * 10 ^ 18) e))
          (scale-converts val (10 ^ 15) 5 h (above val low (ltb→lt val (2 * 10 ^ 18) e))) (0 ∷ [])
          (
            wrote fd (0 ∷ []) ∷ [],
            behind_suffix (10 ^ 15),
            output-wrote fd (0 ∷ []) [] ∙ rw output-nil,
          ))
    | inr e ↦ rw e (
        ap (said fd) (
          human-suffix_none val (scaled (10 ^ 18) 6)
            (human_scale-scale_by_range val h ∙ far_above val (ltb_false→le val (2 * 10 ^ 18) e))
            (scale-converts val (10 ^ 18) 6 h (far_above val (ltb_false→le val (2 * 10 ^ 18) e)))
            (no_suffix (10 ^ 18))))
  ]
