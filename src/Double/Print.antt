-- ===== src/Double/Print.antt =====
-- What `write_double` writes.
use native.Mathlib.Nat.{mod-lt, one-le-pow, pow-le-pow_right}
use ustat.Base.{
  Option, none, Option-cases, Bool, true, ◌&&◌, append-nil, ℕ, suc, ◌+◌, ◌-◌, ◌*◌, ◌%◌, ◌^◌, ◌<◌,
  ◌≤◌, false, Bytes, List, [], ◌∷◌, ◌++◌, some, if◌then◌else◌, codes, u64_mod, ◌≡◌, refl, ap, ◌∙◌,
  arith, length, replicate, length-replicate, length-append, length-drop, drop, All, All-append,
  Bool-cases, inl, inr,
}
use ustat.Decimal.{IsDigit, value, value-append, IsDecimal-unique}
use ustat.Djb.{Djb, fmt_into_fits, length-fmt_ulong_le, length-fmt_ulong_20}
use ustat.Double.{Double, scaled, scale_loop, rounded, write_fraction, write_double}
use ustat.Io.{Write, char_array, wrote, write-append, output-wrote, output-nil, said}
use ustat.Double.Loops.{
  scale_loop-pow, suc_ne_zero, zero_writes, zero_loop-writes, output-zero_writes, digits_0, value_0,
}

module _ (d : Djb) where
  -- A number with zeros in front, up to `prec` digits.
  pub padded : ℕ → ℕ → Bytes
  padded prec n = replicate (prec - length (d.fmt_ulong n)) b'0' ++ d.fmt_ulong n

  -- The number, where a conversion is defined.
  abbrev pub or_zero : Option ℕ → ℕ
  or_zero none = 0
  or_zero (some n) = n

  abbrev pub is_defined : Option ℕ → Bool
  is_defined none = false
  is_defined (some n) = true

  -- The text of a number: the sign, the whole part, a point, and the fraction.
  pub fixed_text : {D : Type 0} → Double D → D → ℕ → Bytes
  fixed_text f val prec =
      (if f.is_negative val then codes "-" else [])
      ++ (d.fmt_ulong (or_zero (f.to_u64 val))
          ++ b'.' ∷ padded prec (or_zero (rounded d f val (10 ^ prec))))

  -- Both conversions of `write_double` are defined.
  abbrev pub converts : {D : Type 0} → Double D → D → ℕ → Bool
  converts f val prec =
      is_defined (f.to_u64 val) && is_defined (f.to_u64 (scaled d f val (10 ^ prec)))

  module _ {D : Type 0} (f : Double D) (fd : ℕ) (val : D) where
    scale_lem : (k : ℕ) → k < 9 → scale_loop (suc k) 1 ≡ some (10 ^ suc k)
    scale_lem k h =
        let small : 10 ^ suc k ≤ 10 ^ 9 =
          pow-le-pow_right {n = 10} (omega arith) {j = 9} (omega arith) in
        scale_loop-pow (suc k) 1 (omega arith) ∙ ap some (omega arith)

    -- The number `r` behind the point, which has at most `k + 1` digits.
    module _ (k r : ℕ) (h : k < 9) (below : r < 10 ^ suc k) where
      small_fraction : r < u64_mod
      small_fraction =
          let small : 10 ^ suc k ≤ 10 ^ 9 =
            pow-le-pow_right {n = 10} (omega arith) {j = 9} (omega arith) in
          omega arith

      length-frac : length (d.fmt_ulong r) ≤ suc k
      length-frac = length-fmt_ulong_le d k r small_fraction below

      padded_lem :
          (length (padded (suc k) r) ≡ suc k)
          × All IsDigit (padded (suc k) r)
          × (value 0 (padded (suc k) r) ≡ r)
      unfolding padded
      padded_lem =
          let n = suc k - length (d.fmt_ulong r) in
          let dec = d.fmt_ulong-IsDecimal r small_fraction in
          (
            omega (
              arith,
              length-append (replicate n b'0') (d.fmt_ulong r),
              length-replicate {A = ℕ} n b'0',
              length-frac,
            ),
            All-append IsDigit (replicate n b'0') (d.fmt_ulong r) (digits_0 n) dec.digits,
            value-append 0 (replicate n b'0') (d.fmt_ulong r) ∙ rw (value_0 n) dec.spells,
          )

      write_fraction-frac :
          (buf : Bytes)
          → 20 ≤ length buf
          → rounded d f val (10 ^ suc k) ≡ some r
          → write_fraction d f fd buf val (suc k)
            ≡ some (
              1,
              wrote fd (codes ".")
                  ∷ (zero_writes fd (suc k - length (d.fmt_ulong r))
                      ++ wrote fd (d.fmt_ulong r) ∷ []),
            )
      unfolding write_fraction
      write_fraction-frac buf size e = rw (
        scale_lem k h,
        e,
        fmt_into_fits d buf r (omega (arith, length-frac)),
        zero_loop-writes,
        write-append,
      )

    sign : List Write
    sign = if f.is_negative val then wrote fd (codes "-") ∷ [] else []

    -- The buffer behind the whole part `n`.
    buffer : ℕ → Bytes
    buffer n = d.fmt_ulong n ++ drop (length (d.fmt_ulong n)) (char_array 20)

    length-buffer : (n : ℕ) → n < u64_mod → 20 ≤ length (buffer n)
    unfolding buffer
    length-buffer n small = omega (
      arith,
      length-append (d.fmt_ulong n) (drop (length (d.fmt_ulong n)) (char_array 20)),
      length-drop (length (d.fmt_ulong n)) (char_array 20),
      length-fmt_ulong_20 d n small,
    )

    write_double_writes :
        (k n r : ℕ)
        → k < 9
        → f.to_u64 val ≡ some n
        → rounded d f val (10 ^ suc k) ≡ some r
        → r < 10 ^ suc k
        → write_double d f fd val (suc k)
          ≡ some (
            1,
            sign
                ++ (wrote fd (d.fmt_ulong n)
                    ∷ wrote fd (codes ".")
                    ∷ (zero_writes fd (suc k - length (d.fmt_ulong r))
                        ++ wrote fd (d.fmt_ulong r) ∷ [])),
          )
    unfolding write_double sign buffer
    write_double_writes k n r h whole_is frac_is below =
        let small = f.to_u64-lt val n whole_is in
        let first = fmt_into_fits d (char_array 20) n (length-fmt_ulong_20 d n small) in
        let second = write_fraction-frac k r h below (buffer n) (length-buffer n small) frac_is in
        elim (Bool-cases (f.is_negative val)) [
          | inl e ↦ rw (e, whole_is, first, write-append, suc_ne_zero k, second)
          | inr e ↦ rw (e, whole_is, first, write-append, suc_ne_zero k, second)
        ]

    said_lem :
        (k n r : ℕ)
        → k < 9
        → f.to_u64 val ≡ some n
        → rounded d f val (10 ^ suc k) ≡ some r
        → r < 10 ^ suc k
        → said fd (write_double d f fd val (suc k)) ≡ some (1, fixed_text f val (suc k))
    unfolding fixed_text padded sign
    said_lem k n r h whole_is frac_is below =
        rw (write_double_writes k n r h whole_is frac_is below)
          (elim (Bool-cases (f.is_negative val)) [
            | inl e ↦
                rw (e, sign, whole_is, frac_is, fixed_text)
                  (simp (output-wrote, output-zero_writes, output-nil, append-nil))
            | inr e ↦
                rw (e, sign, whole_is, frac_is, fixed_text)
                  (simp (output-wrote, output-zero_writes, output-nil, append-nil))
          ])

    rounded_lem :
        (k m : ℕ)
        → f.to_u64 (scaled d f val (10 ^ k)) ≡ some m
        → (rounded d f val (10 ^ k) ≡ some (m % 10 ^ k)) × (m % 10 ^ k < 10 ^ k)
    unfolding rounded
    rounded_lem k m e = (rw (e, rounded) refl, mod-lt _ (one-le-pow k 10 (omega arith)))

    rounded-none :
        (k : ℕ) → f.to_u64 (scaled d f val (10 ^ k)) ≡ none → rounded d f val (10 ^ k) ≡ none
    unfolding rounded
    rounded-none k e = rw (e, rounded) refl

    or_zero_lt : (k : ℕ) → or_zero (rounded d f val (10 ^ k)) < 10 ^ k
    or_zero_lt k = elim (Option-cases (f.to_u64 (scaled d f val (10 ^ k)))) [
      | inl e ↦ rw (rounded-none k e) (one-le-pow k 10 (omega arith))
      | inr (m, e) ↦ let (is, below) = rounded_lem k m e in rw is below
    ]

    faults_whole : (k : ℕ) → f.to_u64 val ≡ none → write_double d f fd val (suc k) ≡ none
    unfolding write_double
    faults_whole k e = elim (Bool-cases (f.is_negative val)) [
      | inl q ↦ rw (q, e) refl
      | inr q ↦ rw (q, e) refl
    ]

    faults_fraction :
        (k n : ℕ)
        → k < 9
        → f.to_u64 val ≡ some n
        → f.to_u64 (scaled d f val (10 ^ suc k)) ≡ none
        → write_double d f fd val (suc k) ≡ none
    unfolding write_double write_fraction
    faults_fraction k n h whole_is e =
        let no_fraction = rounded-none (suc k) e in
        let small = f.to_u64-lt val n whole_is in
        let first = fmt_into_fits d (char_array 20) n (length-fmt_ulong_20 d n small) in
        elim (Bool-cases (f.is_negative val)) [
          | inl q ↦
              rw (q, whole_is, first, write-append, suc_ne_zero k, scale_lem k h, no_fraction) refl
          | inr q ↦
              rw (q, whole_is, first, write-append, suc_ne_zero k, scale_lem k h, no_fraction) refl
        ]

    pub write_double-fixed_text :
        (k : ℕ)
        → k < 9
        → (said fd (write_double d f fd val (suc k))
            ≡ (if converts f val (suc k) then some (1, fixed_text f val (suc k)) else none))
          × (length (padded (suc k) (or_zero (rounded d f val (10 ^ suc k)))) ≡ suc k)
          × All IsDigit (padded (suc k) (or_zero (rounded d f val (10 ^ suc k))))
          × (value 0 (padded (suc k) (or_zero (rounded d f val (10 ^ suc k))))
              ≡ or_zero (rounded d f val (10 ^ suc k)))
    write_double-fixed_text k h =
        let r = or_zero (rounded d f val (10 ^ suc k)) in
        let (long, digits, spells) = padded_lem k r h (or_zero_lt (suc k)) in
        (
          elim (Option-cases (f.to_u64 val)) [
            | inl e ↦ rw e (ap (said fd) (faults_whole k e))
            | inr (n, e) ↦ elim (Option-cases (f.to_u64 (scaled d f val (10 ^ suc k)))) [
              | inl q ↦ rw (e, q) (ap (said fd) (faults_fraction k n h e q))
              | inr (m, q) ↦
                  let (rounds, below) = rounded_lem (suc k) m q in
                  rw (e, q) (said_lem k n (m % 10 ^ suc k) h e rounds below)
            ]
          ],
          long,
          digits,
          spells,
        )

    pub write_double-converts :
        (k : ℕ)
        → k < 9
        → converts f val (suc k) ≡ true
        → said fd (write_double d f fd val (suc k)) ≡ some (1, fixed_text f val (suc k))
    write_double-converts k h e = (write_double-fixed_text k h).0 ∙ rw e refl

    -- A value whose whole part is `n`, and which rounds up to `n + 1` at two digits, is printed as
    -- `n.00`: the carry out of the fraction is lost.
    pub write_double_carry :
        (n : ℕ)
        → f.is_negative val ≡ false
        → f.to_u64 val ≡ some n
        → f.to_u64 (f.add (f.mul val (f.of_u64 100)) f.half) ≡ some ((n + 1) * 100)
        → said fd (write_double d f fd val 2) ≡ some (1, d.fmt_ulong n ++ codes ".00")
    unfolding fixed_text padded
    write_double_carry n pos whole_is up =
        let zero_print : d.fmt_ulong 0 ≡ codes "0" =
          IsDecimal-unique (d.fmt_ulong 0) (codes "0") (d.fmt_ulong-IsDecimal 0 (omega arith))
            (omega arith) in
        let none_left : (n + 1) * 100 % 100 ≡ 0 = omega arith in
        let (rounds, below) = rounded_lem 2 ((n + 1) * 100) up in
        said_lem 1 n ((n + 1) * 100 % 10 ^ 2) (omega arith) whole_is rounds below
        ∙ rw (pos, whole_is, fixed_text, rounds, none_left, zero_print, padded)
