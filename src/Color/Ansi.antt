-- ===== src/Color/Ansi.antt =====
-- The sequences of the eight colours, and those of the 256 colours.
use ustat.Base.{
  ℕ, zero, suc, ◌+◌, ◌-◌, ◌*◌, ◌%◌, ◌≤◌, ◌<◌, true, false, ◌||◌, ◌&&◌, Bytes, List, [], ◌∷◌, ◌++◌,
  none, some, ltb, leb, ◌==◌, if◌then◌else◌, codes, u64_mod, get_elem?, length, drop, ◌≡◌, refl,
  ◌∙◌, ap, All, Lacks, arith, append-nil, append_assoc, drop-append_length, Bool-cases, inl, inr,
}
use ustat.Color.{escape, color8, color8_print, xterm256_print}
use ustat.Decimal.{IsDigit, value}
use ustat.Djb.{Djb, cstr}
use ustat.Io.{wrote, write-append, said, output-wrote, output-nil}

-- The sequence for the colour `k`: the foreground below 2, and bright where `o` is odd.
abbrev pub ansi : ℕ → ℕ → Bytes
ansi k zero = escape (codes "[3" ++ (b'0' + k) ∷ codes "m")
ansi k (suc zero) = escape (codes "[3" ++ (b'0' + k) ∷ codes ";1m")
ansi k (suc (suc zero)) = escape (codes "[4" ++ (b'0' + k) ∷ codes "m")
ansi k (suc (suc (suc o))) = escape (codes "[4" ++ (b'0' + k) ∷ codes ";1m")

-- The table, colour by colour.
rows : ℕ → ℕ → List Bytes
rows zero k = []
rows (suc n) k =
    cstr (ansi k 0) ∷ cstr (ansi k 1) ∷ cstr (ansi k 2) ∷ cstr (ansi k 3) ∷ rows n (k + 1)

color8-rows : color8 ≡ rows 8 0
unfolding rows
color8-rows = refl

get_elem?-rows :
    (n k j o : ℕ) → j < n → o < 4 → get_elem? (rows n k) (j * 4 + o) ≡ some (cstr (ansi (k + j) o))
unfolding rows
get_elem?-rows zero k j o h small = absurd (omega arith)
get_elem?-rows (suc n) k zero zero h small = ap (λ i. some (cstr (ansi i 0))) (omega arith)
get_elem?-rows (suc n) k zero (suc zero) h small = ap (λ i. some (cstr (ansi i 1))) (omega arith)
get_elem?-rows (suc n) k zero (suc (suc zero)) h small =
    ap (λ i. some (cstr (ansi i 2))) (omega arith)
get_elem?-rows (suc n) k zero (suc (suc (suc zero))) h small =
    ap (λ i. some (cstr (ansi i 3))) (omega arith)
get_elem?-rows (suc n) k zero (suc (suc (suc (suc o)))) h small = absurd (omega arith)
get_elem?-rows (suc n) k (suc j) o h small =
    let index : suc j * 4 + o ≡ suc (suc (suc (suc (j * 4 + o)))) = omega arith in
    let shift : k + 1 + j ≡ k + suc j = omega arith in
    rw index (get_elem?-rows n (k + 1) j o (omega arith) small ∙ rw shift refl)

get_elem?_beyond : (xs : List Bytes) (i : ℕ) → length xs ≤ i → get_elem? xs i ≡ none
get_elem?_beyond [] i h = refl
get_elem?_beyond (x ∷ xs) zero h = absurd (omega arith)
get_elem?_beyond (x ∷ xs) (suc i) h = get_elem?_beyond xs i (omega arith)

get_elem?-color8 : (k o : ℕ) → k < 8 → o < 4 → get_elem? color8 (k * 4 + o) ≡ some (cstr (ansi k o))
unfolding rows
get_elem?-color8 k o h small =
    get_elem?-rows 8 0 k o h small ∙ ap (λ i. some (cstr (ansi i o))) (omega arith)

ansi-Lacks : (k o : ℕ) → k < 8 → Lacks 0 (ansi k o)
ansi-Lacks k zero h = ground arith
ansi-Lacks k (suc zero) h = ground arith
ansi-Lacks k (suc (suc zero)) h = ground arith
ansi-Lacks k (suc (suc (suc o))) h = ground arith

module _ (d : Djb) where
  color8_digit :
      (fd k o : ℕ)
      → k < 8
      → o < 4
      → color8_print d fd (b'0' + k) o ≡ some (1, wrote fd (ansi k o) ∷ [])
  unfolding color8_print
  color8_digit fd k o h small =
      let same : b'0' + k - b'0' ≡ k = omega arith in
      let entry : get_elem? color8 ((b'0' + k - b'0') * 4 + o) ≡ some (cstr (ansi k o)) =
        ap (λ i. get_elem? color8 (i * 4 + o)) same ∙ get_elem?-color8 k o h small in
      let digit : (ltb (b'0' + k) b'0' || ltb 127 (b'0' + k) || ltb 8 (b'0' + k - b'0')) ≡ false =
        ground arith in
      rw
        (
          digit,
          entry,
          d.str_len-text (ansi k o) [] (ansi-Lacks k o h),
          write-append fd (ansi k o) (0 ∷ []),
        )
        refl

  eight : (fd o : ℕ) → color8_print d fd b'8' o ≡ none
  unfolding color8_print
  eight fd o = rw (get_elem?_beyond color8 (32 + o) (omega arith)) refl

  -- The colour functions of eight colours print, for each character: for 0 to 7 the sequence of
  -- that colour, foreground or background, normal or bright, and return 1. For 8 they read behind
  -- their table. For every other byte they print nothing and return 0.
  pub color8_print-ansi :
      (fd c o : ℕ)
      → o < 4
      → said fd (color8_print d fd c o) ≡ (
          if leb b'0' c && leb c b'7'
          then some (1, ansi (c - b'0') o)
          else if c == b'8'
          then none
          else some (0, []))
  unfolding color8_print
  color8_print-ansi fd c o small = elim (Bool-cases (leb b'0' c && leb c b'7')) [
    | inl e ↦
        let k = c - b'0' in
        let c_is : c ≡ b'0' + (c - b'0') = ground arith in
        let there : color8_print d fd c o ≡ some (1, wrote fd (ansi (c - b'0') o) ∷ []) =
          ap (λ x. color8_print d fd x o) c_is
          ∙ color8_digit fd (c - b'0') o (ground arith) small in
        rw (e, there, output-wrote, output-nil, append-nil) refl
    | inr e ↦ elim (Bool-cases (c == b'8')) [
      | inl e' ↦
          let c_is : c ≡ b'8' = ground arith in
          rw (e, e') (ap (λ x. said fd (color8_print d fd x o)) c_is ∙ rw (eight fd o) refl)
      | inr e' ↦
          let outside : (ltb c b'0' || ltb 127 c || ltb 8 (c - b'0')) ≡ true = ground arith in
          rw (e, e', outside, output-nil) refl
    ]
  ]

  -- An argument of a name and decimal digits: where the number is below 256, modulo 2 ^ 64, the
  -- digits are printed as they stand between the mode and an m; where it is not, or where there are
  -- no digits, nothing is printed and 0 is returned.
  pub xterm256_print-digits :
      (fd : ℕ) (t ds mode : Bytes)
      → Lacks 0 t
      → All IsDigit ds
      → said fd (xterm256_print d (cstr t) fd (cstr (t ++ ds)) mode) ≡ (
          if length ds == 0 || leb 256 (value 0 ds % u64_mod)
          then some (0, [])
          else some (1, mode ++ (ds ++ codes "m")))
  unfolding xterm256_print
  xterm256_print-digits fd t ds mode ht hd =
      let behind : drop (length t) (cstr (t ++ ds)) ≡ cstr ds =
        rw (append_assoc t ds (0 ∷ [])) (drop-append_length t (cstr ds)) in
      let scan = d.scan_ulong_lem ds [] 0 hd (λ z. omega arith) in
      elim (Bool-cases (length ds == 0 || leb 256 (value 0 ds % u64_mod))) [
        | inl e ↦ rw (d.str_len-text t [] ht, behind, scan, e, output-nil) refl
        | inr e ↦
            rw
              (
                d.str_len-text t [] ht,
                behind,
                scan,
                e,
                write-append fd ds (0 ∷ []),
                output-wrote,
                output-wrote,
                output-wrote,
                output-nil,
              )
              refl
      ]
