-- ===== src/Fs/Mounts/Table.antt =====
-- Phase 3, piece by piece of a line: what the loop does on a word, a blank, the mount point, the rest
-- of the line and its end.
use ustat.Base.{
  ℕ, suc, ◌+◌, ◌-◌, ◌≤◌, true, false, Bytes, List, [], ◌∷◌, ◌++◌, Option, none, some, ◌==◌, drop,
  length, ◌≡◌, refl, sym, ◌∙◌, All, arith, length-append, append_assoc, append-nil,
  get_elem?-append_length, set-append_length, drop-append_length, Bool-cases, inl, inr,
}
use ustat.Djb.{Djb, text}
use ustat.Fs.{UstatFs}
use ustat.Fs.Mounts.{
  Mounted, add_mount_entry, Analysis, is_blank, at_blank, analyze_byte, analyze, end_of_point,
}

-- A byte inside of a field.
abbrev pub IsPlain : ℕ → Type 0
IsPlain b = (is_blank b ≡ false) × ((b == 10) ≡ false)

snoc : (pre : Bytes) (b : ℕ) (rest : Bytes) → pre ++ b ∷ rest ≡ (pre ++ b ∷ []) ++ rest
snoc pre b rest = sym (append_assoc pre (b ∷ []) rest)

length-snoc : (pre : Bytes) (b : ℕ) → suc (length pre) ≡ length (pre ++ b ∷ [])
length-snoc pre b = omega (arith, length-append pre (b ∷ []))

module _ (d : Djb) (v : Mounted) (spare : Bytes) where
  -- The state with what is behind and what is in front; the rest of the buffer is spare.
  abbrev at : Bytes → Bytes → Option ℕ → ℕ → List UstatFs → Analysis
  at pre rest mnt field fs = record {
    buf = pre ++ (rest ++ spare);
    mnt = mnt;
    field = field;
    fs = fs;
  }

  -- The loop from there to the end of the file.
  unfoldable pub run : Bytes → Bytes → Option ℕ → ℕ → List UstatFs → Option Analysis
  run pre rest mnt field fs = analyze d v (length rest) (length pre) (at pre rest mnt field fs)

  -- One round, from what the body makes of the byte.
  round :
      (pre : Bytes) (b c : ℕ) (rest : Bytes) (m m' : Option ℕ) (f f' : ℕ) (fs fs' : List UstatFs)
      → analyze_byte d v (length pre) b (at pre (b ∷ rest) m f fs)
        ≡ some (at pre (c ∷ rest) m' f' fs')
      → run pre (b ∷ rest) m f fs ≡ run (pre ++ c ∷ []) rest m' f' fs'
  unfolding run analyze
  round pre b c rest m m' f f' fs fs' e =
      let there : analyze d v (suc (length rest)) (length pre) (at pre (b ∷ rest) m f fs)
          ≡ analyze d v (length rest) (suc (length pre)) (at pre (c ∷ rest) m' f' fs') =
        rw (get_elem?-append_length pre b (rest ++ spare), e, analyze) refl in
      there ∙ rw (snoc pre c (rest ++ spare), length-snoc pre c) refl

  plain :
      (pre : Bytes) (b : ℕ) (rest : Bytes) (m : Option ℕ) (f : ℕ) (fs : List UstatFs)
      → IsPlain b
      → (f == 4) ≡ false
      → analyze_byte d v (length pre) b (at pre (b ∷ rest) m f fs) ≡ some (at pre (b ∷ rest) m f fs)
  unfolding analyze_byte
  plain pre b rest m f fs (no_blank, no_line) h = rw (no_blank, no_line, h) refl

  pub word :
      (w pre rest : Bytes) (m : Option ℕ) (f : ℕ) (fs : List UstatFs)
      → All IsPlain w
      → (f == 4) ≡ false
      → run pre (w ++ rest) m f fs ≡ run (pre ++ w) rest m f fs
  word [] pre rest m f fs h e = rw (append-nil pre) refl
  word (c ∷ w) pre rest m f fs (hc, h) e =
      round pre c c (w ++ rest) m m f f fs fs (plain pre c (w ++ rest) m f fs hc e)
      ∙ word w (pre ++ c ∷ []) rest m f fs h e
      ∙ rw (append_assoc pre (c ∷ []) w) refl

  -- A blank that is overwritten, and at which no mount point ends.
  pub blank :
      (pre rest : Bytes) (b : ℕ) (m : Option ℕ) (f : ℕ) (fs : List UstatFs)
      → is_blank b ≡ true
      → (f + 1 == 4) ≡ false
      → (f + 1 == 5) ≡ false
      → run pre (b ∷ rest) m f fs ≡ run (pre ++ 0 ∷ []) rest m (f + 1) fs
  unfolding analyze_byte at_blank
  blank pre rest b m f fs is four five =
      round pre b 0 rest m m f (f + 1) fs fs
        (rw (is, four, five, set-append_length pre b 0 (rest ++ spare)) refl)

  -- The blank in front of the mount point stays.
  pub blank_4 :
      (pre rest : Bytes) (fs : List UstatFs)
      → run pre (32 ∷ rest) none 3 fs ≡ run (pre ++ 32 ∷ []) rest none 4 fs
  unfolding analyze_byte at_blank
  blank_4 pre rest fs = round pre 32 32 rest none none 3 4 fs fs refl

  -- The rest of the mount point, once its start is known.
  point_rest :
      (w pre rest : Bytes) (m : ℕ) (fs : List UstatFs)
      → All IsPlain w
      → run pre (w ++ rest) (some m) 4 fs ≡ run (pre ++ w) rest (some m) 4 fs
  unfolding analyze_byte
  point_rest [] pre rest m fs h = rw (append-nil pre) refl
  point_rest (c ∷ w) pre rest m fs ((no_blank, no_line), h) =
      round pre c c (w ++ rest) (some m) (some m) 4 4 fs fs (rw (no_blank, no_line) refl)
      ∙ point_rest w (pre ++ c ∷ []) rest m fs h
      ∙ rw (append_assoc pre (c ∷ []) w) refl

  pub point :
      (c : ℕ) (w pre rest : Bytes) (fs : List UstatFs)
      → IsPlain c
      → All IsPlain w
      → run pre (c ∷ (w ++ rest)) none 4 fs ≡ run (pre ++ c ∷ w) rest (some (length pre)) 4 fs
  unfolding analyze_byte
  point c w pre rest fs (no_blank, no_line) h =
      round pre c c (w ++ rest) none (some (length pre)) 4 4 fs fs (rw (no_blank, no_line) refl)
      ∙ point_rest w (pre ++ c ∷ []) rest (length pre) fs h
      ∙ rw (append_assoc pre (c ∷ []) w) refl

  -- The blank behind the mount point: the entry is made from the text that ends there.
  pub blank_5 :
      (pre w rest : Bytes) (fs : List UstatFs)
      → run (pre ++ w) (32 ∷ rest) (some (length pre)) 4 fs
        ≡ run
            ((pre ++ w) ++ 0 ∷ [])
            rest
            (some (length pre))
            5
            (add_mount_entry d v fs (text w (rest ++ spare)) (length w))
  unfolding analyze_byte at_blank end_of_point
  blank_5 pre w rest fs =
      let long : length (pre ++ w) - length pre ≡ length w = omega (arith, length-append pre w) in
      let memory : drop (length pre) ((pre ++ w) ++ 0 ∷ (rest ++ spare)) ≡ text w (rest ++ spare) =
        rw (append_assoc pre w (0 ∷ (rest ++ spare)))
          (drop-append_length pre (text w (rest ++ spare))) in
      round (pre ++ w) 32 0 rest (some (length pre)) (some (length pre)) 4 5 fs _
        (rw (set-append_length (pre ++ w) 32 0 (rest ++ spare), memory, long) refl)

  pub newline :
      (pre rest : Bytes) (m : Option ℕ) (f : ℕ) (fs : List UstatFs)
      → run pre (10 ∷ rest) m f fs ≡ run (pre ++ 10 ∷ []) rest none 0 fs
  unfolding analyze_byte
  newline pre rest m f fs = round pre 10 10 rest m none f 0 fs fs refl

  -- The rest of a line changes nothing but the buffer and the number of the field.
  pub tail :
      (w pre rest : Bytes) (m : Option ℕ) (f : ℕ) (fs : List UstatFs)
      → All (λ b. (b == 10) ≡ false) w
      → 5 ≤ f
      → (pre' : Bytes) × (f' : ℕ) × (run pre (w ++ rest) m f fs ≡ run pre' rest m f' fs)
  tail [] pre rest m f fs h five = (pre, f, refl)
  tail (c ∷ w) pre rest m f fs (no_line, h) five =
      let four : (f == 4) ≡ false = ground arith in
      let next_4 : (f + 1 == 4) ≡ false = ground arith in
      let next_5 : (f + 1 == 5) ≡ false = ground arith in
      elim (Bool-cases (is_blank c)) [
        | inl e ↦
            let (pre', f', there) = tail w (pre ++ 0 ∷ []) rest m (f + 1) fs h (omega arith) in
            (pre', f', blank pre (w ++ rest) c m f fs e next_4 next_5 ∙ there)
        | inr e ↦
            let (pre', f', there) = tail w (pre ++ c ∷ []) rest m f fs h five in
            (
              pre',
              f',
              round pre c c (w ++ rest) m m f f fs fs
                    (plain pre c (w ++ rest) m f fs (e, no_line) four)
                  ∙ there,
            )
      ]
