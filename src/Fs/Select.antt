-- ===== src/Fs/Select.antt =====
-- The file system that an argument names.
use ustat.Base.{
  ℕ, suc, ◌+◌, ◌-◌, ◌%◌, ◌≤◌, ◌<◌, true, false, Bytes, List, [], ◌∷◌, ◌++◌, some, ◌==◌,
  if◌then◌else◌, u64_mod, length, drop, take, ◌≡◌, refl, sym, ◌∙◌, ap, All, Lacks, arith,
  length-append, append_assoc, append-nil, drop-append_length, Bool-cases, inl, inr, ==_iff,
}
use ustat.Djb.{Djb, cstr, same_bytes}
use ustat.Fmt.Digits.{decimal}
use ustat.Fmt.Writes.{write_uint64-decimal}
use ustat.Fs.{UstatFs, select_loop, fs_select, n_used, fs_used_print}
use ustat.Io.{wrote}
use ustat.Double.{Double}

-- The mount point of an entry.
abbrev pub path : UstatFs → Bytes
path f = take f.id_l f.id

-- An entry as the loops over the mounts make it.
pub record IsEntry (f : UstatFs) : Type 0 where
  pub id : f.id ≡ cstr (path f)
  pub id_l : f.id_l ≡ length (path f)
  pub clean : Lacks 0 (path f)

-- The first entry with a mount point, or else the entry `f`.
abbrev pub find_entry : Bytes → UstatFs → List UstatFs → UstatFs
find_entry p f [] = f
find_entry p f (g ∷ fs) = if same_bytes p (path g) then g else find_entry p f fs

-- The entry for the text behind the name of the module: the first one where there is no text.
abbrev pub named_entry : Bytes → UstatFs → List UstatFs → UstatFs
named_entry [] f fs = f
named_entry (c ∷ p) f fs = find_entry (c ∷ p) f (f ∷ fs)

same_bytes-length : (s t : Bytes) → same_bytes s t ≡ true → length s ≡ length t
same_bytes-length [] [] h = refl
same_bytes-length [] (c ∷ t) h = ground arith
same_bytes-length (b ∷ s) [] h = ground arith
same_bytes-length (b ∷ s) (c ∷ t) h = elim (Bool-cases (same_bytes s t)) [
  | inl e ↦ ap suc (same_bytes-length s t e)
  | inr e ↦ ground arith
]

module _ (d : Djb) where
  select_loop-find_entry :
      (p : Bytes) (f : UstatFs) (fs : List UstatFs)
      → Lacks 0 p
      → All IsEntry fs
      → select_loop d (cstr p) (length p) f fs ≡ find_entry p f fs
  unfolding select_loop
  select_loop-find_entry p f [] h hs = refl
  select_loop-find_entry p f (g ∷ fs) h (hg, hs) =
      let ih = select_loop-find_entry p f fs h hs in
      elim (Bool-cases (length p == g.id_l)) [
        | inl e ↦
            let long : length p ≡ g.id_l = (==_iff (length p) g.id_l).0 e in
            let test : d.str_equaln (cstr p) g.id (length p) ≡ same_bytes p (path g) =
              ap (λ t. d.str_equaln (cstr p) t (length p)) hg.id
              ∙ d.str_equaln-append p (path g) (0 ∷ []) (0 ∷ []) (length p) h hg.clean refl
                  (sym (long ∙ hg.id_l)) in
            rw (e, test, ih) refl
        | inr e ↦ elim (Bool-cases (same_bytes p (path g))) [
          | inl e' ↦
              let long : length p ≡ g.id_l = same_bytes-length p (path g) e' ∙ sym hg.id_l in
              absurd (ground arith)
          | inr e' ↦ rw (e, e', ih) refl
        ]
      ]

  -- An argument of the name of a module and a mount point selects the first entry with this mount
  -- point, and the first entry of all where no entry has it or nothing stands behind the name.
  pub fs_select-named_entry :
      (t p : Bytes) (f : UstatFs) (fs : List UstatFs)
      → Lacks 0 t
      → Lacks 0 p
      → All IsEntry (f ∷ fs)
      → length t + length p < u64_mod
      → fs_select d (cstr t) (f ∷ fs) (cstr (t ++ p)) (length (t ++ p)) ≡ some (named_entry p f fs)
  unfolding fs_select
  fs_select-named_entry t [] f fs ht hp hs small =
      let same : (length t == length (t ++ [])) ≡ true = rw (append-nil t) (ground arith) in
      rw (d.str_len-text t [] ht, same) refl
  fs_select-named_entry t (c ∷ p) f fs ht hp hs small =
      let sum = length-append t (c ∷ p) in
      let differ : (length t == length (t ++ c ∷ p)) ≡ false = ground (arith, sum) in
      let left : (length (t ++ c ∷ p) + u64_mod - length t) % u64_mod ≡ length (c ∷ p) =
        omega (arith, sum) in
      let behind : drop (length t) (cstr (t ++ c ∷ p)) ≡ cstr (c ∷ p) =
        rw (append_assoc t (c ∷ p) (0 ∷ [])) (drop-append_length t (cstr (c ∷ p))) in
      rw (d.str_len-text t [] ht, differ, left, behind)
        (ap some (select_loop-find_entry (c ∷ p) f (f ∷ fs) hp hs))

  -- What is used of the selected file system is printed in decimal: the total less the free bytes,
  -- where the free bytes are not more.
  pub fs_used_print-decimal :
      {D : Type 0} (double : Double D) (fd : ℕ) (name s : Bytes) (l : ℕ) (fs : List UstatFs)
      (f : UstatFs)
      → fs_select d name fs s l ≡ some f
      → f.n_free ≤ f.n_total
      → f.n_total < u64_mod
      → fs_used_print d double fd name fs s l
        ≡ some (1, wrote fd (decimal (f.n_total - f.n_free)) ∷ [])
  unfolding fs_used_print
  fs_used_print-decimal double fd name s l fs f selected le small =
      let used : n_used f ≡ f.n_total - f.n_free = omega arith in
      rw (selected, used, write_uint64-decimal fd (f.n_total - f.n_free) (omega arith)) refl
