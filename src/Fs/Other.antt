-- ===== src/Fs/Other.antt =====
-- ustat_fs_other.c: the mounts of the systems with getmntinfo(3).
use ustat.Base.{
  ℕ, suc, ◌+◌, ◌*◌, ◌%◌, ◌≡◌, refl, arith, false, Bytes, List, [], ◌∷◌, Lacks, Option, none, some,
  length, take, u64_mod, length-replicate, length-append, length-take, lt→leb,
}
use ustat.Djb.{Djb, text}
use ustat.Fs.{UstatFs, fs_init, fs_result, error_no_fs_entries}
use ustat.Io.{wrote, stderr, store_all, char_array}

-- The fields of `struct statfs` that are read; `f_mntonname` is an array.
pub record Statfs : Type 0 where
  pub f_mntonname : Bytes
  pub f_bfree : ℕ
  pub f_blocks : ℕ
  pub f_bsize : ℕ

-- The body of the loop: `malloc(l)`, and a copy of `l + 1` bytes into it.
unfoldable pub fill_entry : Djb → Statfs → Option UstatFs
fill_entry d sf =
    let l = d.str_len sf.f_mntonname in
    elim (store_all (char_array l) (d.byte_copy (l + 1) sf.f_mntonname)) [
      | none ↦ none
      | some s ↦ some (record {
        id = s;
        id_l = l;
        n_free = sf.f_bfree * sf.f_bsize % u64_mod;
        n_total = sf.f_blocks * sf.f_bsize % u64_mod;
      })
    ]

-- The loop over the mounts.
unfoldable pub fill_entries : Djb → List Statfs → Option (List UstatFs)
fill_entries d [] = some []
fill_entries d (sf ∷ sfs) =
    let rest = fill_entries d sfs in
    elim (fill_entry d sf) [
      | none ↦ none
      | some f ↦ elim rest [ none ↦ none | some fs ↦ some (f ∷ fs) ]
    ]

-- `_fs_init_platform`, with the mounts that getmntinfo(3) gives: none where it fails.
unfoldable pub fs_init_platform_other : Djb → List Statfs → List UstatFs → Option (List UstatFs)
fs_init_platform_other d [] fs = some fs
fs_init_platform_other d (sf ∷ sfs) fs = fill_entries d (sf ∷ sfs)

module _ (d : Djb) where
  fill_entry-none :
      (sf : Statfs) (name rest : Bytes)
      → Lacks 0 name
      → sf.f_mntonname ≡ text name rest
      → fill_entry d sf ≡ none
  unfolding fill_entry store_all
  fill_entry-none sf name rest clean e =
      let l : d.str_len sf.f_mntonname ≡ length name = rw e (d.str_len-text name rest clean) in
      let size : length (text name rest) ≡ length name + suc (length rest) =
        length-append name (0 ∷ rest) in
      let copy = d.byte_copy-take (length name + 1) (text name rest) (omega arith) in
      let long = length-take (length name + 1) (text name rest) (omega arith) in
      let too_long =
        lt→leb (length (take (length name + 1) (text name rest)))
          (length (char_array (length name)))
          (omega (arith, long, length-replicate {A = ℕ} (length name) 0)) in
      rw (l, e, copy, too_long, fill_entry, store_all) refl

  -- The start of the module where no file system is known: if getmntinfo(3) gives none, it says so
  -- and returns 0. If it gives one, the zero byte behind the name of the first mount is stored
  -- behind the memory that was allocated for it.
  pub fs_init-other :
      (sf : Statfs) (sfs : List Statfs) (name rest : Bytes)
      → Lacks 0 name
      → sf.f_mntonname ≡ text name rest
      → (fs_init (fs_init_platform_other d []) [] false
          ≡ some (fs_result 0 [] false, wrote stderr error_no_fs_entries ∷ []))
        × (fs_init (fs_init_platform_other d (sf ∷ sfs)) [] false ≡ none)
  unfolding fs_init fs_init_platform_other fill_entries
  fs_init-other sf sfs name rest clean e = (
    refl,
    rw (fill_entry-none sf name rest clean e, fs_init, fs_init_platform_other, fill_entries) refl,
  )
