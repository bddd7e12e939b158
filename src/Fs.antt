-- ===== src/Fs.antt =====
-- ustat_fs.c and ustat_fs.h: the modules on file systems. The children have the mounts of Linux.
pub mod Mounts
pub mod Select
pub mod Other
use ustat.Base.{
  ℕ, suc, ◌+◌, ◌-◌, ◌%◌, Bool, true, false, ◌||◌, Bytes, List, [], ◌∷◌, Option, none, some, ltb,
  ◌==◌, if◌then◌else◌, codes, u64_mod, drop,
}
use ustat.Djb.{Djb, cstr}
use ustat.Double.{Double, write_double}
use ustat.Fmt.{write_uint64}
use ustat.Human.{write_uint64_human}
use ustat.Io.{Emits, ◌>>=◌, ◌>>◌, from, puts, return, stderr}

-- `struct ustat_fs`. An `int64_t` is held by its 64 bits.
pub record UstatFs : Type 0 where
  pub id : Bytes
  pub id_l : ℕ
  pub n_free : ℕ
  pub n_total : ℕ

-- What `fs_init` returns, `_fs` and `_fs_n`, and `m->ready`. A null pointer is an empty list.
pub record FsInit : Type 0 where
  pub rc : ℕ
  pub fs : List UstatFs
  pub ready : Bool

abbrev pub fs_result : ℕ → List UstatFs → Bool → FsInit
fs_result rc fs ready = record { rc = rc; fs = fs; ready = ready }

abbrev pub error_no_fs_entries : Bytes
error_no_fs_entries = cstr (codes "can't get a fs entry via getfsent(3)")

-- The end of `fs_init`.
abbrev pub fs_found : List UstatFs → Emits FsInit
fs_found [] = do puts stderr error_no_fs_entries; return (fs_result 0 [] false)
fs_found (f ∷ fs) = return (fs_result 1 (f ∷ fs) true)

-- `fs_init`, with what `_fs_init_platform` makes of the list
unfoldable pub fs_init : (List UstatFs → Option (List UstatFs)) → List UstatFs → Bool → Emits FsInit
fs_init platform (f ∷ fs) ready = return (fs_result 1 (f ∷ fs) ready)
fs_init platform [] true = return (fs_result 1 [] true)
fs_init platform [] false = do fs ← from (platform []); fs_found fs

-- The loop of `_fs_select`, over the entries that are left.
unfoldable pub select_loop : Djb → Bytes → ℕ → UstatFs → List UstatFs → UstatFs
select_loop d id id_l f [] = f
select_loop d id id_l f (g ∷ fs) =
    let rest = select_loop d id id_l f fs in
    if id_l == g.id_l then (if d.str_equaln id g.id id_l then g else rest) else rest

-- `_fs_select`; an empty list has no first entry.
unfoldable pub fs_select : Djb → Bytes → List UstatFs → Bytes → ℕ → Option UstatFs
fs_select d name [] s l = none
fs_select d name (f ∷ fs) s l =
    let off = d.str_len name in
    if off == l
    then some f
    else some (select_loop d (drop off s) ((l + u64_mod - off) % u64_mod) f (f ∷ fs))

-- `fs->n_total - fs->n_free`
abbrev pub n_used : UstatFs → ℕ
n_used f = (f.n_total + u64_mod - f.n_free) % u64_mod

module _ (d : Djb) {D : Type 0} (double : Double D) (fd : ℕ) (name : Bytes)
    (fs : List UstatFs) where
  unfoldable pub fs_total_print : Bytes → ℕ → Emits ℕ
  fs_total_print s l = do f ← from (fs_select d name fs s l); write_uint64 fd f.n_total

  unfoldable pub fs_total_human_print : Bytes → ℕ → Emits ℕ
  fs_total_human_print s l = do
    f ← from (fs_select d name fs s l)
    write_uint64_human d double fd 1 f.n_total

  unfoldable pub fs_free_print : Bytes → ℕ → Emits ℕ
  fs_free_print s l = do f ← from (fs_select d name fs s l); write_uint64 fd f.n_free

  unfoldable pub fs_free_human_print : Bytes → ℕ → Emits ℕ
  fs_free_human_print s l = do
    f ← from (fs_select d name fs s l)
    write_uint64_human d double fd 1 f.n_free

  unfoldable pub fs_used_print : Bytes → ℕ → Emits ℕ
  fs_used_print s l = do f ← from (fs_select d name fs s l); write_uint64 fd (n_used f)

  unfoldable pub fs_used_human_print : Bytes → ℕ → Emits ℕ
  fs_used_human_print s l = do
    f ← from (fs_select d name fs s l)
    write_uint64_human d double fd 1 (n_used f)

  unfoldable pub fs_ratio_print : Bytes → ℕ → Emits ℕ
  fs_ratio_print s l = do
    f ← from (fs_select d name fs s l)
    (if f.n_total == 0
        then write_double d double fd (double.of_u64 0) 2
        else write_double d double fd
            (double.div (double.of_i64 f.n_free) (double.of_i64 f.n_total)) 2)
