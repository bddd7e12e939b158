-- ===== src/Program/FileSystems.antt =====
-- A run that asks for the size of a file system: from mountinfo to the standard output.
use ustat.Base.{
  ℕ, ◌≢◌, ◌+◌, ◌<◌, ◌≡◌, refl, ◌∙◌, ap, arith, true, false, Bytes, List, [], ◌∷◌, ◌++◌, some, ◌==◌,
  codes, replicate, get_or-replicate, length, u64_mod, append-nil, All, Lacks, All-append,
}
use ustat.Djb.{Djb, cstr}
use ustat.Double.{Double}
use ustat.Fmt.{write_uint64}
use ustat.Fmt.Digits.{decimal}
use ustat.Fmt.Writes.{write_uint64-decimal}
use ustat.Fs
use ustat.Fs.Mounts.Lines.{Line, IsLine, file_text, entries}
use ustat.Fs.Mounts.Made.{IsMade, entries-IsMade, made-entries, named_entry-IsMade}
use ustat.Fs.Mounts.Phases.{IsHealthy, fs_init_platform-entries}
use ustat.Fs.Select.{named_entry, fs_select-named_entry}
use ustat.Fs.{UstatFs, n_used}
use ustat.Io.{◌>>=◌, from, Fd, chunk, content, said, stdout, output-wrote, output-nil, return}
use ustat.Program.Choice.{select_module-first_title}
use ustat.Program.Silence.{handlers-Quiet}
use ustat.Program.Single.{main-Runs}
use ustat.Program.World.{World, System, run_init, run_print, handlers, done}
use ustat.Program.{State, Started, nmodules, module_at, select_module, wants_usage, main, fs_init}

-- The modules on file systems that print a number of bytes.
pub data Size : Type 0 where
  total : Size
  free : Size
  used : Size

-- The name of the module in the table.
abbrev letter : Size → ℕ
letter total = b't'
letter free = b'f'
letter used = b'u'

abbrev pub name : Size → Bytes
name z = b'f' ∷ b's' ∷ letter z ∷ []

abbrev index : Size → ℕ
index z = elim z [ total ↦ 21 | free ↦ 24 | used ↦ 26 ]

abbrev pub bytes_of : Size → UstatFs → ℕ
bytes_of total f = f.n_total
bytes_of free f = f.n_free
bytes_of used f = n_used f

-- A mount point begins with a slash; nothing stands for the first file system.
abbrev pub IsPoint : Bytes → Type 0
IsPoint [] = Unit
IsPoint (c ∷ p) = c ≡ b'/'

bytes_of-lt : (z : Size) (f : UstatFs) → IsMade f → bytes_of z f < u64_mod
bytes_of-lt total f (h, lt, lt') = lt'
bytes_of-lt free f (h, lt, lt') = lt
bytes_of-lt used f h = omega arith

module _ (d : Djb) {D : Type 0} (double : Double D) (sys : System) where
  selects :
      (z : Size) (p : Bytes)
      → Lacks 0 p
      → IsPoint p
      → select_module d (cstr (name z ++ p)) ≡ index z
  selects total [] h at = select_module-first_title d (codes "fst") [] (ground arith)
  selects free [] h at = select_module-first_title d (codes "fsf") [] (ground arith)
  selects used [] h at = select_module-first_title d (codes "fsu") [] (ground arith)
  selects total (c ∷ p) (hc, h) at = rw (at) (
      select_module-first_title d (codes "fst/" ++ p) []
        (omega arith, (omega arith, (omega arith, (omega arith, h)))))
  selects free (c ∷ p) (hc, h) at = rw (at) (
      select_module-first_title d (codes "fsf/" ++ p) []
        (omega arith, (omega arith, (omega arith, (omega arith, h)))))
  selects used (c ∷ p) (hc, h) at = rw (at) (
      select_module-first_title d (codes "fsu/" ++ p) []
        (omega arith, (omega arith, (omega arith, (omega arith, h)))))

  clean_name : (z : Size) → Lacks 0 (name z)
  clean_name total = ground arith
  clean_name free = ground arith
  clean_name used = ground arith

  not_usage : (z : Size) (p : Bytes) → wants_usage d (cstr (name z ++ p) ∷ []) ≡ false
  unfolding wants_usage
  not_usage z p =
      d.str_equaln-append (codes "fs") (codes "-h") (letter z ∷ (p ++ 0 ∷ [])) (0 ∷ []) 2
        (ground arith) (ground arith) refl refl

  -- The start of the module.
  starts_fs :
      (ls : List Line) (l : Line) (first fd : Fd) (world : World D) (f : UstatFs)
      (fs : List UstatFs) (s : Bytes) (n : ℕ)
      → sys.mountinfo ≡ some (first, chunk (file_text (l ∷ ls)) ∷ fd)
      → All IsLine (l ∷ ls)
      → IsHealthy first
      → content first ≡ file_text (l ∷ ls)
      → world.fs ≡ []
      → entries sys.mounted (l ∷ ls) ≡ f ∷ fs
      → run_init d double sys fs_init world false s n
        ≡ return (record { rc = 1; world = record world { fs = f ∷ fs }; is_ready = true })
  unfolding run_init Fs.fs_init
  starts_fs ls l first fd world f fs s n e lines healthy same new made =
      let found = fs_init_platform-entries d sys.mounted ls l first fd [] lines healthy same in
      rw (new, e, found, made, Fs.fs_init, run_init) refl

  -- The entry of the table, with its start and its print.
  abbrev IsEntry : Size → Type 0
  IsEntry z =
      ((module_at (index z)).init ≡ fs_init)
      × ((index z == 0) ≡ false)
      × ((world : World D) (s : Bytes) (l : ℕ)
          → run_print d double sys (module_at (index z)).print stdout world (module_at (index z)) s
              l
            ≡ done d double sys (do
              f ← from (Fs.fs_select d (cstr (name z)) world.fs s l)
              write_uint64 stdout (bytes_of z f)))

  table_has-IsEntry : (z : Size) → IsEntry z
  unfolding run_print Fs.fs_total_print Fs.fs_free_print Fs.fs_used_print
  table_has-IsEntry total = (refl, refl, λ world s l. refl)
  table_has-IsEntry free = (refl, refl, λ world s l. refl)
  table_has-IsEntry used = (refl, refl, λ world s l. refl)

  prints_bytes :
      (z : Size) (p : Bytes) (f : UstatFs) (fs : List UstatFs)
      → All IsMade (f ∷ fs)
      → Lacks 0 p
      → length p + 4 < u64_mod
      → said stdout (
          done d double sys (do
            g ← from (
                Fs.fs_select d
                  (cstr (name z))
                  (f ∷ fs)
                  (cstr (name z ++ p))
                  (d.str_len (cstr (name z ++ p))))
            write_uint64 stdout (bytes_of z g)))
        ≡ some (tt, decimal (bytes_of z (named_entry p f fs)))
  prints_bytes z p f fs made clean small =
      let clean' = All-append (λ c. c ≢ 0) (name z) p (clean_name z) clean in
      let select =
        fs_select-named_entry d (name z) p f fs (clean_name z) clean (made-entries (f ∷ fs) made)
          (omega arith) in
      let lt = bytes_of-lt z (named_entry p f fs) (named_entry-IsMade p f fs made) in
      rw
        (
          d.str_len-text (name z ++ p) [] clean',
          select,
          write_uint64-decimal stdout (bytes_of z (named_entry p f fs)) lt,
        )
        (rw (output-wrote, output-nil, append-nil) refl)

  -- A fresh run with one argument, `fst`, `fsf` or `fsu` with a mount point or nothing behind it,
  -- where mountinfo has a file system that is listed. Its reads of the first phase do not fail; the
  -- file is the same in the second phase, whose one read gives the whole of it, and that is not so
  -- for a file that the system hands out in smaller pieces. Then the exit code is 0, and the standard output
  -- is the decimal number of all bytes, of the free ones, or of the difference, of the first file
  -- system with this mount point, or of the first one of all where there is none.
  pub main-named_entry :
      (z : Size) (p : Bytes) (ls : List Line) (l : Line) (first fd : Fd) (f : UstatFs)
      (fs : List UstatFs) (st : State (World D))
      → Lacks 0 p
      → IsPoint p
      → length p + 4 < u64_mod
      → sys.mountinfo ≡ some (first, chunk (file_text (l ∷ ls)) ∷ fd)
      → All IsLine (l ∷ ls)
      → IsHealthy first
      → content first ≡ file_text (l ∷ ls)
      → entries sys.mounted (l ∷ ls) ≡ f ∷ fs
      → st.world.fs ≡ []
      → st.ready ≡ replicate nmodules false
      → said stdout (main d (handlers d double sys) st (cstr (name z ++ p) ∷ []))
        ≡ some (0, decimal (bytes_of z (named_entry p f fs)))
  main-named_entry z p ls l first fd f fs st clean point small e lines healthy same made new idle =
      let (init_is, named_is, print_is) = table_has-IsEntry z in
      let arg = cstr (name z ++ p) in
      let all_made = rw made at (entries-IsMade sys.mounted (l ∷ ls) lines) in
      let world' : World D = record st.world { fs = f ∷ fs } in
      let started : Started (World D) = record { rc = 1; world = world'; is_ready = true } in
      main-Runs d (handlers d double sys) (handlers-Quiet d double sys) arg st (index z) started
        (decimal (bytes_of z (named_entry p f fs))) (not_usage z p)
        (record {
          selected = selects z p clean point;
          named = named_is;
          not_ready = rw idle (get_or-replicate nmodules (index z) false);
          init_logs = [];
          starts = rw init_is (
              starts_fs ls l first fd st.world f fs arg (d.str_len arg) e lines healthy same new
                made);
          succeeds = refl;
          prints =
              ap (said stdout) (print_is world' arg (d.str_len arg))
              ∙ prints_bytes z p f fs all_made clean small;
        })
