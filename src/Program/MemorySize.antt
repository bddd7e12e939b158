-- ===== src/Program/MemorySize.antt =====
-- Runs that print the size of the memory.
use ustat.Base.{
  ℕ, ◌*◌, ◌<◌, true, false, ◌≡◌, ◌⊎◌, refl, arith, Bytes, [], ◌∷◌, ◌++◌, some, codes, replicate,
  get_or-replicate, u64_mod, append-nil,
}
use ustat.Djb.{Djb, cstr}
use ustat.Double.{Double}
use ustat.Fmt.Digits.{decimal}
use ustat.Io.{said, stdout, output-wrote, output-nil}
use ustat.Memory.Pages.{
  of_linux, mem_init-measured, mem_total_print-decimal, mem_free_print-decimal,
}
use ustat.Memory.{Memory, Sysinfo}
use ustat.Program.Choice.{select_module-module_at}
use ustat.Program.Silence.{handlers-Quiet}
use ustat.Program.Single.{main-Runs}
use ustat.Program.World.{World, System, run_init, run_print, handlers}
use ustat.Program.{State, Started, nmodules, wants_usage, main}

-- The whole memory, or the free part.
pub data Extent : Type 0 where
  all_memory : Extent
  free_memory : Extent

abbrev pub extent_name : Extent → Bytes
extent_name all_memory = codes "mem"
extent_name free_memory = codes "memf"

-- The bytes that the system gives.
abbrev pub extent_bytes : Extent → Sysinfo → ℕ
extent_bytes all_memory si = si.totalram * si.mem_unit
extent_bytes free_memory si = si.freeram * si.mem_unit

abbrev memory_of : Sysinfo → Memory
memory_of si = record { mem_total = si.totalram * si.mem_unit; mem_free = si.freeram * si.mem_unit }

abbrev started_with : {D : Type 0} → State (World D) → Memory → Started (World D)
started_with st now = record { rc = 1; world = record st.world { memory = now }; is_ready = true }

module _ (d : Djb) {D : Type 0} (double : Double D) (sys : System) where
  -- A fresh run with the argument `mem` or `memf`, where sysinfo(2) gives units of the memory of
  -- fewer than 2 ^ 64 bytes, and one of the two numbers that the program holds is 0, as at its start:
  -- the exit code is 0, and the standard output is the decimal number of the bytes of the whole memory,
  -- or of its free part.
  pub main-extent_bytes :
      (z : Extent) (si : Sysinfo) (st : State (World D))
      → sys.sysinfo ≡ some si
      → si.totalram * si.mem_unit < u64_mod
      → si.freeram * si.mem_unit < u64_mod
      → (st.world.memory.mem_total ≡ 0) ⊎ (st.world.memory.mem_free ≡ 0)
      → st.ready ≡ replicate nmodules false
      → said stdout (main d (handlers d double sys) st (cstr (extent_name z) ∷ []))
        ≡ some (0, decimal (extent_bytes z si))
  unfolding run_init run_print wants_usage
  main-extent_bytes all_memory si st e small small' unknown idle =
      let now = memory_of si in
      let asked =
        mem_init-measured (of_linux (some si)) st.world.memory now false unknown tt refl small
          small' in
      main-Runs d (handlers d double sys) (handlers-Quiet d double sys) (cstr (codes "mem")) st 19
        (started_with st now) (decimal (si.totalram * si.mem_unit))
        (d.str_equaln-append (codes "me") (codes "-h") (codes "m" ++ 0 ∷ []) (0 ∷ []) 2
          (ground arith) (ground arith) refl refl)
        (record {
          selected = select_module-module_at d 18 [] (omega arith);
          named = refl;
          not_ready = rw idle (get_or-replicate nmodules 19 false);
          init_logs = [];
          starts = rw (e, asked) refl;
          succeeds = refl;
          prints =
              rw (mem_total_print-decimal d double stdout now small)
                (rw (output-wrote, output-nil, append-nil) refl);
        })
  main-extent_bytes free_memory si st e small small' unknown idle =
      let now = memory_of si in
      let asked =
        mem_init-measured (of_linux (some si)) st.world.memory now false unknown tt refl small
          small' in
      main-Runs d (handlers d double sys) (handlers-Quiet d double sys) (cstr (codes "memf")) st 16
        (started_with st now) (decimal (si.freeram * si.mem_unit))
        (d.str_equaln-append (codes "me") (codes "-h") (codes "mf" ++ 0 ∷ []) (0 ∷ []) 2
          (ground arith) (ground arith) refl refl)
        (record {
          selected = select_module-module_at d 15 [] (omega arith);
          named = refl;
          not_ready = rw idle (get_or-replicate nmodules 16 false);
          init_logs = [];
          starts = rw (e, asked) refl;
          succeeds = refl;
          prints =
              rw (mem_free_print-decimal d double stdout now small')
                (rw (output-wrote, output-nil, append-nil) refl);
        })
