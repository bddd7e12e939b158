-- ===== src/Program/RoundTrip.antt =====
-- Runs that print a number which a module has read from a file: the digits come back.
use ustat.Base.{
  lt→ltb, Lacks, ◌^◌, ℕ, ◌%◌, ◌<◌, ◌≡◌, refl, arith, true, false, Bytes, [], ◌∷◌, ◌++◌, some, codes,
  replicate, get_or-replicate, length, u64_mod, append-nil,
}
use ustat.Battery.{UstatBattery, bat_level_print}
use ustat.Battery.Info.{bat_init-charging, charging}
use ustat.Decimal.{IsDigit, IsDecimal, IsDecimal-unique, value}
use ustat.Djb.{fmt_into_fits, length-fmt_ulong_20, Djb, cstr}
use ustat.Double.{Double}
use ustat.Fmt.Digits.{decimal, decimal-IsDecimal}
use ustat.Fmt.Writes.{write_uint64-decimal}
use ustat.Io.{write-append, char_array, Fd, chunk, said, stdout, output-wrote, output-nil}
use ustat.Program.Choice.{select_module-module_at}
use ustat.Program.Silence.{handlers-Quiet}
use ustat.Program.Single.{main-Runs}
use ustat.Program.World.{World, System, run_init, run_print, handlers}
use ustat.Program.{State, Started, nmodules, wants_usage, main}
use ustat.Uptime.File.{get_boottime-value}
use ustat.Uptime

module _ (d : Djb) {D : Type 0} (double : Double D) (sys : System) where
  -- A fresh run with the argument `ut`, where /proc/uptime begins with the decimal print of a 64-bit
  -- number in front of something else than a digit, has less than forty bytes and is read at once:
  -- the exit code is 0, and those digits are printed.
  pub main-proc_uptime :
      (n c : ℕ) (ds rest : Bytes) (fd : Fd) (st : State (World D))
      → sys.proc_uptime ≡ some (chunk (ds ++ c ∷ rest) ∷ fd)
      → IsDecimal n ds
      → n < u64_mod
      → (IsDigit c → ⊥)
      → length (ds ++ c ∷ rest) < 40
      → st.ready ≡ replicate nmodules false
      → said stdout (main d (handlers d double sys) st (cstr (codes "ut") ∷ [])) ≡ some (0, ds)
  unfolding run_init run_print Uptime.uptime_init Uptime.uptime_print wants_usage
  main-proc_uptime n c ds rest fd st file digits small other short idle =
      let read = get_boottime-value d ds rest c st.world.uptime fd digits.digits other short in
      let value_is : value 0 ds % u64_mod ≡ n = omega (arith, digits.spells) in
      let same : decimal n ≡ ds = IsDecimal-unique (decimal n) ds (decimal-IsDecimal n) digits in
      let started : Started (World D) = record {
        rc = 1;
        world = record st.world { uptime = n };
        is_ready = true;
      } in
      main-Runs d (handlers d double sys) (handlers-Quiet d double sys) (cstr (codes "ut")) st 5
        started ds
        (d.str_equaln-append (codes "ut") (codes "-h") (0 ∷ []) (0 ∷ []) 2 (ground arith)
          (ground arith) refl refl)
        (record {
          selected = select_module-module_at d 4 [] (omega arith);
          named = refl;
          not_ready = rw idle (get_or-replicate nmodules 5 false);
          init_logs = [];
          starts = rw (file, read, value_is, Uptime.uptime_init, run_init) refl;
          succeeds = refl;
          prints =
              rw (write_uint64-decimal stdout n small, same)
                (rw (output-wrote, output-nil, append-nil) refl);
        })

  -- A fresh run with the argument `bat%`, where the capacity of the battery begins with the decimal
  -- print of a number below 2 ^ 31 in front of something else than a digit, both files of the
  -- battery are read at once, and each has less than 32 bytes: the exit code is 0, and those digits
  -- are printed, whatever the status is.
  pub main-bat_capacity :
      (n c : ℕ) (status ds rest : Bytes) (fd fd' : Fd) (st : State (World D))
      → sys.bat_status ≡ some (chunk status ∷ fd)
      → sys.bat_capacity ≡ some (chunk (ds ++ c ∷ rest) ∷ fd')
      → Lacks 0 status
      → length status < 32
      → IsDecimal n ds
      → n < 2 ^ 31
      → (IsDigit c → ⊥)
      → length (ds ++ c ∷ rest) < 32
      → st.ready ≡ replicate nmodules false
      → said stdout (main d (handlers d double sys) st (cstr (codes "bat%") ∷ [])) ≡ some (0, ds)
  unfolding run_init run_print bat_level_print wants_usage
  main-bat_capacity n c status ds rest fd fd' st e e' clean short digits small other short' idle =
      let read =
        bat_init-charging d status ds rest c fd fd' st.world.battery clean digits.digits other short
          short' in
      let level : value 0 ds % u64_mod % 2 ^ 32 ≡ n = omega (arith, digits.spells) in
      let u64 : n < u64_mod = omega arith in
      let same : d.fmt_ulong n ≡ ds =
        IsDecimal-unique (d.fmt_ulong n) ds (d.fmt_ulong-IsDecimal n u64) digits in
      let room = fmt_into_fits d (char_array 40) n (omega (arith, length-fmt_ulong_20 d n u64)) in
      let bi : UstatBattery = record {
        level = n;
        is_charging = (charging d status st.world.battery).is_charging;
      } in
      let started : Started (World D) = record {
        rc = 1;
        world = record st.world { battery = bi };
        is_ready = true;
      } in
      main-Runs d (handlers d double sys) (handlers-Quiet d double sys) (cstr (codes "bat%")) st 12
        started ds
        (d.str_equaln-append (codes "ba") (codes "-h") (codes "t%" ++ 0 ∷ []) (0 ∷ []) 2
          (ground arith) (ground arith) refl refl)
        (record {
          selected = select_module-module_at d 11 [] (omega arith);
          named = refl;
          not_ready = rw idle (get_or-replicate nmodules 12 false);
          init_logs = [];
          starts = rw (e, e', read, level, run_init) refl;
          succeeds = refl;
          prints =
              rw (lt→ltb n (2 ^ 31) small, room, same, write-append)
                (rw (output-wrote, output-nil, append-nil) refl);
        })
