-- ===== src/Tests/SeparateTests.antt =====
-- Runs of the program with several arguments.
use ustat.Base.{
  ◌%◌, ◌++◌, ℕ, false, get_or, get_or-replicate, ◌≡◌, refl, arith, [], ◌∷◌, some, codes, u64_mod,
}
use ustat.Decimal.{IsDecimal}
use ustat.Djb.{cstr}
use ustat.Fmt.Digits.{decimal}
use ustat.Io.{chunk, said, stdout}
use ustat.Program.Begin.{begin}
use ustat.Program.Failing.{main_fails}
use ustat.Program.RoundTrip.{main-proc_uptime}
use ustat.Program.Runs.{begin_all, outcome, main-outcome}
use ustat.Program.Separate.{IsAlone, main-separate}
use ustat.Program.Silence.{handlers-Quiet}
use ustat.Program.Sockets.{both, listening, established, main-asked_of}
use ustat.Program.World.{System, handlers, run_init}
use ustat.Program.{main, select_module, find_module, wants_usage, nmodules}
use ustat.Tcp.Stats.{tcp_init, init_via_proc_net_tcp}
use ustat.Tests.Instances.{djb, fractions}
use ustat.Tests.ProgramTests.{no_system, first_state}
use ustat.Tests.TcpTests.{file, whole, header, rows, rows-IsGood}

abbrev uptime_only : System
uptime_only = record no_system { proc_uptime = some (chunk (codes "4711.42 1.00\n") ∷ []) }

abbrev with_sockets : System
with_sockets = record uptime_only { tcp4 = some (3, file); tcp6 = some (4, whole) }

none_ready : (j : ℕ) → get_or first_state.ready j false ≡ false
none_ready j = get_or-replicate nmodules j false

uptime_digits : IsDecimal 4711 (codes "4711")
uptime_digits = record { digits = ground arith; lean = ground arith; spells = refl }

module _ (sys : System) (reads : sys.proc_uptime ≡ some (chunk (codes "4711.42 1.00\n") ∷ [])) where
  ut-IsAlone : IsAlone djb fractions sys first_state (cstr (codes "ut"), codes "4711")
  unfolding wants_usage
  ut-IsAlone = (
    refl,
    main-proc_uptime djb fractions sys 4711 b'.' (codes "4711") (codes "42 1.00\n") [] first_state
        reads uptime_digits (omega arith) (ground arith) (omega arith) refl,
  )

listening-IsAlone :
    IsAlone djb fractions with_sockets first_state (cstr (codes "tcp.l"), decimal (2 % u64_mod))
unfolding wants_usage
listening-IsAlone = (
  refl,
  main-asked_of djb fractions with_sockets both listening 3 4 file whole header header rows rows
      first_state refl refl (omega arith) (refl, omega arith, rows-IsGood)
      (refl, omega arith, rows-IsGood) refl refl,
)

established-IsAlone :
    IsAlone djb fractions with_sockets first_state (cstr (codes "tcp.e"), decimal (2 % u64_mod))
unfolding wants_usage
established-IsAlone = (
  refl,
  main-asked_of djb fractions with_sockets both established 3 4 file whole header header rows rows
      first_state refl refl (omega arith) (refl, omega arith, rows-IsGood)
      (refl, omega arith, rows-IsGood) refl refl,
)

-- Two modules that share a start, and one between them.
main-separate_example :
    said stdout (
      main djb
        (handlers djb fractions with_sockets)
        first_state
        (cstr (codes "tcp.l") ∷ cstr (codes "ut") ∷ cstr (codes "tcp.e") ∷ []))
    ≡ some (0, decimal (2 % u64_mod) ++ (codes "4711" ++ (decimal (2 % u64_mod) ++ [])))
main-separate_example =
    main-separate djb fractions with_sockets first_state none_ready
      ((cstr (codes "tcp.l"), decimal (2 % u64_mod))
        ∷ (cstr (codes "ut"), codes "4711")
        ∷ (cstr (codes "tcp.e"), decimal (2 % u64_mod))
        ∷ [])
      (listening-IsAlone, (ut-IsAlone with_sockets refl, (established-IsAlone, tt)))

tcp_fails :
    said stdout
      (main djb (handlers djb fractions uptime_only) first_state (cstr (codes "tcp") ∷ []))
    ≡ some (1, [])
unfolding outcome begin_all begin select_module find_module wants_usage run_init tcp_init
    init_via_proc_net_tcp
tcp_fails =
    main-outcome djb (handlers djb fractions uptime_only) (handlers-Quiet djb fractions uptime_only)
      (cstr (codes "tcp") ∷ []) first_state refl

-- /proc/net/tcp does not open.
main_fails_example :
    said stdout (
      main djb
        (handlers djb fractions uptime_only)
        first_state
        (cstr (codes "ut") ∷ cstr (codes "tcp") ∷ cstr (codes "ut") ∷ []))
    ≡ some (1, [])
unfolding wants_usage
main_fails_example =
    main_fails djb fractions uptime_only first_state none_ready
      ((cstr (codes "ut"), codes "4711") ∷ []) (cstr (codes "tcp")) [] (cstr (codes "ut") ∷ [])
      (ut-IsAlone uptime_only refl, tt) refl tcp_fails
