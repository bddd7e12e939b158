-- ===== src/Tests/RunTests.antt =====
-- Whole runs of the program, and the starts of the systems other than Linux.
use ustat.Base.{
  inr, ℕ, true, Bytes, take, drop, ◌++◌, ◌≡◌, refl, arith, false, [], ◌∷◌, some, none, codes,
}
use ustat.Fs.Mounts.Lines.{file_text}
use ustat.Fs.Mounts.{get_total_free}
use ustat.Helpers.Number.Amount.{amount, read_double_from_fd-amount}
use ustat.Helpers.{read_double_from_fd, signed}
use ustat.Load.Text.{load_text}
use ustat.Program.FileSystems.{free, main-named_entry}
use ustat.Program.Numbers.{main-count_processes, main-load_text}
use ustat.Tests.SystemTests.{mounts, table, line, home, home_IsLine, proc_IsLine}
use ustat.Decimal.{IsDecimal}
use ustat.Djb.{cstr, text}
use ustat.Fmt.Digits.{decimal}
use ustat.Fs.Other.{Statfs, fs_init_platform_other, fs_init-other}
use ustat.Fs.{fs_init, fs_result, error_no_fs_entries}
use ustat.Io.{chunk, said, stdout, stderr, wrote}
use ustat.Program.MemorySize.{free_memory, main-extent_bytes}
use ustat.Program.RoundTrip.{main-proc_uptime, main-bat_capacity}
use ustat.Program.World.{System, handlers}
use ustat.Program.{main}
use ustat.Tests.Instances.{djb, fractions}
use ustat.Tests.ProgramTests.{no_system, first_state}
use ustat.Tests.TcpTests.{file, whole}

abbrev some_system : System
some_system = record no_system {
  tcp4 = some (3, file);
  tcp6 = some (4, whole);
  proc_uptime = some (chunk (codes "4711.42 1.00\n") ∷ []);
  bat_status = some (chunk (codes "Charging\n") ∷ []);
  bat_capacity = some (chunk (codes "87\n") ∷ []);
}

uptime_digits : IsDecimal 4711 (codes "4711")
uptime_digits = record { digits = ground arith; lean = ground arith; spells = refl }

main-proc_uptime_example :
    said stdout (main djb (handlers djb fractions some_system) first_state (cstr (codes "ut") ∷ []))
    ≡ some (0, codes "4711")
main-proc_uptime_example =
    main-proc_uptime djb fractions some_system 4711 b'.' (codes "4711") (codes "42 1.00\n") []
      first_state refl uptime_digits (omega arith) (ground arith) (omega arith) refl

capacity_digits : IsDecimal 87 (codes "87")
capacity_digits = record { digits = ground arith; lean = ground arith; spells = refl }

main-bat_capacity_example :
    said stdout
      (main djb (handlers djb fractions some_system) first_state (cstr (codes "bat%") ∷ []))
    ≡ some (0, codes "87")
main-bat_capacity_example =
    main-bat_capacity djb fractions some_system 87 10 (codes "Charging\n") (codes "87") [] [] []
      first_state refl refl (ground arith) (omega arith) capacity_digits (omega arith)
      (ground arith) (omega arith) refl

abbrev root : Statfs
root = record {
  f_mntonname = text (codes "/") (0 ∷ []);
  f_bfree = 10;
  f_blocks = 20;
  f_bsize = 4096;
}

fs_init-other_example :
    (fs_init (fs_init_platform_other djb []) [] false
      ≡ some (fs_result 0 [] false, wrote stderr error_no_fs_entries ∷ []))
    × (fs_init (fs_init_platform_other djb (root ∷ [])) [] false ≡ none)
fs_init-other_example = fs_init-other djb root [] (codes "/") (0 ∷ []) (ground arith) refl

-- 16 GB, of which nothing was free when the program asked before.
abbrev with_memory : System
with_memory = record no_system {
  sysinfo = some (record { totalram = 4194304; freeram = 1048576; mem_unit = 4096 });
}

main-extent_bytes_example :
    said stdout (
      main djb
        (handlers djb fractions with_memory)
        (record first_state {
          world = record first_state.world { memory = record { mem_total = 4096; mem_free = 0 } };
        })
        (cstr (codes "memf") ∷ []))
    ≡ some (0, decimal 4294967296)
main-extent_bytes_example =
    main-extent_bytes djb fractions with_memory free_memory
      (record { totalram = 4194304; freeram = 1048576; mem_unit = 4096 })
      (record first_state {
        world = record first_state.world { memory = record { mem_total = 4096; mem_free = 0 } };
      })
      refl (omega arith) (omega arith) (inr refl) refl

-- The first reads of mountinfo give the file in two pieces.
abbrev with_mounts : System
with_mounts = record no_system {
  mounted = mounts;
  mountinfo = some (
    chunk (take 20 (file_text table)) ∷ chunk (drop 20 (file_text table)) ∷ [],
    chunk (file_text table) ∷ [],
  );
}

main-named_entry_example :
    said stdout
      (main djb (handlers djb fractions with_mounts) first_state (cstr (codes "fsf/home") ∷ []))
    ≡ some (0, decimal 1024000)
unfolding get_total_free
main-named_entry_example =
    main-named_entry djb fractions with_mounts free (codes "/home") (line b'/' (codes "proc") ∷ [])
      (line b'/' (codes "home"))
      (chunk (take 20 (file_text table)) ∷ chunk (drop 20 (file_text table)) ∷ []) [] home []
      first_state (ground arith) refl (omega arith) refl (home_IsLine, (proc_IsLine, tt)) tt refl
      refl refl refl

abbrev loaded : System
loaded = record no_system {
  loads = some (6554, 3277, 13107);
  proc = some (codes "1" ∷ codes "self" ∷ codes "42" ∷ []);
}

main-count_processes_example :
    said stdout (main djb (handlers djb fractions loaded) first_state (cstr (codes "nproc") ∷ []))
    ≡ some (0, decimal 2)
main-count_processes_example =
    main-count_processes djb fractions loaded (codes "1" ∷ codes "self" ∷ codes "42" ∷ [])
      first_state refl (omega arith) refl

main-load_text_example :
    let text : ℕ → Bytes = λ n. load_text djb fractions stdout n 65536 in
    said stdout (main djb (handlers djb fractions loaded) first_state (cstr (codes "load") ∷ []))
    ≡ some (0, text 6554 ++ codes " " ++ (text 3277 ++ codes " " ++ text 13107))
main-load_text_example =
    main-load_text djb fractions loaded 6554 3277 13107 first_state refl (omega arith) (omega arith)
      (omega arith) (omega arith) (omega arith) refl

-- Read in two pieces, with a blank in front.
read_double_from_fd-amount_example :
    read_double_from_fd fractions 10 (chunk (codes " -3") ∷ chunk (codes ".25\n") ∷ [])
    ≡ some (signed fractions true (amount fractions (codes "3") (codes "25")) 7)
read_double_from_fd-amount_example =
    read_double_from_fd-amount fractions (codes " ") (codes "3") (codes "25") [] 10 10 true
      (chunk (codes " -3") ∷ chunk (codes ".25\n") ∷ []) (ground arith) (ground arith)
      (ground arith) (ground arith) refl (omega arith) (omega arith)
