-- ===== src/Tests/TcpTests.antt =====
-- The theorems about the sockets, on a file of two rows that two reads cut in a field.
use ustat.Base.{
  ℕ, ◌<◌, Bytes, List, [], ◌∷◌, ◌++◌, none, some, ◌⊎◌, ◌≡◌, ◌≢◌, refl, arith, true, false, codes,
  All,
}
use ustat.Fmt.Digits.{decimal}
use ustat.Io.{Fd, chunk, fails, wrote}
use ustat.Tcp.Print.{ntcp_print, ntcp_print-cells, cells}
use ustat.Tcp.Scan.Rows.{Row, Run, IsRow, print_row, print_rows}
use ustat.Tcp.Scan.Stream.{process_proc_tcp-content}
use ustat.Tcp.Scan.Tally.{IsGood, tally}
use ustat.Base.{replicate, set}
use ustat.Hex.{scan_hex}
use ustat.Io.{sys_read}
use ustat.Tcp.Reader.{read_byte}
use ustat.Tcp.Scan.{increment, Counters, returns, out_of_fuel, process_proc_tcp}
use ustat.Tcp.Stats.Init.{tcp_init_once}
use ustat.Tcp.Stats.{Stats, Opened, Tcp, Inited, bsd, zeros, init_via_proc_net_tcp, tcp_init}

abbrev run : ℕ → Bytes → Run
run h t = record { head = h; tail = t }

abbrev blank : Run
blank = run b' ' []

abbrev row : ℕ → Row
row v = record {
  pad = codes "   ";
  number = run b'0' (codes ":");
  gap0 = blank;
  local = run b'0' (codes "100007F:0277");
  gap1 = blank;
  remote = run b'0' (codes "0000000:0000");
  gap2 = run b' ' (codes " ");
  state = v;
  others = codes " 00000000:00000000";
}

abbrev pub rows : List Row
rows = row 10 ∷ row 1 ∷ []

abbrev pub header : Bytes
header = codes "  sl  local_address"

abbrev text : Bytes
text = header ++ b'\n' ∷ print_rows rows []

abbrev pub file : Fd
file = chunk header ∷ chunk (b'\n' ∷ print_rows rows []) ∷ []

abbrev pub whole : Fd
whole = chunk text ∷ fails ∷ []

abbrev bad_file : Fd
bad_file = chunk (header ++ b'\n' ∷ print_rows rows (print_row (row 12) [])) ∷ []

row-IsRow : (v : ℕ) → v < 256 → IsRow (row v)
row-IsRow v h = record {
  pad_blank = ground arith;
  number_word = ground arith;
  gap0_blank = ground arith;
  local_word = ground arith;
  gap1_blank = ground arith;
  remote_word = ground arith;
  gap2_blank = ground arith;
  state_byte = h;
  one_line = omega arith;
}

pub rows-IsGood : All IsGood rows
rows-IsGood =
    ((row-IsRow 10 (omega arith), omega arith), ((row-IsRow 1 (omega arith), omega arith), tt))

process_proc_tcp-content_example :
    (process_proc_tcp file 3 zeros 12 ≡ process_proc_tcp whole 3 zeros 12)
    × (process_proc_tcp file 3 zeros 12 ≢ out_of_fuel)
process_proc_tcp-content_example = process_proc_tcp-content file whole 3 zeros 12 refl

abbrev counters : Counters
counters = tally zeros rows

abbrev fresh : Stats
fresh = record { all = zeros; v4 = zeros; v6 = zeros }

abbrev unset : Tcp
unset = record { inited = false; stats = fresh }

abbrev missing : Opened
missing = none

abbrev failed : Inited
failed = record { state = unset; ready = false; rc = 0 }

missing_fails : tcp_init missing (some (4, file)) unset ≡ some failed
unfolding tcp_init init_via_proc_net_tcp
missing_fails = refl

tcp_init_once_example :
    ((failed.rc ≡ 0)
      × (failed.ready ≡ false)
      × (failed.state ≡ unset)
      × (unset.inited ≡ false)
      × (missing ≡ none))
    ⊎ ((failed.rc ≡ 1)
        × (failed.ready ≡ true)
        × (tcp_init (some (3, file)) missing failed.state
            ≡ some (record { state = failed.state; ready = true; rc = 1 })))
tcp_init_once_example =
    tcp_init_once missing (some (4, file)) (some (3, file)) missing unset failed missing_fails

ntcp_print-cells_example :
    ntcp_print bsd fresh 1
    ≡ some (1, wrote 1 (decimal 11) ∷ wrote 1 (codes ":") ∷ cells fresh 1 12 0)
ntcp_print-cells_example = ntcp_print-cells bsd fresh 1

-- A file of two rows.
abbrev sample : Bytes
sample =
    codes
      "  sl  local rem st\n   0: 0100007F:0277 00000000:0000 0A 00\n   1: 0100007F:0277 0200007F:1000 01 00\n"

process_proc_tcp_run :
    process_proc_tcp (chunk sample ∷ []) 3 (replicate 12 0) 12
    ≡ returns 1 (set (set (replicate 12 0) 10 1) 1 1)
unfolding process_proc_tcp scan_hex increment read_byte sys_read
process_proc_tcp_run = refl
