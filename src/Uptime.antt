-- ===== src/Uptime.antt =====
-- ustat_uptime.c, ustat_uptime_linux.c and ustat_uptime_bsd.c.
pub mod Units
pub mod File
use ustat.Base.{
  ℕ, ◌+◌, ◌-◌, ◌/◌, ◌%◌, Bool, true, Bytes, Option, none, some, leb, ltb, ◌&&◌, ◌^◌, if◌then◌else◌,
  codes, u64_mod, length, pos, negsuc,
}
use ustat.Djb.{Djb}
use ustat.Fmt.{write_uint64}
use ustat.Io.{Emits, ◌>>=◌, ◌>>◌, puts, return, store, store_all, char_array, Fd, sys_read}

-- `FMT_ULONG` of djb/fmt.h
abbrev pub fmt_ulong_size : ℕ
fmt_ulong_size = 40

-- `n = read(fd, buf, sizeof(buf)); buf[n] = 0x0;`: the buffer, or a fault where `buf[n]` is outside
-- of it. A failing read gives -1, which as a `size_t` is outside as well.
unfoldable pub read_text : Bytes → Fd → Option Bytes
read_text buf fd =
    let g = sys_read (length buf) fd in
    elim g.ret [
      | pos n ↦ elim (store_all buf g.bytes) [ none ↦ none | some buf' ↦ store buf' n 0 ]
      | negsuc n ↦ none
    ]

-- `_get_boottime` for Linux: the file, if it opens, and `_uptime` before it. `none` is a fault.
unfoldable pub get_boottime : Djb → Option Fd → ℕ → Option ℕ
get_boottime d none uptime = some uptime
get_boottime d (some fd) uptime = elim (read_text (char_array fmt_ulong_size) fd) [
  | none ↦ none
  | some buf ↦ some (d.scan_ulong buf).result
]

-- `_get_boottime` for BSD: `sysctl` gives the time of the boot or fails, and `now` is the time.
unfoldable pub get_boottime_bsd : Option ℕ → ℕ → ℕ → ℕ
get_boottime_bsd none now uptime = uptime
get_boottime_bsd (some boot) now uptime = (now + u64_mod - boot) % u64_mod

-- `uptime_init`: `_uptime`, and that the module is ready.
unfoldable pub uptime_init : Djb → Option Fd → ℕ → Option (ℕ × Bool)
uptime_init d file uptime = elim (get_boottime d file uptime) [
  | none ↦ none
  | some ut ↦ some (ut, true)
]

-- `uptime_print`
unfoldable pub uptime_print : ℕ → ℕ → Emits ℕ
uptime_print fd uptime = do write_uint64 fd uptime; return 1

-- `ut >= size` of an `int64_t`, which is held by its bits and negative from 2 ^ 63 on.
abbrev pub at_least : ℕ → ℕ → Bool
at_least size ut = leb size ut && ltb ut (2 ^ 63)

-- One unit of `uptime_print_human`: what is left of `ut`.
unfoldable pub unit_print : ℕ → ℕ → Bytes → ℕ → Emits ℕ
unit_print fd size name ut =
    if at_least size ut
    then (do write_uint64 fd (ut / size); puts fd name; return (ut % size))
    else return ut

-- `uptime_print_human`
unfoldable pub uptime_print_human : ℕ → ℕ → Emits ℕ
uptime_print_human fd uptime = do
  ut ← unit_print fd 86400 (codes "d") uptime
  ut' ← unit_print fd 3600 (codes "h") ut
  ut'' ← unit_print fd 60 (codes "m") ut'
  write_uint64 fd ut''
  puts fd (codes "s")
  return 1
