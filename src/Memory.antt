-- ===== src/Memory.antt =====
-- ustat_mem.c, with the platform parts ustat_mem_linux.c, ustat_mem_bsd.c and ustat_mem_osx.c.
pub mod Pages
use ustat.Base.{ℕ, ◌+◌, ◌*◌, ◌%◌, Bool, true, ◌&&◌, Option, none, some, ltb, if◌then◌else◌, u64_mod}
use ustat.Djb.{Djb}
use ustat.Double.{Double, write_double}
use ustat.Fmt.{fmt_uint64}
use ustat.Human.{write_uint64_human}
use ustat.Io.{Emits, ◌>>=◌, ◌>>◌, from, write, return, char_array}
use ustat.Uptime.{fmt_ulong_size}

-- `_mem_total` and `_mem_free`
pub record Memory : Type 0 where
  pub mem_total : ℕ
  pub mem_free : ℕ

-- What `sysinfo` gives.
pub record Sysinfo : Type 0 where
  pub totalram : ℕ
  pub freeram : ℕ
  pub mem_unit : ℕ

-- `_get_total_free` for Linux
unfoldable pub get_total_free : Option Sysinfo → Memory → Memory
get_total_free none m = m
get_total_free (some si) m = record {
  mem_total = si.totalram * si.mem_unit % u64_mod;
  mem_free = si.freeram * si.mem_unit % u64_mod;
}

-- `_get_total_free` for BSD: the pages, the size of one, and the free pages, where the calls succeed
unfoldable pub get_total_free_bsd : Option ℕ → Option ℕ → Option ℕ → Memory → Memory
get_total_free_bsd (some total) (some ps) (some t_free) m = record {
  mem_total = total * ps % u64_mod;
  mem_free = t_free * ps % u64_mod;
}
get_total_free_bsd _ _ _ m = m

-- What `host_statistics64` gives on macOS, in pages.
pub record VmStatistics : Type 0 where
  pub free_count : ℕ
  pub active_count : ℕ
  pub inactive_count : ℕ
  pub wire_count : ℕ

-- `_get_total_free` for macOS: the statistics, where the call succeeds, and the size of a page as an
-- unsigned number.
unfoldable pub get_total_free_osx : Option VmStatistics → ℕ → Memory → Memory
get_total_free_osx none ps m = m
get_total_free_osx (some vm) ps m = record {
  mem_total =
      (vm.free_count + vm.active_count + vm.inactive_count + vm.wire_count)
      % u64_mod
      * ps
      % u64_mod;
  mem_free = vm.free_count * ps % u64_mod;
}

-- `mem_init`, with what `_get_total_free` does, and `m->ready`; it returns 1 always.
unfoldable pub mem_init : (Memory → Memory) → Memory → Bool → Memory × Bool
mem_init platform m ready =
    if ltb 0 m.mem_total && ltb 0 m.mem_free then (m, ready) else (platform m, true)

module _ (d : Djb) {D : Type 0} (f : Double D) (fd : ℕ) (m : Memory) where
  mem_print : ℕ → Emits ℕ
  mem_print val = do
    (buf, n) ← from (fmt_uint64 (char_array fmt_ulong_size) val)
    write fd buf n
    return 1

  unfoldable pub mem_total_print : Emits ℕ
  unfolding mem_print
  mem_total_print = mem_print m.mem_total

  unfoldable pub mem_free_print : Emits ℕ
  unfolding mem_print
  mem_free_print = mem_print m.mem_free

  unfoldable pub mem_total_human_print : Emits ℕ
  mem_total_human_print = write_uint64_human d f fd 1 m.mem_total

  unfoldable pub mem_free_human_print : Emits ℕ
  mem_free_human_print = write_uint64_human d f fd 1 m.mem_free

  unfoldable pub mem_ratio_print : Emits ℕ
  mem_ratio_print = write_double d f fd (f.div (f.of_u64 m.mem_free) (f.of_u64 m.mem_total)) 2
