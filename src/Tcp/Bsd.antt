-- ===== src/Tcp/Bsd.antt =====
-- ustat_tcp_bsd.c: the sockets that sysctl(3) lists in a buffer of structures.
pub mod Listing
pub mod Counts
pub mod Ends
use ustat.Base.{
  ℕ, zero, suc, ◌+◌, ◌-◌, Bool, not, Bytes, Option, none, some, ltb, leb, ◌==◌, length, codes,
  if◌then◌else◌,
}
use ustat.Djb.{Djb, cstr}
use ustat.Io.{Emits, ◌>>=◌, ◌>>◌, from, return, store_all, char_array}
use ustat.Program.{os_exit}
use ustat.Tcp.Scan.{increment}
use ustat.Tcp.Stats.{Stats, bsd, sum_counters}

-- `struct xinpgen` and `struct xtcpcb` of the system: their sizes, and how a field of a structure
-- at some place of a buffer is read. A field outside of the buffer has no value.
pub record Layout : Type 0 where
  pub size_xinpgen : ℕ
  pub size_xtcpcb : ℕ
  pub xig_len : Bytes → ℕ → Option ℕ
  pub xt_len : Bytes → ℕ → Option ℕ
  pub t_state : Bytes → ℕ → Option ℕ
  -- The bits INP_IPV4 and INP_IPV6 of `inp_vflag`.
  pub has_ipv4 : Bytes → ℕ → Option Bool
  pub has_ipv6 : Bytes → ℕ → Option Bool

-- What the loop leaves: the counters and `rc`.
pub data Walked : Type 0 where
  walked : Stats → ℕ → Walked
  faults : Walked
  out_of_fuel : Walked

-- `_init_tcp_stats` ends the program with a code, or returns with the counters.
pub data Ended : Type 0 where
  exits : ℕ → Ended
  returns : Stats → ℕ → Ended

abbrev pub size_mismatch : Bytes
size_mismatch = cstr (codes "struct xinpgen size mismatch\n")

module _ (m : Layout) (buf : Bytes) where
  -- `_tcp4_counters[i]++` or `_tcp6_counters[i]++`, by the flags of the socket.
  unfoldable pub count_socket : ℕ → Stats → Option Stats
  count_socket place s = elim (m.t_state buf place) [
    | none ↦ none
    | some i ↦ elim (m.has_ipv4 buf place) [
      | none ↦ none
      | some four ↦
          if four
          then elim (increment s.v4 i) [ none ↦ none | some c ↦ some (record s { v4 = c }) ]
          else elim (m.has_ipv6 buf place) [
            | none ↦ none
            | some six ↦
                if six
                then elim (increment s.v6 i) [ none ↦ none | some c ↦ some (record s { v6 = c }) ]
                else some s
          ]
    ]
  ]

  -- The loop: `xig` is at `place`, and `end_xig` at `last`. A round takes a structure.
  unfoldable pub walk : ℕ → ℕ → ℕ → Stats → ℕ → Walked
  walk zero last place s rc = out_of_fuel
  walk (suc f) last place s rc = elim (m.xig_len buf place) [
    | none ↦ faults
    | some len ↦ if leb last (place + len) then walked s rc else elim (m.xt_len buf (place + len)) [
      | none ↦ faults
      | some xt_len ↦
          if not (xt_len == m.size_xtcpcb)
          then walked s rc
          else elim (count_socket (place + len) s) [
            | none ↦ faults
            | some s' ↦ walk f last (place + len) s' 1
          ]
    ]
  ]

-- Both sums, where something was counted.
abbrev pub sum_both : Stats → Stats
sum_both s =
    let p = sum_counters bsd s.all s.v4 in
    let q = sum_counters bsd p.to s.v6 in record { all = q.to; v4 = p.source; v6 = q.source }

abbrev pub finish : Walked → Emits Ended
finish (walked s rc) = return (if rc == 0 then returns s rc else returns (sum_both s) rc)
finish faults = from none
finish out_of_fuel = from none

-- `_init_tcp_stats`: `demanded` is the size that the first call of sysctl gives, and `listed` is
-- what the second one stores; a call may fail.
unfoldable pub init_tcp_stats : Djb → Layout → Option ℕ → Option Bytes → Stats → Emits Ended
init_tcp_stats d m none listed s = return (returns s 0)
init_tcp_stats d m (some demanded) none s = return (returns s 0)
init_tcp_stats d m (some demanded) (some bytes) s = do
  buf ← from (store_all (char_array demanded) bytes)
  let l = length bytes
  let last = l - m.size_xinpgen
  first ← from (m.xig_len buf 0)
  (if ltb l m.size_xinpgen
      then from none
      else if not (first == m.size_xinpgen)
      then (do os_exit d size_mismatch; return (exits 2))
      else (do
        end_len ← from (m.xig_len buf last)
        (if not (end_len == m.size_xinpgen)
            then (do os_exit d size_mismatch; return (exits 2))
            else finish (walk m buf (suc l) last 0 s 0))))
