-- ===== src/Tcp/Stats.antt =====
-- The counters of ustat_tcp.c, and how ustat_tcp_linux.c fills them from /proc/net.
pub mod Sums
pub mod Added
pub mod Init
use ustat.Base.{
  ℕ, zero, suc, ◌+◌, ◌-◌, ◌%◌, Bool, true, false, [], ◌∷◌, ◌≡◌, refl, Option, none, some, get_or,
  set, u64_mod, length, replicate, if◌then◌else◌, ltb, codes, ◌==◌,
}
use ustat.Io.{Fd, chunk, content, sys_read}
use ustat.Tcp.Reader.{read_byte}
use ustat.Tcp.Scan.{Counters, Outcome, returns, faults, out_of_fuel, process_proc_tcp}

-- The constants that an operating system gives.
pub record Platform : Type 0 where
  pub established : ℕ
  pub listen : ℕ
  pub closing : ℕ
  pub state_first : ℕ
  pub state_last : ℕ
  pub index_total : ℕ

abbrev pub linux : Platform
linux = record {
  established = 1;
  listen = 10;
  closing = 11;
  state_first = 1;
  state_last = 11;
  index_total = 0;
}

-- `TCPS_ESTABLISHED` and the others of <netinet/tcp_fsm.h>.
abbrev pub bsd : Platform
bsd = record {
  established = 4;
  listen = 1;
  closing = 7;
  state_first = 0;
  state_last = 10;
  index_total = 10 + 1;
}

abbrev pub n_tcp_states : ℕ
n_tcp_states = 12

-- `_tcp_counters`, `_tcp4_counters` and `_tcp6_counters`.
pub record Stats : Type 0 where
  pub all : Counters
  pub v4 : Counters
  pub v6 : Counters

-- `c[i] += n`
abbrev pub add_at : Counters → ℕ → ℕ → Counters
add_at c i n = set c i ((get_or c i 0 + n) % u64_mod)

-- Two arrays, `to` and `from`.
pub record Pair : Type 0 where
  pub to : Counters
  pub source : Counters

-- The loop of `_sum_counters`, by the rounds that are left.
sum_loop : ℕ → ℕ → ℕ → Pair → Pair
sum_loop total zero i p = p
sum_loop total (suc n) i p =
    let source = add_at p.source total (get_or p.source i 0) in
    sum_loop total n (suc i) (record { to = add_at p.to i (get_or source i 0); source = source })

pub sum_counters : Platform → Counters → Counters → Pair
unfolding sum_loop
sum_counters m to source =
    let p =
      sum_loop m.index_total (m.state_last + 1 - m.state_first) m.state_first
        (record { to = to; source = source }) in
    record p { to = add_at p.to m.index_total (get_or p.source m.index_total 0) }

-- What open(2) gives: a descriptor and the file behind it, or -1.
abbrev pub Opened : Type 0
Opened = Option (ℕ × Fd)

-- What `_process_proc_tcp` leaves in `store`; its result is not read.
abbrev pub stored : Outcome → Option Counters
stored (returns rc store) = some store
stored faults = none
stored out_of_fuel = none

abbrev pub zeros : Counters
zeros = replicate n_tcp_states 0

-- The part for IPv6, which is left out if there is no such file.
add_v6 : Opened → Stats → Option (Stats × ℕ)
add_v6 none s = some (s, 1)
add_v6 (some (fd, file)) s =
    if ltb 0 fd
    then elim (stored (process_proc_tcp file 3 s.v6 n_tcp_states)) [
      | none ↦ none
      | some v6 ↦
          let p = sum_counters linux s.all v6 in some (record s { all = p.to; v6 = p.source }, 1)
    ]
    else some (s, 1)

-- `_init_tcp_stats_via_proc_net_tcp()`: the counters, and the result; `none` is a fault.
unfoldable pub init_via_proc_net_tcp : Opened → Opened → Stats → Option (Stats × ℕ)
unfolding add_v6
init_via_proc_net_tcp none tcp6 s = some (s, 0)
init_via_proc_net_tcp (some (fd, file)) tcp6 s =
    elim (stored (process_proc_tcp file 3 zeros n_tcp_states)) [
      | none ↦ none
      | some v4 ↦
          let p = sum_counters linux zeros v4 in
          add_v6 tcp6 (record { all = p.to; v4 = p.source; v6 = zeros })
    ]

-- The static variables of the file, with `inited` of `tcp_init`.
pub record Tcp : Type 0 where
  pub inited : Bool
  pub stats : Stats

-- What an initialiser does: the state behind it, whether it set `m->ready`, and its result.
pub record Inited : Type 0 where
  pub state : Tcp
  pub ready : Bool
  pub rc : ℕ

-- `tcp_init(m)`
unfoldable pub tcp_init : Opened → Opened → Tcp → Option Inited
tcp_init tcp4 tcp6 t =
    if t.inited
    then some (record { state = t; ready = true; rc = 1 })
    else elim (init_via_proc_net_tcp tcp4 tcp6 t.stats) [
      | none ↦ none
      | some (s, rc) ↦
          if rc == 0
          then some (record { state = record t { stats = s }; ready = false; rc = 0 })
          else some (record { state = record { inited = true; stats = s }; ready = true; rc = 1 })
    ]
