-- ===== src/Tcp/Stats/Init.antt =====
-- The counters after `_init_tcp_stats_via_proc_net_tcp` has read two files of rows.
use ustat.Base.{
  ℕ, ◌+◌, ◌%◌, ◌<◌, ◌≤◌, ◌≡◌, refl, ap, arith, get_or, u64_mod, length, List, [], ◌∷◌, ◌++◌, All,
  Lacks, Bytes, Option, none, some, true, false, ◌⊎◌, inl, inr, Option-cases, Bool-cases, lt→ltb,
}
use ustat.Io.{Fd, content}
use ustat.Tcp.Scan.Rows.{Row, print_rows}
use ustat.Tcp.Stats.Added.{IsAdded, IsState, sum_counters-IsAdded, get_or-zeros}
use ustat.Tcp.Scan.Tally.{
  states, tally-states, sockets_in-states, length-states, IsGood, tally, sockets_in,
  process_proc_tcp-sockets_in,
}
use ustat.Tcp.Scan.{Counters, process_proc_tcp}
use ustat.Tcp.Stats.Sums.{linux-IsPlatform}
use ustat.Tcp.Stats.{
  linux, sum_counters, Stats, Opened, stored, zeros, init_via_proc_net_tcp, add_v6, n_tcp_states,
  Tcp, tcp_init, Inited,
}

states-IsState : (rs : List Row) → All IsGood rs → All (IsState linux) (states rs)
states-IsState [] h = tt
states-IsState (r ∷ rs) (g, h) = (omega arith, states-IsState rs h)

module _ (rs : List Row) (to : Counters) (v : ℕ) (good : All IsGood rs) (size : length to ≡ 12)
    (lo : 1 ≤ v) (hi : v ≤ 11) where
  rows-IsAdded : IsAdded linux (states rs) to v (sum_counters linux to (tally zeros rs))
  rows-IsAdded = rw (tally-states zeros rs) (
      sum_counters-IsAdded linux (states rs) to v linux-IsPlatform (states-IsState rs good) size lo
        hi)

-- The counters of two files: for a state, and in all.
pub record Counts (s : Stats) (rs4 rs6 : List Row) (v : ℕ) : Type 0 where
  pub v4_is : get_or s.v4 v 0 ≡ sockets_in v rs4 % u64_mod
  pub v6_is : get_or s.v6 v 0 ≡ sockets_in v rs6 % u64_mod
  pub all_is : get_or s.all v 0 ≡ (sockets_in v rs4 + sockets_in v rs6) % u64_mod
  pub v4_total : get_or s.v4 0 0 ≡ length rs4 % u64_mod
  pub v6_total : get_or s.v6 0 0 ≡ length rs6 % u64_mod
  pub all_total : get_or s.all 0 0 ≡ (length rs4 + length rs6) % u64_mod

-- The code ends with no fault and with result `rc`, and `P` holds of the counters.
abbrev pub Ends : Option (Stats × ℕ) → ℕ → (Stats → Type 0) → Type 0
Ends none rc P = ⊥
Ends (some (s, r)) rc P = (r ≡ rc) × P s

pub Ends-some :
    (o : Option (Stats × ℕ)) (rc : ℕ) (P : Stats → Type 0)
    → Ends o rc P
    → (s : Stats) × (o ≡ some (s, rc)) × P s
Ends-some none rc P h = absurd h
Ends-some (some (s, r)) rc P (e, h) = (s, rw e refl, h)

pub Ends-at :
    (o : Option (Stats × ℕ)) (rc : ℕ) (P : Stats → Type 0) (s : Stats)
    → Ends o rc P
    → o ≡ some (s, rc)
    → P s
Ends-at none rc P s h e = absurd h
Ends-at (some (s', r)) rc P s (same, h) e = let t : s' ≡ s = cc in rw (← t) h

-- The contents of a file of rows.
abbrev pub IsFile : Fd → Bytes → List Row → Type 0
IsFile file header rs =
    (content file ≡ header ++ b'\n' ∷ print_rows rs []) × Lacks b'\n' header × All IsGood rs

process-IsFile :
    (file : Fd) (header : Bytes) (rs : List Row)
    → IsFile file header rs
    → stored (process_proc_tcp file 3 zeros n_tcp_states) ≡ some (tally zeros rs)
process-IsFile file header rs (whole, line, good) =
    ap stored
      (process_proc_tcp-sockets_in file header rs zeros 0 whole line good refl (omega arith)).0

pub init_via_proc_net_tcp-Counts :
    (fd4 fd6 : ℕ) (file4 file6 : Fd) (h4 h6 : Bytes) (rs4 rs6 : List Row) (s : Stats) (v : ℕ)
    → IsFile file4 h4 rs4
    → IsFile file6 h6 rs6
    → 0 < fd6
    → 1 ≤ v
    → v ≤ 11
    → Ends
        (init_via_proc_net_tcp (some (fd4, file4)) (some (fd6, file6)) s)
        1
        (λ t. Counts t rs4 rs6 v)
unfolding init_via_proc_net_tcp
init_via_proc_net_tcp-Counts fd4 fd6 file4 file6 h4 h6 rs4 rs6 s v f4 f6 opened lo hi =
    let a = rows-IsAdded rs4 zeros v f4.2 refl lo hi in
    let b = rows-IsAdded rs6 (sum_counters linux zeros (tally zeros rs4)).to v f6.2 a.size lo hi in
    let start = get_or-zeros v in
    let in4 = sockets_in-states v rs4 in
    let in6 = sockets_in-states v rs6 in
    let n4 = length-states rs4 in
    let n6 = length-states rs6 in
    rw
      (
        process-IsFile file4 h4 rs4 f4,
        init_via_proc_net_tcp,
        lt→ltb 0 fd6 opened,
        process-IsFile file6 h6 rs6 f6,
        add_v6,
      )
      (
        refl,
        record {
          v4_is = omega (arith, a.source_is);
          v6_is = omega (arith, b.source_is);
          all_is = omega (arith, a.to_is, b.to_is);
          v4_total = omega (arith, a.source_total_is);
          v6_total = omega (arith, b.source_total_is);
          all_total = omega (arith, a.to_total_is, b.to_total_is);
        },
      )

add_v6-rc : (b : Opened) (s s' : Stats) (rc : ℕ) → add_v6 b s ≡ some (s', rc) → rc ≡ 1
unfolding add_v6
add_v6-rc none s s' rc e = ground arith
add_v6-rc (some (fd, file)) s s' rc e = ground arith

init-rc :
    (a b : Opened) (s s' : Stats) (rc : ℕ)
    → init_via_proc_net_tcp a b s ≡ some (s', rc)
    → ((rc ≡ 0) × (s' ≡ s) × (a ≡ none)) ⊎ (rc ≡ 1)
unfolding init_via_proc_net_tcp
init-rc none b s s' rc e = inl (ground arith, ground arith, refl)
init-rc (some (fd, file)) b s s' rc e =
    inr (elim (Option-cases (stored (process_proc_tcp file 3 zeros n_tcp_states))) [
      | inl q ↦ let e' = rw (q, init_via_proc_net_tcp) at e in cc
      | inr (c, q) ↦ add_v6-rc b _ s' rc (rw (q, init_via_proc_net_tcp) at e)
    ])

-- `tcp_init` fails only if it has never succeeded and /proc/net/tcp cannot be opened, and then sets
-- nothing. A success makes the module ready, and every later call, whatever the files are then,
-- succeeds and keeps the counters.
pub tcp_init_once :
    (tcp4 tcp6 later4 later6 : Opened) (t : Tcp) (r : Inited)
    → tcp_init tcp4 tcp6 t ≡ some r
    → ((r.rc ≡ 0) × (r.ready ≡ false) × (r.state ≡ t) × (t.inited ≡ false) × (tcp4 ≡ none))
      ⊎ ((r.rc ≡ 1)
          × (r.ready ≡ true)
          × (tcp_init later4 later6 r.state
              ≡ some (record { state = r.state; ready = true; rc = 1 })))
unfolding tcp_init
tcp_init_once tcp4 tcp6 later4 later6 t r e = elim (Bool-cases t.inited) [
  | inl old ↦ inr (ground arith)
  | inr new ↦ elim (Option-cases (init_via_proc_net_tcp tcp4 tcp6 t.stats)) [
    | inl q ↦ let e' = rw (new, q, tcp_init) at e in cc
    | inr (p, q) ↦ elim (init-rc tcp4 tcp6 t.stats p.0 p.1 q) [
      | inl failed ↦ inl (ground arith)
      | inr done ↦ inr (ground arith)
    ]
  ]
]
