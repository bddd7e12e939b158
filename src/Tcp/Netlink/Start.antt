-- ===== src/Tcp/Netlink/Start.antt =====
-- `_init_tcp_stats` of Linux: the dumps of netlink, or /proc/net/tcp where netlink fails.
use ustat.Base.{
  append-nil, ◌⊎◌, inl, inr, append-nil, ◌⊎◌, inl, inr, ℕ, ◌+◌, ◌<◌, ◌≤◌, ◌≡◌, ◌≢◌, refl, arith,
  true, false, Bytes, List, [], ◌∷◌, ◌++◌, All, Option, length,
}
use ustat.Io.{return, char_array}
use ustat.Tcp.Netlink.Dump.{
  Dump, Ending, no_more, is_over, is_error, answered, behind, count_tcp_states-Dump,
}
use ustat.Tcp.Netlink.{
  Netlink, Kernel, returns, request_tcp_diag, af_inet, af_inet6, count_tcp_states, add_v6, sum_v6,
  init_via_netlink, init_tcp_stats,
}
use ustat.Tcp.Scan.{Counters}
use ustat.Tcp.Count.{tally_states}
use ustat.Tcp.Stats.Added.{IsState, FamilyCounts, FamilyCounts-sums, fresh, summed}
use ustat.Tcp.Stats.Sums.{linux-IsPlatform}
use ustat.Tcp.Stats.{Stats, Opened, linux, sum_counters, zeros}

linux-IsState : (ss : List ℕ) → All (λ s. s < 12) ss → All (IsState linux) ss
linux-IsState [] h = tt
linux-IsState (s ∷ ss) (g, h) = (omega arith, linux-IsState ss h)

module _ (nl : Netlink) (k : Kernel) where
  sum_v6-answered :
      (ds : List (Option Bytes)) (buf : Bytes) (s : Stats) (i : ℕ) (c : Counters) (e : Ending)
      (rest : List (Option Bytes)) (buf' : Bytes)
      → e ≢ no_more
      → count_tcp_states nl ds buf 0 s.v6 ≡ answered e i c rest buf'
      → add_v6 nl k ds buf s ≡ return (sum_v6 nl k s c)
  unfolding add_v6
  sum_v6-answered ds buf s i c no_more rest buf' ends h = absurd (ends refl)
  sum_v6-answered ds buf s i c is_over rest buf' ends h = rw (h, add_v6) refl
  sum_v6-answered ds buf s i c is_error rest buf' ends h = rw (h, add_v6) refl

  -- From counters that are zero, where the kernel takes both requests and answers with a whole dump
  -- of IPv4, and then one of IPv6 that may end with an error: `_init_tcp_stats` returns 1 and never
  -- looks at /proc, each state of each family, and of both, has the number of its sockets, and the
  -- totals are the numbers of all sockets, modulo 2 ^ 64.
  pub init_tcp_stats-dumps :
      (tcp4 tcp6 : Opened) (ds4 ds6 rest : List (Option Bytes)) (ss4 ss6 : List ℕ) (e : Ending)
      (v : ℕ)
      → k.has_socket ≡ true
      → request_tcp_diag k.sendmsg af_inet ≡ true
      → request_tcp_diag k.sendmsg af_inet6 ≡ true
      → k.answers ≡ ds4 ++ (ds6 ++ rest)
      → Dump nl (char_array 4096) ds4 ss4 is_over
      → Dump nl (behind nl (char_array 4096) ds4) ds6 ss6 e
      → e ≢ no_more
      → All (λ s. s < 12) ss4
      → All (λ s. s < 12) ss6
      → 1 ≤ v
      → v ≤ 11
      → (t : Stats) × (init_tcp_stats nl k false tcp4 tcp6 fresh ≡ return (returns t 1))
        × FamilyCounts linux t ss4 ss6 v
  unfolding init_tcp_stats init_via_netlink
  init_tcp_stats-dumps tcp4 tcp6 ds4 ds6 rest ss4 ss6 e v socket sent sent6 all dump4 dump6 ends
        small4 small6 lo hi =
      let four =
        count_tcp_states-Dump nl (ds6 ++ rest) ds4 (char_array 4096) ss4 is_over 0 zeros dump4
          small4 refl in
      let buf = behind nl (char_array 4096) ds4 in
      let p = sum_counters linux zeros (tally_states zeros ss4) in
      let s : Stats = record { all = p.to; v4 = p.source; v6 = zeros } in
      let six = count_tcp_states-Dump nl rest ds6 buf ss6 e 0 zeros dump6 small6 refl in
      let both =
        sum_v6-answered (ds6 ++ rest) buf s (0 + length ss6) (tally_states zeros ss6) e rest
          (behind nl buf ds6) ends six in
      (
        summed linux ss4 ss6,
        rw (socket, sent, all, four, sent6, both) refl,
        FamilyCounts-sums linux ss4 ss6 v linux-IsPlatform (linux-IsState ss4 small4)
            (linux-IsState ss6 small6) lo hi,
      )

  -- Netlink gives nothing: there is no socket, or the request of IPv4 is refused, or its dump ends
  -- with an error behind some sockets.
  abbrev pub Fails : Type 0
  Fails =
      (k.has_socket ≡ false)
      ⊎ ((k.has_socket ≡ true) × (request_tcp_diag k.sendmsg af_inet ≡ false))
      ⊎ ((ds : List (Option Bytes)) × (rest : List (Option Bytes)) × (ss : List ℕ) × (k.has_socket
            ≡ true)
          × (request_tcp_diag k.sendmsg af_inet ≡ true)
          × (k.answers ≡ ds ++ rest)
          × Dump nl (char_array 4096) ds ss is_error
          × All (λ s. s < 12) ss)
