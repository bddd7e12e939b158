-- ===== src/Tcp/Bsd/Counts.antt =====
-- `_init_tcp_stats` of BSD, on the buffer that sysctl(3) stores.
use ustat.Base.{
  ℕ, suc, ◌+◌, ◌-◌, ◌<◌, ◌≤◌, ◌≡◌, refl, arith, inl, inr, true, Bytes, List, [], ◌∷◌, ◌++◌, All,
  some, ◌==◌, length, drop, length-replicate, le→ltb, ==_iff, Bool-cases,
}
use ustat.Djb.{Djb}
use ustat.Io.{return, char_array, store_all_in}
use ustat.Tcp.Bsd.Listing.{
  Socket, ipv4_states, ipv6_states, any, counted, Lists, Lists-room, walk-Lists,
}
use ustat.Tcp.Bsd.{Layout, walked, returns, sum_both, finish, init_tcp_stats}
use ustat.Tcp.Stats.Added.{IsState, FamilyCounts, FamilyCounts-sums, fresh, fresh-FamilyCounts}
use ustat.Tcp.Stats.Sums.{bsd-IsPlatform}
use ustat.Tcp.Stats.{Stats, bsd}

-- What sysctl stored fits the size that it had demanded, begins and ends with a `struct xinpgen`,
-- and lists the sockets between them.
pub record IsListing (m : Layout) (demanded : ℕ) (bytes : Bytes) (ks : List Socket) : Type 0 where
  pub fits : length bytes ≤ demanded
  pub room : m.size_xinpgen ≤ length bytes
  pub first_is :
      m.xig_len (bytes ++ drop (length bytes) (char_array demanded)) 0 ≡ some m.size_xinpgen
  pub last_is :
      m.xig_len (bytes ++ drop (length bytes) (char_array demanded)) (length bytes - m.size_xinpgen)
      ≡ some m.size_xinpgen
  pub sockets_are :
      Lists m
        (bytes ++ drop (length bytes) (char_array demanded))
        (length bytes - m.size_xinpgen)
        m.size_xinpgen
        ks

ipv4_states-IsState :
    (ks : List Socket) → All (λ k. k.state ≤ 10) ks → All (IsState bsd) (ipv4_states ks)
ipv4_states-IsState [] h = tt
ipv4_states-IsState (k ∷ ks) (g, h) = elim (Bool-cases k.four) [
  | inl e ↦ rw e (omega arith, ipv4_states-IsState ks h)
  | inr e ↦ rw e (ipv4_states-IsState ks h)
]

ipv6_states-IsState :
    (ks : List Socket) → All (λ k. k.state ≤ 10) ks → All (IsState bsd) (ipv6_states ks)
ipv6_states-IsState [] h = tt
ipv6_states-IsState (k ∷ ks) (g, h) = elim (Bool-cases k.four) [
  | inl e ↦ rw e (ipv6_states-IsState ks h)
  | inr e ↦ elim (Bool-cases k.six) [
    | inl e' ↦ rw (e, e') (omega arith, ipv6_states-IsState ks h)
    | inr e' ↦ rw (e, e') (ipv6_states-IsState ks h)
  ]
]

small-states : (ks : List Socket) → All (λ k. k.state ≤ 10) ks → All (λ k. k.state < 12) ks
small-states [] h = tt
small-states (k ∷ ks) (g, h) = (omega arith, small-states ks h)

finish-Counts :
    (ks : List Socket) (v : ℕ)
    → All (λ k. k.state ≤ 10) ks
    → v ≤ 10
    → (t : Stats) × (finish (walked (counted fresh ks) (any ks 0)) ≡ return (returns t (any ks 0)))
      × FamilyCounts bsd t (ipv4_states ks) (ipv6_states ks) v
finish-Counts [] v small hi = (fresh, refl, fresh-FamilyCounts bsd v)
finish-Counts (k ∷ ks) v small hi = (
  sum_both (counted fresh (k ∷ ks)),
  refl,
  FamilyCounts-sums bsd (ipv4_states (k ∷ ks)) (ipv6_states (k ∷ ks)) v bsd-IsPlatform
      (ipv4_states-IsState (k ∷ ks) small) (ipv6_states-IsState (k ∷ ks) small) (omega arith) hi,
)

-- From counters that are zero, on a buffer that sysctl fills with a list of sockets in the states
-- from 0 to 10: `_init_tcp_stats` returns, with 1 if there is a socket and 0 if there is none, and
-- each state of each family, and of both, has the number of its sockets; the totals are the numbers
-- of all sockets, modulo 2 ^ 64. A structure of another size ends the list. A socket with both
-- flags counts for IPv4, and one with none for neither.
pub init_tcp_stats-Counts :
    (d : Djb) (m : Layout) (demanded : ℕ) (bytes : Bytes) (ks : List Socket) (v : ℕ)
    → 0 < m.size_xtcpcb
    → IsListing m demanded bytes ks
    → All (λ k. k.state ≤ 10) ks
    → v ≤ 10
    → (t : Stats) × (init_tcp_stats d m (some demanded) (some bytes) fresh
        ≡ return (returns t (any ks 0)))
      × FamilyCounts bsd t (ipv4_states ks) (ipv6_states ks) v
unfolding init_tcp_stats
init_tcp_stats-Counts d m demanded bytes ks v pos h small hi =
    let buf = bytes ++ drop (length bytes) (char_array demanded) in
    let last = length bytes - m.size_xinpgen in
    let (t, e, c) = finish-Counts ks v small hi in
    let same : (m.size_xinpgen == m.size_xinpgen) ≡ true =
      (==_iff m.size_xinpgen m.size_xinpgen).1 refl in
    let room : length ks < suc (length bytes) =
      elim (Lists-room m buf last m.size_xinpgen ks pos h.sockets_are) [
        | inl e ↦ omega arith
        | inr e ↦ omega (arith, h.room)
      ] in
    let start : 0 + m.size_xinpgen ≡ m.size_xinpgen = omega arith in
    let loop =
      walk-Lists m buf (suc (length bytes)) last 0 m.size_xinpgen 0 fresh ks h.first_is
        (rw start h.sockets_are) room refl refl (small-states ks small) in
    (
      t,
      rw
          (
            store_all_in (char_array demanded) bytes
                (omega (arith, length-replicate {A = ℕ} demanded 0, h.fits)),
            h.first_is,
            le→ltb (length bytes) m.size_xinpgen h.room,
            same,
            h.last_is,
            same,
            loop,
            init_tcp_stats,
          )
          e,
      c,
    )
