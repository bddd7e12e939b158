-- ===== src/Tests/SocketTests.antt =====
-- The theorems about the sockets of sysctl(3) and of netlink, on small layouts of their structures.
use ustat.Base.{
  ◌++◌, none, ◌-◌, ◌<◌, ◌&&◌, inr, ℤ, pos, negsuc, get_or, leb, ℕ, ◌+◌, ◌/◌, ◌%◌, ◌≡◌, ◌≢◌, refl,
  arith, Bool, true, false, Bytes, List, [], ◌∷◌, Option, none, some, ◌==◌, get_elem?, inl,
}
use ustat.Io.{char_array, return}
use ustat.Tests.Instances.{djb}
use ustat.Tcp.Bsd.Counts.{IsListing, init_tcp_stats-Counts}
use ustat.Tcp.Bsd.Ends.{walk_enough}
use ustat.Tcp.Bsd.Listing.{Socket}
use ustat.Tcp.Bsd.{Layout, walk, out_of_fuel}
use ustat.Tcp.Bsd
use ustat.Tcp.Netlink.Dump.{Dump, no_more, is_over, behind}
use ustat.Tcp.Netlink.{Netlink, Kernel, room, count_tcp_states, waiting, request_tcp_diag}
use ustat.Tcp.Netlink
use ustat.Tcp.Netlink.Start.{init_tcp_stats-dumps}
use ustat.Tcp.Netlink.Waits.{count_tcp_states-Lost}
use ustat.Tcp.Stats.Init.{Counts}
use ustat.Tcp.Stats.Added.{FamilyCounts, fresh}
use ustat.Tcp.Stats.{Stats, bsd, linux, zeros}

-- The bit of a field.
abbrev bit : ℕ → Option ℕ → Option Bool
bit n none = none
bit n (some flags) = some (flags / n % 2 == 1)

-- Both structures have four bytes: the size, the state, and the flags.
abbrev layout : Layout
layout = record {
  size_xinpgen = 4;
  size_xtcpcb = 4;
  xig_len = λ b p. get_elem? b p;
  xt_len = λ b p. get_elem? b p;
  t_state = λ b p. get_elem? b (p + 1);
  has_ipv4 = λ b p. bit 1 (get_elem? b (p + 2));
  has_ipv6 = λ b p. bit 2 (get_elem? b (p + 2));
}

abbrev listing : Bytes
listing = 4 ∷ 0 ∷ 0 ∷ 0 ∷ 4 ∷ 4 ∷ 1 ∷ 0 ∷ 4 ∷ 1 ∷ 2 ∷ 0 ∷ 4 ∷ 4 ∷ 3 ∷ 0 ∷ 4 ∷ 0 ∷ 0 ∷ 0 ∷ []

abbrev sockets : List Socket
sockets =
    record { state = 4; four = true; six = false }
    ∷ record { state = 1; four = false; six = true }
    ∷ record { state = 4; four = true; six = true }
    ∷ []

listing-IsListing : IsListing layout 24 listing sockets
listing-IsListing = record {
  fits = omega arith;
  room = omega arith;
  first_is = refl;
  last_is = refl;
  sockets_are = (
    omega arith,
    record { xt_len_is = refl; xig_len_is = refl; state_is = refl; four_is = refl; six_is = refl },
    (
      omega arith,
      record {
        xt_len_is = refl;
        xig_len_is = refl;
        state_is = refl;
        four_is = refl;
        six_is = refl;
      },
      (
        omega arith,
        record {
          xt_len_is = refl;
          xig_len_is = refl;
          state_is = refl;
          four_is = refl;
          six_is = refl;
        },
        inl (omega arith),
      ),
    ),
  );
}

init_tcp_stats-Counts_example :
    (t : Stats) × (Bsd.init_tcp_stats djb layout (some 24) (some listing) fresh
      ≡ return (Bsd.returns t 1))
    × FamilyCounts bsd t (4 ∷ 4 ∷ []) (1 ∷ []) 4
init_tcp_stats-Counts_example =
    init_tcp_stats-Counts djb layout 24 listing sockets 4 (omega arith) listing-IsListing
      (omega arith) (omega arith)

walk_enough_example : walk layout listing 21 16 0 fresh 0 ≢ out_of_fuel
walk_enough_example =
    walk_enough layout listing 20 fresh (λ p. refl) (omega arith) (omega arith) refl

-- A message has four bytes: its length, its type, and the state.
abbrev is_ok : Bytes → ℕ → ℤ → Bool
is_ok b p (negsuc n) = false
is_ok b p (pos n) = leb 4 n && (leb 4 (get_or b p 0) && leb (get_or b p 0) n)

abbrev next : Bytes → ℕ → ℤ → ℕ × ℤ
next b p (negsuc n) = (p, negsuc n)
next b p (pos n) = (p + get_or b p 0, pos (n - get_or b p 0))

next-less : (b : Bytes) (p : ℕ) (n : ℤ) → is_ok b p n ≡ true → room (next b p n).1 < room n
next-less b p (negsuc n) h = ground arith
next-less b p (pos n) h = ground arith

abbrev netlink : Netlink
netlink = record {
  nlmsg_done = 3;
  nlmsg_error = 2;
  nlmsg_ok = is_ok;
  nlmsg_type = λ b p. get_or b (p + 1) 0;
  idiag_state = λ b p. get_elem? b (p + 2);
  nlmsg_next = next;
  next-room = next-less;
}

-- A dump of three datagrams, the first of which is lost, one of a single datagram, and one that
-- ends with an error.
abbrev dump4 : List (Option Bytes)
dump4 =
    none
    ∷ some (4 ∷ 20 ∷ 1 ∷ 0 ∷ 4 ∷ 20 ∷ 10 ∷ 0 ∷ [])
    ∷ some (4 ∷ 20 ∷ 1 ∷ 0 ∷ 4 ∷ 3 ∷ 0 ∷ 0 ∷ [])
    ∷ []

abbrev dump6 : List (Option Bytes)
dump6 = some (4 ∷ 20 ∷ 10 ∷ 0 ∷ 4 ∷ 3 ∷ 0 ∷ 0 ∷ []) ∷ []

abbrev bad_dump : List (Option Bytes)
bad_dump = some (4 ∷ 20 ∷ 1 ∷ 0 ∷ 4 ∷ 2 ∷ 0 ∷ 0 ∷ []) ∷ []

differs : (a b : ℕ) → (a == b) ≡ false → a ≢ b
differs a b h = ground arith

is_over-ends : is_over ≢ no_more
is_over-ends e = cc

dump4-Dump : Dump netlink (char_array 4096) dump4 (1 ∷ 10 ∷ 1 ∷ []) is_over
dump4-Dump = inr (
  [],
  1 ∷ 10 ∷ 1 ∷ [],
  refl,
  refl,
  inr (
    1 ∷ 10 ∷ [],
    1 ∷ [],
    refl,
    (
      refl,
      differs 20 3 refl,
      differs 20 2 refl,
      refl,
      (refl, differs 20 3 refl, differs 20 2 refl, refl, refl),
    ),
    inl (refl, is_over-ends, (refl, differs 20 3 refl, differs 20 2 refl, refl, (refl, refl))),
  ),
)

dump6-Dump : Dump netlink (behind netlink (char_array 4096) dump4) dump6 (10 ∷ []) is_over
dump6-Dump =
    inl (refl, is_over-ends, (refl, differs 20 3 refl, differs 20 2 refl, refl, (refl, refl)))

abbrev kernel : List (Option Bytes) → Kernel
kernel answers = record { has_socket = true; sendmsg = λ r. true; answers = answers }

init_tcp_stats-dumps_example :
    (t : Stats) × (Netlink.init_tcp_stats netlink
        (kernel (dump4 ++ (dump6 ++ [])))
        false
        none
        none
        fresh
      ≡ return (Netlink.returns t 1))
    × FamilyCounts linux t (1 ∷ 10 ∷ 1 ∷ []) (10 ∷ []) 10
unfolding request_tcp_diag
init_tcp_stats-dumps_example =
    init_tcp_stats-dumps netlink (kernel (dump4 ++ (dump6 ++ []))) none none dump4 dump6 []
      (1 ∷ 10 ∷ 1 ∷ []) (10 ∷ []) is_over 10 refl refl refl refl dump4-Dump dump6-Dump is_over-ends
      (omega arith) (omega arith) (omega arith) (omega arith)

count_tcp_states-Lost_example :
    count_tcp_states netlink (none ∷ some [] ∷ none ∷ []) (char_array 4096) 0 zeros ≡ waiting
count_tcp_states-Lost_example =
    count_tcp_states-Lost netlink (none ∷ some [] ∷ none ∷ []) (char_array 4096) 0 zeros
      (inl refl, (inr refl, (inl refl, tt)))
