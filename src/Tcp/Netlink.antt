-- ===== src/Tcp/Netlink.antt =====
-- ustat_tcp_linux.c with USTAT_NETLINK: the sockets that the kernel lists over netlink, and the
-- choice between that and /proc/net/tcp. `_sum_counters` is called with its two arguments.
pub mod Dump
pub mod Start
pub mod Waits
use ustat.Base.{
  ℕ, zero, suc, ◌<◌, ◌≡◌, Bool, true, not, Bytes, List, [], ◌∷◌, ◌++◌, Option, none, some, ◌==◌,
  length, take, drop, codes, if◌then◌else◌, ℤ, pos, negsuc,
}
use ustat.Djb.{cstr}
use ustat.Io.{Emits, ◌>>=◌, ◌>>◌, from, return, puts, stderr, char_array}
use ustat.Tcp.Scan.{Counters, increment}
use ustat.Tcp.Stats.{Stats, Opened, linux, sum_counters, init_via_proc_net_tcp}

-- The bytes that are left, where there are some.
abbrev pub room : ℤ → ℕ
room (pos n) = n
room (negsuc n) = 0

-- The macros of <linux/netlink.h> on a message at some place of a buffer, and the field
-- `idiag_state` of its `struct inet_diag_msg`, which has no value outside of the buffer.
pub record Netlink : Type 0 where
  pub nlmsg_done : ℕ
  pub nlmsg_error : ℕ
  pub nlmsg_ok : Bytes → ℕ → ℤ → Bool
  pub nlmsg_type : Bytes → ℕ → ℕ
  pub idiag_state : Bytes → ℕ → Option ℕ
  -- The place of the next message, and the bytes that are left then.
  pub nlmsg_next : Bytes → ℕ → ℤ → ℕ × ℤ
  -- A message that is there takes some bytes.
  pub next-room :
      (buf : Bytes) (p : ℕ) (n : ℤ) → nlmsg_ok buf p n ≡ true → room (nlmsg_next buf p n).1 < room n

-- What the loop over the messages of one datagram leaves: it is through, or it met a message that
-- says so or an error.
pub data Messages : Type 0 where
  through : ℕ → Counters → Messages
  done : ℕ → Counters → Messages
  refused : Counters → Messages
  outside : Messages
  out_of_fuel : Messages

-- What `_count_tcp_states` does, given what recv(2) returns: with the receptions that are left and
-- the buffer, it returns the number of sockets or -1. It is `waiting` while none of them ends it.
pub data Received : Type 0 where
  counted : ℕ → Counters → List (Option Bytes) → Bytes → Received
  failed : Counters → List (Option Bytes) → Bytes → Received
  faults : Received
  waiting : Received

-- `n = recv(sock, buf, l, 0)`, and the buffer behind it
abbrev pub received : Bytes → Option Bytes → Bytes
received buf none = buf
received buf (some b) = take (length buf) b ++ drop (length (take (length buf) b)) buf

abbrev pub recv_result : Bytes → Option Bytes → ℤ
recv_result buf none = negsuc 0
recv_result buf (some b) = pos (length (take (length buf) b))

module _ (nl : Netlink) where
  -- `for (; NLMSG_OK(hdr, n);)`: a message takes a round.
  unfoldable pub messages : ℕ → Bytes → ℕ → ℤ → ℕ → Counters → Messages
  messages zero buf p n i c = out_of_fuel
  messages (suc f) buf p n i c =
      if not (nl.nlmsg_ok buf p n)
      then through i c
      else if nl.nlmsg_type buf p == nl.nlmsg_done
      then done i c
      else if nl.nlmsg_type buf p == nl.nlmsg_error
      then refused c
      else elim (nl.idiag_state buf p) [
        | none ↦ outside
        | some state ↦ elim (increment c state) [
          | none ↦ outside
          | some c' ↦ let (p', n') = nl.nlmsg_next buf p n in messages f buf p' n' (suc i) c'
        ]
      ]

  -- `_count_tcp_states(sock, buf, l, counter)`
  unfoldable pub count_tcp_states : List (Option Bytes) → Bytes → ℕ → Counters → Received
  count_tcp_states [] buf i c = waiting
  count_tcp_states (d ∷ ds) buf i c =
      let buf' = received buf d in
      let n = recv_result buf d in
      elim (messages (suc (room n)) buf' 0 n i c) [
        | through i' c' ↦ count_tcp_states ds buf' i' c'
        | done i' c' ↦ counted i' c' ds buf'
        | refused c' ↦ failed c' ds buf'
        | outside ↦ faults
        | out_of_fuel ↦ faults
      ]

-- The request of `_request_tcp_diag`: what it sets in `c_req` and `nlh`.
pub record Request : Type 0 where
  pub sdiag_family : ℕ
  pub sdiag_protocol : ℕ
  pub idiag_states : ℕ
  pub nlmsg_len : ℕ
  pub nlmsg_flags : ℕ
  pub nlmsg_type : ℕ

-- AF_INET, AF_INET6, IPPROTO_TCP, NLMSG_LENGTH of the 56 bytes of `c_req`, NLM_F_DUMP | NLM_F_REQUEST and SOCK_DIAG_BY_FAMILY.
abbrev pub af_inet : ℕ
af_inet = 2

abbrev pub af_inet6 : ℕ
af_inet6 = 10

unfoldable pub request_tcp_diag : (Request → Bool) → ℕ → Bool
request_tcp_diag sendmsg family = sendmsg (record {
  sdiag_family = family;
  sdiag_protocol = 6;
  idiag_states = 4095;
  nlmsg_len = 72;
  nlmsg_flags = 769;
  nlmsg_type = 20;
})

abbrev pub error_no_netlink_to_kernel : Bytes
error_no_netlink_to_kernel = cstr (codes "can't get netlink-socket from kernel\n")

abbrev pub error_no_tcp_diag : Bytes
error_no_tcp_diag = cstr (codes "can't get tcp-diag via netlink\n")

-- What the system does: whether there is a socket, which requests it takes, and what is received.
pub record Kernel : Type 0 where
  pub has_socket : Bool
  pub sendmsg : Request → Bool
  pub answers : List (Option Bytes)

-- The counters and the result, or that the program still waits for a message.
pub data Ended : Type 0 where
  returns : Stats → ℕ → Ended
  still_waiting : Ended

module _ (nl : Netlink) (k : Kernel) where
  -- The counters of IPv6, from the receptions that are left.
  abbrev pub sum_v6 : Stats → Counters → Ended
  sum_v6 s c =
      let p = sum_counters linux s.all c in returns (record s { all = p.to; v6 = p.source }) 1

  unfoldable pub add_v6 : List (Option Bytes) → Bytes → Stats → Emits Ended
  add_v6 ds buf s = elim (count_tcp_states nl ds buf 0 s.v6) [
    | counted i c ds' buf' ↦ return (sum_v6 s c)
    | failed c ds' buf' ↦ return (sum_v6 s c)
    | faults ↦ from none
    | waiting ↦ return still_waiting
  ]

  -- `_init_tcp_stats_via_netlink`
  unfoldable pub init_via_netlink : Stats → Emits Ended
  init_via_netlink s =
      if not k.has_socket
      then (do puts stderr error_no_netlink_to_kernel; return (returns s 0))
      else if not (request_tcp_diag k.sendmsg af_inet)
      then (do puts stderr error_no_tcp_diag; return (returns s 0))
      else elim (count_tcp_states nl k.answers (char_array 4096) 0 s.v4) [
        | counted i c ds buf ↦
            let p = sum_counters linux s.all c in
            let s' = record s { all = p.to; v4 = p.source } in
            if request_tcp_diag k.sendmsg af_inet6 then add_v6 ds buf s' else return (returns s' 1)
        | failed c ds buf ↦ return (returns (record s { v4 = c }) 0)
        | faults ↦ from none
        | waiting ↦ return still_waiting
      ]

  -- `_init_tcp_stats`, `forced` if FORCE_PROC_NET_TCP is set
  abbrev pub fall_back : Opened → Opened → Ended → Emits Ended
  fall_back tcp4 tcp6 still_waiting = return still_waiting
  fall_back tcp4 tcp6 (returns s rc) =
      if rc == 0
      then (do p ← from (init_via_proc_net_tcp tcp4 tcp6 s); return (returns p.0 p.1))
      else return (returns s rc)

  unfoldable pub init_tcp_stats : Bool → Opened → Opened → Stats → Emits Ended
  init_tcp_stats forced tcp4 tcp6 s = do
    e ← (if forced then return (returns s 0) else init_via_netlink s)
    fall_back tcp4 tcp6 e
