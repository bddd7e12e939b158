-- ===== src/Tcp/Netlink/Waits.antt =====
-- `_count_tcp_states` where recv(2) keeps failing.
use ustat.Base.{
  ℕ, zero, suc, ◌≡◌, ◌⊎◌, refl, arith, inl, inr, false, Bool-cases, Bytes, List, [], ◌∷◌, All,
  Option, none, some, length, take,
}
use ustat.Tcp.Netlink.{Netlink, waiting, messages, count_tcp_states, received, recv_result, room}
use ustat.Tcp.Scan.{Counters}

-- A reception that fails, or that is empty, as after the end of the answers.
abbrev pub Lost : Option Bytes → Type 0
Lost d = (d ≡ none) ⊎ (d ≡ some [])

length-take_nil : (n : ℕ) → length {A = ℕ} (take n []) ≡ 0
length-take_nil zero = refl
length-take_nil (suc n) = refl

room-Lost : (buf : Bytes) (d : Option Bytes) → Lost d → room (recv_result buf d) ≡ 0
room-Lost buf d (inl e) = rw e refl
room-Lost buf d (inr e) = rw e (length-take_nil (length buf))

module _ (nl : Netlink) where
  nothing_ok :
      (buf : Bytes) (d : Option Bytes)
      → Lost d
      → nl.nlmsg_ok (received buf d) 0 (recv_result buf d) ≡ false
  nothing_ok buf d lost = elim (Bool-cases (nl.nlmsg_ok (received buf d) 0 (recv_result buf d))) [
    | inr e ↦ e
    | inl e ↦
        let less = nl.next-room (received buf d) 0 (recv_result buf d) e in
        absurd (omega (arith, room-Lost buf d lost))
  ]

  -- While recv(2) fails, or gives nothing, `_count_tcp_states` does not return, however often it is
  -- called: `done` is set by a message only.
  pub count_tcp_states-Lost :
      (ds : List (Option Bytes)) (buf : Bytes) (i : ℕ) (c : Counters)
      → All Lost ds
      → count_tcp_states nl ds buf i c ≡ waiting
  unfolding count_tcp_states messages
  count_tcp_states-Lost [] buf i c h = refl
  count_tcp_states-Lost (d ∷ ds) buf i c (lost, h) =
      rw (nothing_ok buf d lost, count_tcp_states, messages)
        (count_tcp_states-Lost ds (received buf d) i c h)
