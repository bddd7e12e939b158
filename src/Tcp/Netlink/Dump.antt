-- ===== src/Tcp/Netlink/Dump.antt =====
-- How `_count_tcp_states` counts a dump: the messages of some datagrams, up to one that ends it.
use ustat.Base.{
  length-set, ℕ, zero, suc, ◌+◌, ◌<◌, ◌≡◌, ◌≢◌, refl, ◌∙◌, arith, ◌⊎◌, inl, inr, true, false, Bytes,
  List, [], ◌∷◌, ◌++◌, All, Option, some, ◌==◌, length, ==_iff, length-append, ℤ,
}
use ustat.Tcp.Count.{tally_states, increment-bump, length-tally_states}
use ustat.Tcp.Netlink.{
  Netlink, room, Messages, through, done, refused, outside, out_of_fuel, Received, counted, failed,
  faults, waiting, received, recv_result, messages, count_tcp_states,
}
use ustat.Tcp.Scan.Rows.{bump}
use ustat.Tcp.Scan.{Counters}

-- Why the messages of a datagram end: there are no more, or one says that the dump is over, or one
-- is an error.
pub data Ending : Type 0 where
  no_more : Ending
  is_over : Ending
  is_error : Ending

-- What the loop over the messages leaves then.
abbrev pub left : Ending → ℕ → Counters → Messages
left no_more i c = through i c
left is_over i c = done i c
left is_error i c = refused c

-- And what `_count_tcp_states` does.
abbrev pub answered : Ending → ℕ → Counters → List (Option Bytes) → Bytes → Received
answered no_more i c ds buf = waiting
answered is_over i c ds buf = counted i c ds buf
answered is_error i c ds buf = failed c ds buf

All-parts : (a b : List ℕ) → All (λ s. s < 12) (a ++ b) → All (λ s. s < 12) a × All (λ s. s < 12) b
All-parts [] b h = (tt, h)
All-parts (s ∷ a) b (g, h) = let (ha, hb) = All-parts a b h in ((g, ha), hb)

tally_states-append :
    (c : Counters) (a b : List ℕ) → tally_states c (a ++ b) ≡ tally_states (tally_states c a) b
tally_states-append c [] b = refl
tally_states-append c (s ∷ a) b = tally_states-append (bump c s) a b

module _ (nl : Netlink) where
  abbrev Ends : Bytes → ℕ → ℤ → Ending → Type 0
  Ends buf p n no_more = nl.nlmsg_ok buf p n ≡ false
  Ends buf p n is_over = (nl.nlmsg_ok buf p n ≡ true) × (nl.nlmsg_type buf p ≡ nl.nlmsg_done)
  Ends buf p n is_error =
      (nl.nlmsg_ok buf p n ≡ true)
      × (nl.nlmsg_type buf p ≢ nl.nlmsg_done)
      × (nl.nlmsg_type buf p ≡ nl.nlmsg_error)

  -- The states of the sockets in the messages from a place on, and how they end.
  abbrev pub Lists : Bytes → ℕ → ℤ → List ℕ → Ending → Type 0
  Lists buf p n [] e = Ends buf p n e
  Lists buf p n (s ∷ ss) e =
      (nl.nlmsg_ok buf p n ≡ true)
      × (nl.nlmsg_type buf p ≢ nl.nlmsg_done)
      × (nl.nlmsg_type buf p ≢ nl.nlmsg_error)
      × (nl.idiag_state buf p ≡ some s)
      × Lists buf (nl.nlmsg_next buf p n).0 (nl.nlmsg_next buf p n).1 ss e

  -- A dump in some receptions: the last one has the message that ends it. A reception that fails
  -- adds nothing.
  abbrev pub Dump : Bytes → List (Option Bytes) → List ℕ → Ending → Type 0
  Dump buf [] ss e = ⊥
  Dump buf (d ∷ ds) ss e =
      ((ds ≡ []) × (e ≢ no_more) × Lists (received buf d) 0 (recv_result buf d) ss e)
      ⊎ ((first : List ℕ) × (rest : List ℕ) × (ss ≡ first ++ rest)
          × Lists (received buf d) 0 (recv_result buf d) first no_more
          × Dump (received buf d) ds rest e)

  -- The buffer behind some receptions.
  abbrev pub behind : Bytes → List (Option Bytes) → Bytes
  behind buf [] = buf
  behind buf (d ∷ ds) = behind (received buf d) ds

  messages-Lists :
      (f p i : ℕ) (n : ℤ) (buf : Bytes) (ss : List ℕ) (e : Ending) (c : Counters)
      → Lists buf p n ss e
      → room n < f
      → All (λ s. s < 12) ss
      → length c ≡ 12
      → messages nl f buf p n i c ≡ left e (i + length ss) (tally_states c ss)
  unfolding messages
  messages-Lists zero p i n buf ss e c h b small size = absurd (omega arith)
  messages-Lists (suc f) p i n buf [] no_more c h b small size =
      let none_left : i + 0 ≡ i = omega arith in rw (h, messages, none_left) refl
  messages-Lists (suc f) p i n buf [] is_over c (ok, type) b small size =
      let none_left : i + 0 ≡ i = omega arith in
      let same = (==_iff (nl.nlmsg_type buf p) nl.nlmsg_done).1 type in
      rw (ok, same, messages, none_left) refl
  messages-Lists (suc f) p i n buf [] is_error c (ok, other, type) b small size =
      let differs : (nl.nlmsg_type buf p == nl.nlmsg_done) ≡ false = ground arith in
      let same = (==_iff (nl.nlmsg_type buf p) nl.nlmsg_error).1 type in
      rw (ok, differs, same, messages) refl
  messages-Lists (suc f) p i n buf (s ∷ ss) e c (ok, other, good, state, rest) b small size =
      let differs : (nl.nlmsg_type buf p == nl.nlmsg_done) ≡ false = ground arith in
      let differs' : (nl.nlmsg_type buf p == nl.nlmsg_error) ≡ false = ground arith in
      let one = increment-bump c s (omega arith) in
      let less = nl.next-room buf p n ok in
      let on =
        messages-Lists f (nl.nlmsg_next buf p n).0 (suc i) (nl.nlmsg_next buf p n).1 buf ss e
          (bump c s) rest (omega arith) small.1 (length-set c s _ ∙ size) in
      let number : suc i + length ss ≡ i + suc (length ss) = omega arith in
      rw (ok, differs, differs', state, one, messages) (on ∙ rw number refl)

  module _ (rest : List (Option Bytes)) where
    last_datagram :
        (d : Option Bytes) (buf : Bytes) (ss : List ℕ) (e : Ending) (i : ℕ) (c : Counters)
        → Lists (received buf d) 0 (recv_result buf d) ss e
        → e ≢ no_more
        → All (λ s. s < 12) ss
        → length c ≡ 12
        → count_tcp_states nl (d ∷ rest) buf i c
          ≡ answered e (i + length ss) (tally_states c ss) rest (received buf d)
    unfolding count_tcp_states
    last_datagram d buf ss e i c h ends small size =
        let whole =
          messages-Lists (suc (room (recv_result buf d))) 0 i (recv_result buf d) (received buf d)
            ss e c h (omega arith) small size in
        rw (whole, count_tcp_states) (go e ends)
      where
        go :
            (e : Ending)
            → e ≢ no_more
            → elim (left e (i + length ss) (tally_states c ss)) [
              | through i' c' ↦ count_tcp_states nl rest (received buf d) i' c'
              | done i' c' ↦ counted i' c' rest (received buf d)
              | refused c' ↦ failed c' rest (received buf d)
              | outside ↦ faults
              | out_of_fuel ↦ faults
            ]
              ≡ answered e (i + length ss) (tally_states c ss) rest (received buf d)
        go no_more ends = absurd (ends refl)
        go is_over ends = refl
        go is_error ends = refl

    part_datagram :
        (d : Option Bytes) (ds : List (Option Bytes)) (buf : Bytes) (ss : List ℕ) (i : ℕ)
        (c : Counters)
        → Lists (received buf d) 0 (recv_result buf d) ss no_more
        → All (λ s. s < 12) ss
        → length c ≡ 12
        → count_tcp_states nl (d ∷ ds) buf i c
          ≡ count_tcp_states nl ds (received buf d) (i + length ss) (tally_states c ss)
    unfolding count_tcp_states
    part_datagram d ds buf ss i c h small size =
        let whole =
          messages-Lists (suc (room (recv_result buf d))) 0 i (recv_result buf d) (received buf d)
            ss no_more c h (omega arith) small size in
        rw (whole, count_tcp_states) refl

    -- A dump of sockets in states below 12, in any datagrams, some of which may fail to be received:
    -- `_count_tcp_states` returns the number of the sockets, or -1 where the dump ends with an error;
    -- each socket is counted in its state; and what was received behind the dump is left.
    pub count_tcp_states-Dump :
        (ds : List (Option Bytes)) (buf : Bytes) (ss : List ℕ) (e : Ending) (i : ℕ) (c : Counters)
        → Dump buf ds ss e
        → All (λ s. s < 12) ss
        → length c ≡ 12
        → count_tcp_states nl (ds ++ rest) buf i c
          ≡ answered e (i + length ss) (tally_states c ss) rest (behind buf ds)
    count_tcp_states-Dump [] buf ss e i c h small size = absurd h
    count_tcp_states-Dump (d ∷ ds) buf ss e i c (inl (only, ends, h)) small size =
        rw only (last_datagram d buf ss e i c h ends small size)
    count_tcp_states-Dump (d ∷ ds) buf ss e i c (inr (a, b, both, h, more)) small size =
        let (small_a, small_b) = All-parts a b (rw both at small) in
        let size' = length-tally_states c a ∙ size in
        let sum : i + length a + length b ≡ i + length ss =
          rw both (omega (arith, length-append a b)) in
        part_datagram d (ds ++ rest) buf a i c h small_a size
        ∙ count_tcp_states-Dump ds (received buf d) b e (i + length a) (tally_states c a) more
            small_b size'
        ∙ rw (sum, both, tally_states-append c a b) refl
