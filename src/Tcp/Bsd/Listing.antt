-- ===== src/Tcp/Bsd/Listing.antt =====
-- The counters after the structures of a buffer.
use ustat.Base.{
  ℕ, zero, suc, ◌+◌, ◌<◌, ◌≤◌, ◌≡◌, ◌≢◌, refl, ◌∙◌, arith, ◌⊎◌, inl, inr, Bool, true, false, not,
  Bytes, List, [], ◌∷◌, All, some, ◌==◌, length, if◌then◌else◌, le→leb, lt→leb, ==_iff, Bool-cases,
}
use ustat.Tcp.Bsd.{Layout, walked, count_socket, walk}
use ustat.Tcp.Count.{tally_states, increment-bump, length-tally_states}
use ustat.Tcp.Stats.{Stats}

-- A socket in the buffer: its state, and whether the flags of the families are set.
pub record Socket : Type 0 where
  pub state : ℕ
  pub four : Bool
  pub six : Bool

-- The states of the sockets that count for IPv4, and for IPv6.
abbrev pub ipv4_states : List Socket → List ℕ
ipv4_states [] = []
ipv4_states (k ∷ ks) = if k.four then k.state ∷ ipv4_states ks else ipv4_states ks

abbrev pub ipv6_states : List Socket → List ℕ
ipv6_states [] = []
ipv6_states (k ∷ ks) =
    if not k.four
    then (if k.six then k.state ∷ ipv6_states ks else ipv6_states ks)
    else ipv6_states ks

abbrev pub any : List Socket → ℕ → ℕ
any [] rc = rc
any (k ∷ ks) rc = 1

any_one : (ks : List Socket) → any ks 1 ≡ 1
any_one [] = refl
any_one (k ∷ ks) = refl

abbrev pub counted : Stats → List Socket → Stats
counted s ks = record s {
  v4 = tally_states s.v4 (ipv4_states ks);
  v6 = tally_states s.v6 (ipv6_states ks);
}

module _ (m : Layout) (buf : Bytes) where
  -- A structure of the right size, with the fields of a socket.
  pub record Holds (place : ℕ) (k : Socket) : Type 0 where
    pub xt_len_is : m.xt_len buf place ≡ some m.size_xtcpcb
    pub xig_len_is : m.xig_len buf place ≡ some m.size_xtcpcb
    pub state_is : m.t_state buf place ≡ some k.state
    pub four_is : m.has_ipv4 buf place ≡ some k.four
    pub six_is : m.has_ipv6 buf place ≡ some k.six

  -- The sockets of the structures from a place on, up to the end or to one of another size.
  abbrev pub Lists : ℕ → ℕ → List Socket → Type 0
  Lists last place [] =
      (last ≤ place)
      ⊎ ((place < last) × (n : ℕ) × (m.xt_len buf place ≡ some n) × (n ≢ m.size_xtcpcb))
  Lists last place (k ∷ ks) = (place < last) × Holds place k × Lists last (place + m.size_xtcpcb) ks

  pub Lists-room :
      (last place : ℕ) (ks : List Socket)
      → 0 < m.size_xtcpcb
      → Lists last place ks
      → (length ks ≡ 0) ⊎ (place + length ks ≤ last)
  Lists-room last place [] pos h = inl refl
  Lists-room last place (k ∷ ks) pos (h, held, rest) =
      inr (elim (Lists-room last (place + m.size_xtcpcb) ks pos rest) [
        | inl e ↦ omega arith
        | inr e ↦ omega arith
      ])

  count_socket-counted :
      (place : ℕ) (k : Socket) (s : Stats)
      → Holds place k
      → k.state < length s.v4
      → k.state < length s.v6
      → count_socket m buf place s ≡ some (counted s (k ∷ []))
  unfolding count_socket
  count_socket-counted place k s h l4 l6 =
      let four = increment-bump s.v4 k.state l4 in
      let six = increment-bump s.v6 k.state l6 in
      rw (h.state_is, h.four_is, count_socket)
        (elim (Bool-cases k.four) [
          | inl e ↦ rw (e, four, count_socket) refl
          | inr e ↦ elim (Bool-cases k.six) [
            | inl e' ↦ rw (e, h.six_is, e', six, count_socket) refl
            | inr e' ↦ rw (e, h.six_is, e', count_socket) refl
          ]
        ])

  counted-cons :
      (s : Stats) (k : Socket) (ks : List Socket)
      → counted (counted s (k ∷ [])) ks ≡ counted s (k ∷ ks)
  counted-cons s k ks = elim (Bool-cases k.four) [
    | inl e ↦ rw e refl
    | inr e ↦ elim (Bool-cases k.six) [ inl e' ↦ rw (e, e') refl | inr e' ↦ rw (e, e') refl ]
  ]

  counted-size :
      (s : Stats) (k : Socket)
      → length s.v4 ≡ 12
      → length s.v6 ≡ 12
      → (length (counted s (k ∷ [])).v4 ≡ 12) × (length (counted s (k ∷ [])).v6 ≡ 12)
  counted-size s k l4 l6 = (
    length-tally_states s.v4 (ipv4_states (k ∷ [])) ∙ l4,
    length-tally_states s.v6 (ipv6_states (k ∷ [])) ∙ l6,
  )

  pub walk-Lists :
      (f last place len rc : ℕ) (s : Stats) (ks : List Socket)
      → m.xig_len buf place ≡ some len
      → Lists last (place + len) ks
      → length ks < f
      → length s.v4 ≡ 12
      → length s.v6 ≡ 12
      → All (λ k. k.state < 12) ks
      → walk m buf f last place s rc ≡ walked (counted s ks) (any ks rc)
  unfolding walk
  walk-Lists zero last place len rc s ks e h b l4 l6 small = absurd (omega arith)
  walk-Lists (suc f) last place len rc s [] e (inl end) b l4 l6 small =
      rw (e, le→leb last (place + len) end, walk) refl
  walk-Lists (suc f) last place len rc s [] e (inr (h, n, xt, other)) b l4 l6 small =
      let differs : (n == m.size_xtcpcb) ≡ false = ground arith in
      rw (e, lt→leb last (place + len) h, xt, differs, walk) refl
  walk-Lists (suc f) last place len rc s (k ∷ ks) e (h, held, rest) b l4 l6 small =
      let same : (m.size_xtcpcb == m.size_xtcpcb) ≡ true =
        (==_iff m.size_xtcpcb m.size_xtcpcb).1 refl in
      let one = count_socket-counted (place + len) k s held (omega arith) (omega arith) in
      let (l4', l6') = counted-size s k l4 l6 in
      rw (e, lt→leb last (place + len) h, held.xt_len_is, same, one, walk)
        (walk-Lists f last (place + len) m.size_xtcpcb 1 (counted s (k ∷ [])) ks held.xig_len_is
            rest (omega arith) l4' l6' small.1
          ∙ rw (counted-cons s k ks, any_one ks) refl)
