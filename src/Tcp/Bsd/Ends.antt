-- ===== src/Tcp/Bsd/Ends.antt =====
-- The loop over the structures of a buffer ends, whatever they hold.
use ustat.Base.{
  ℕ, zero, suc, ◌+◌, ◌<◌, ◌≤◌, ◌≡◌, ◌≢◌, ◌∙◌, arith, inl, inr, ◌-◌, leb, Bytes, some, ◌==◌, ==_iff,
  Bool-cases, Option-cases,
}
use ustat.Tcp.Bsd.{Layout, out_of_fuel, count_socket, walk}
use ustat.Tcp.Stats.{Stats}

module _ (m : Layout) (buf : Bytes) (last : ℕ) (pos : 0 < m.size_xtcpcb)
    (same_field : (p : ℕ) → m.xig_len buf p ≡ m.xt_len buf p) where
  walk-ends :
      (f place len rc : ℕ) (s : Stats)
      → m.xig_len buf place ≡ some len
      → 0 < len
      → place ≤ last
      → last < place + f
      → walk m buf f last place s rc ≢ out_of_fuel
  unfolding walk
  walk-ends zero place len rc s e l inside b = absurd (omega arith)
  walk-ends (suc f) place len rc s e l inside b = elim (Bool-cases (leb last (place + len))) [
    | inl q ↦ λ r. let r' = rw (e, q, walk) at r in cc
    | inr q ↦ elim (Option-cases (m.xt_len buf (place + len))) [
      | inl x ↦ λ r. let r' = rw (e, q, x, walk) at r in cc
      | inr (n, x) ↦ elim (Bool-cases (n == m.size_xtcpcb)) [
        | inr y ↦ λ r. let r' = rw (e, q, x, y, walk) at r in cc
        | inl y ↦ elim (Option-cases (count_socket m buf (place + len) s)) [
          | inl z ↦ λ r. let r' = rw (e, q, x, y, z, walk) at r in cc
          | inr (s', z) ↦ λ r.
              let size : n ≡ m.size_xtcpcb = (==_iff n m.size_xtcpcb).0 y in
              let next = walk-ends f (place + len) n 1 s' (same_field (place + len) ∙ x) in
              next (omega arith) (ground arith) (omega arith) (rw (e, q, x, y, z, walk) at r)
        ]
      ]
    ]
  ]

-- Whatever the buffer holds: if `xig_len` and `xt_len` are the same field, and the first length is
-- the size of a `struct xinpgen`, the loop ends, where the sizes of the structures are not zero.
pub walk_enough :
    (m : Layout) (buf : Bytes) (l : ℕ) (s : Stats)
    → ((p : ℕ) → m.xig_len buf p ≡ m.xt_len buf p)
    → 0 < m.size_xtcpcb
    → 0 < m.size_xinpgen
    → m.xig_len buf 0 ≡ some m.size_xinpgen
    → walk m buf (suc l) (l - m.size_xinpgen) 0 s 0 ≢ out_of_fuel
walk_enough m buf l s same_field pos pos' first =
    walk-ends m buf (l - m.size_xinpgen) pos same_field (suc l) 0 m.size_xinpgen 0 s first pos'
      (omega arith) (omega arith)
