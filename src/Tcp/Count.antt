-- ===== src/Tcp/Count.antt =====
-- Counting sockets by their states: what the sources of the counters share.
use ustat.Base.{
  ℕ, ◌+◌, ◌%◌, ◌<◌, ◌≡◌, refl, ap, ◌∙◌, arith, get_or, u64_mod, length, length-set, if◌then◌else◌,
  ◌==◌, List, [], ◌∷◌, All, some, inl, inr, Bool-cases, ==_iff, lt→ltb, get_or-set_self,
  get_or-set_ne,
}
use ustat.Tcp.Scan.Rows.{bump}
use ustat.Tcp.Scan.{Counters, increment}

-- The sockets in state `v`.
abbrev pub count : ℕ → List ℕ → ℕ
count v [] = 0
count v (s ∷ ss) = (if s == v then 1 else 0) + count v ss

-- The counters after the sockets.
abbrev pub tally_states : Counters → List ℕ → Counters
tally_states store [] = store
tally_states store (s ∷ ss) = tally_states (bump store s) ss

pub increment-bump :
    (store : Counters) (v : ℕ) → v < length store → increment store v ≡ some (bump store v)
unfolding increment
increment-bump store v h = rw (lt→ltb v (length store) h, increment) refl

pub length-tally_states :
    (store : Counters) (ss : List ℕ) → length (tally_states store ss) ≡ length store
length-tally_states store [] = refl
length-tally_states store (s ∷ ss) = length-tally_states (bump store s) ss ∙ length-set store s _

pub get_or-bump :
    (store : Counters) (v w : ℕ)
    → v < length store
    → get_or (bump store v) w 0
      ≡ (if v == w then (get_or store v 0 + 1) % u64_mod else get_or store w 0)
get_or-bump store v w h = elim (Bool-cases (v == w)) [
  | inl e ↦
      let same : v ≡ w = (==_iff v w).0 e in rw e (rw (← same) (get_or-set_self store v _ 0 h))
  | inr e ↦ rw e (get_or-set_ne store v w _ 0 (λ same. cc (e, (==_iff v w).1 same)))
]

pub get_or-tally_states :
    (store : Counters) (ss : List ℕ) (v : ℕ)
    → All (λ s. s < 12) ss
    → length store ≡ 12
    → get_or store v 0 < u64_mod
    → get_or (tally_states store ss) v 0 ≡ (get_or store v 0 + count v ss) % u64_mod
get_or-tally_states store [] v h l b = omega arith
get_or-tally_states store (s ∷ ss) v (g, h) l b =
    let e = get_or-bump store s v (omega arith) in
    let ih = get_or-tally_states (bump store s) ss v h (length-set store s _ ∙ l) in
    elim (Bool-cases (s == v)) [
      | inl q ↦
          let old = ap (λ z. get_or store z 0) ((==_iff s v).0 q) in
          let e' = rw q at e in rw q (ih (omega (arith, e')) ∙ omega (arith, e', old))
      | inr q ↦ let e' = rw q at e in rw q (ih (omega (arith, e')) ∙ omega (arith, e'))
    ]
