-- ===== src/Tcp/Stats/Sums.antt =====
-- `_sum_counters`: every state is added to its place, and the sum of the states to the total.
use native.Mathlib.Decide.{dec_lt}
use ustat.Base.{
  ℕ, zero, suc, ◌+◌, ◌-◌, ◌%◌, ◌<◌, ◌≤◌, ◌≡◌, ◌≢◌, refl, ◌∙◌, arith, get_or, u64_mod, length,
  length-set, get_or-set_self, get_or-set_ne, ◌⊎◌,
}
use ustat.Tcp.Scan.{Counters}
use ustat.Tcp.Stats.{Platform, linux, bsd, Pair, add_at, sum_loop, sum_counters}

-- The sum of `n` counters from `i` on.
abbrev pub sum_range : Counters → ℕ → ℕ → ℕ
sum_range c i zero = 0
sum_range c i (suc n) = get_or c i 0 + sum_range c (suc i) n

get_or-add_at_self :
    (c : Counters) (i n : ℕ)
    → i < length c
    → get_or (add_at c i n) i 0 ≡ (get_or c i 0 + n) % u64_mod
get_or-add_at_self c i n h = get_or-set_self c i _ 0 h

get_or-add_at_ne : (c : Counters) (i j n : ℕ) → i ≢ j → get_or (add_at c i n) j 0 ≡ get_or c j 0
get_or-add_at_ne c i j n h = get_or-set_ne c i j _ 0 h

-- The total does not stand among the `n` states from `i` on.
abbrev Apart : ℕ → ℕ → ℕ → Type 0
Apart total n i = (total < i) ⊎ (i + n ≤ total)

sum_range-add_at :
    (c : Counters) (total v i n : ℕ)
    → Apart total n i
    → sum_range (add_at c total v) i n ≡ sum_range c i n
sum_range-add_at c total v i zero h = refl
sum_range-add_at c total v i (suc n) h =
    rw (
      get_or-add_at_ne c total i v (omega arith),
      sum_range-add_at c total v (suc i) n (omega arith),
    )

module _ (total : ℕ) where
  loop : ℕ → ℕ → Pair → Pair
  unfolding sum_loop
  loop = sum_loop total

  -- The arrays behind one round.
  round : ℕ → Pair → Pair
  round i p =
      let source = add_at p.source total (get_or p.source i 0) in
      record { to = add_at p.to i (get_or source i 0); source = source }

  length-loop :
      (n i : ℕ) (p : Pair)
      → (length (loop n i p).to ≡ length p.to) × (length (loop n i p).source ≡ length p.source)
  unfolding loop round
  length-loop zero i p = (refl, refl)
  length-loop (suc n) i p =
      let (a, b) = length-loop n (suc i) (round i p) in
      (a ∙ length-set p.to i _, b ∙ length-set p.source total _)

  source_kept :
      (n i j : ℕ) (p : Pair) → total ≢ j → get_or (loop n i p).source j 0 ≡ get_or p.source j 0
  unfolding loop round
  source_kept zero i j p h = refl
  source_kept (suc n) i j p h =
      source_kept n (suc i) j (round i p) h ∙ get_or-add_at_ne p.source total j _ h

  source_total :
      (n i : ℕ) (p : Pair)
      → Apart total n i
      → total < length p.source
      → get_or p.source total 0 < u64_mod
      → get_or (loop n i p).source total 0
        ≡ (get_or p.source total 0 + sum_range p.source i n) % u64_mod
  unfolding loop round
  source_total zero i p a l b = omega arith
  source_total (suc n) i p a l b =
      let v = get_or p.source i 0 in
      let now = get_or-add_at_self p.source total v l in
      let ih =
        source_total n (suc i) (round i p) (omega arith)
          (omega (arith, length-set p.source total ((get_or p.source total 0 + v) % u64_mod)))
          (omega (arith, now)) in
      ih ∙ rw (sum_range-add_at p.source total v (suc i) n (omega arith)) (omega (arith, now))

  to_kept :
      (n i j : ℕ) (p : Pair) → (j < i) ⊎ (i + n ≤ j) → get_or (loop n i p).to j 0 ≡ get_or p.to j 0
  unfolding loop round
  to_kept zero i j p h = refl
  to_kept (suc n) i j p h =
      to_kept n (suc i) j (round i p) (omega arith) ∙ get_or-add_at_ne p.to i j _ (omega arith)

  to_added :
      (n i j : ℕ) (p : Pair)
      → Apart total n i
      → j < length p.to
      → i ≤ j
      → j < i + n
      → get_or (loop n i p).to j 0 ≡ (get_or p.to j 0 + get_or p.source j 0) % u64_mod
  unfolding loop round
  to_added zero i j p a l h k = absurd (omega arith)
  to_added (suc n) i j p a l h k = elim (dec_lt i j) [
    | yes later ↦
        to_added n (suc i) j (round i p) (omega arith)
          (omega (
            arith,
            length-set p.to i ((get_or p.to i 0 + get_or (round i p).source i 0) % u64_mod),
          ))
          (omega arith) (omega arith)
        ∙ rw (
          get_or-add_at_ne p.to i j _ (omega arith),
          get_or-add_at_ne p.source total j _ (omega arith),
        )
    | no here ↦
        let e : i ≡ j = omega arith in
        rw (← e) (
          to_kept n (suc i) i (round i p) (omega arith)
          ∙ get_or-add_at_self p.to i _ (omega arith)
          ∙ rw (get_or-add_at_ne p.source total i _ (omega arith)))
  ]

-- The total stands apart from the states, and all of them in the array.
pub record IsPlatform (m : Platform) : Type 0 where
  pub apart : (m.index_total < m.state_first) ⊎ (m.state_last < m.index_total)
  pub order : m.state_first ≤ m.state_last
  pub last_fits : m.state_last < 12
  pub total_fits : m.index_total < 12

pub record IsSum (m : Platform) (to source : Counters) (p : Pair) : Type 0 where
  pub length_to : length p.to ≡ 12
  pub length_source : length p.source ≡ 12
  pub source_total_is :
      get_or p.source m.index_total 0
      ≡ (get_or source m.index_total 0
          + sum_range source m.state_first (m.state_last + 1 - m.state_first))
        % u64_mod
  pub to_total_is :
      get_or p.to m.index_total 0
      ≡ (get_or to m.index_total 0 + get_or p.source m.index_total 0) % u64_mod

module _ (m : Platform) (v : IsPlatform m) (to source : Counters) (lt : length to ≡ 12)
    (ls : length source ≡ 12) where
  start : Pair
  start = record { to = to; source = source }

  finish-IsSum :
      get_or source m.index_total 0 < u64_mod → IsSum m to source (sum_counters m to source)
  unfolding sum_counters loop start
  finish-IsSum b =
      let t = m.index_total in
      let k = m.state_last + 1 - m.state_first in
      let f = m.state_first in
      let (a, c) = length-loop t k f start in
      record {
        length_to = length-set (loop t k f start).to t _ ∙ a ∙ lt;
        length_source = c ∙ ls;
        source_total_is = source_total t k f start (omega arith) (omega arith) b;
        to_total_is =
            get_or-add_at_self (loop t k f start).to t _ (omega arith)
            ∙ rw (to_kept t k f t start (omega arith));
      }

  finish_state :
      (j : ℕ)
      → m.state_first ≤ j
      → j ≤ m.state_last
      → (get_or (sum_counters m to source).to j 0 ≡ (get_or to j 0 + get_or source j 0) % u64_mod)
        × (get_or (sum_counters m to source).source j 0 ≡ get_or source j 0)
  unfolding sum_counters loop start
  finish_state j h k =
      let t = m.index_total in
      let c = m.state_last + 1 - m.state_first in
      let f = m.state_first in
      (
        get_or-add_at_ne (loop t c f start).to t j _ (omega arith)
            ∙ to_added t c f j start (omega arith) (omega arith) h (omega arith),
        source_kept t c f j start (omega arith),
      )

-- On each system, for arrays of twelve: `_sum_counters` adds every counter of `from` to its place
-- in `to` and keeps it in `from`, sets the total of `from` to the sum of it and of the states, and
-- adds that to the total of `to`, all modulo 2 ^ 64.
pub sum_counters-IsSum :
    (m : Platform) (to source : Counters) (j : ℕ)
    → IsPlatform m
    → length to ≡ 12
    → length source ≡ 12
    → get_or source m.index_total 0 < u64_mod
    → m.state_first ≤ j
    → j ≤ m.state_last
    → IsSum m to source (sum_counters m to source)
      × (get_or (sum_counters m to source).to j 0 ≡ (get_or to j 0 + get_or source j 0) % u64_mod)
      × (get_or (sum_counters m to source).source j 0 ≡ get_or source j 0)
sum_counters-IsSum m to source j v lt ls b h k =
    let (added, kept) = finish_state m v to source lt ls j h k in
    (finish-IsSum m v to source lt ls b, added, kept)

pub linux-IsPlatform : IsPlatform linux
linux-IsPlatform = omega arith

pub bsd-IsPlatform : IsPlatform bsd
bsd-IsPlatform = omega arith
