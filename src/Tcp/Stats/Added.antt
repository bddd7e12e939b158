-- ===== src/Tcp/Stats/Added.antt =====
-- The counters behind `_sum_counters`, for a list of sockets: what the platforms share.
use ustat.Base.{
  get_or-replicate, ℕ, zero, suc, ◌+◌, ◌-◌, ◌%◌, ◌<◌, ◌≤◌, ◌≡◌, refl, ◌∙◌, arith, get_or, u64_mod,
  length, if◌then◌else◌, ◌==◌, List, [], ◌∷◌, All, ◌⊎◌, inl, inr, Bool-cases, ==_iff,
}
use ustat.Tcp.Count.{count, tally_states, length-tally_states, get_or-tally_states}
use ustat.Tcp.Scan.{Counters}
use ustat.Tcp.Stats.Sums.{IsPlatform, sum_range, sum_counters-IsSum}
use ustat.Tcp.Stats.{Platform, Pair, Stats, sum_counters, zeros}

pub get_or-zeros : (v : ℕ) → get_or zeros v 0 ≡ 0
get_or-zeros v = get_or-replicate {A = ℕ} 12 v 0

counter_is :
    (ss : List ℕ) (v : ℕ)
    → All (λ s. s < 12) ss
    → get_or (tally_states zeros ss) v 0 ≡ count v ss % u64_mod
counter_is ss v h =
    get_or-tally_states zeros ss v h refl (rw (get_or-zeros v) (omega arith))
    ∙ rw (get_or-zeros v) (omega arith)

-- The sockets whose state is one of the `n` from `i` on.
abbrev count_range : List ℕ → ℕ → ℕ → ℕ
count_range ss i zero = 0
count_range ss i (suc n) = count i ss + count_range ss (suc i) n

sum_range-tally :
    (ss : List ℕ) (i n : ℕ)
    → All (λ s. s < 12) ss
    → sum_range (tally_states zeros ss) i n % u64_mod ≡ count_range ss i n % u64_mod
sum_range-tally ss i zero h = refl
sum_range-tally ss i (suc n) h = omega (arith, counter_is ss i h, sum_range-tally ss (suc i) n h)

abbrev ones : ℕ → ℕ → ℕ → ℕ
ones v i zero = 0
ones v i (suc n) = (if v == i then 1 else 0) + ones v (suc i) n

ones_out : (v i n : ℕ) → (v < i) ⊎ (i + n ≤ v) → ones v i n ≡ 0
ones_out v i zero h = refl
ones_out v i (suc n) h = ground (arith, ones_out v (suc i) n)

ones_in : (v i n : ℕ) → i ≤ v → v < i + n → ones v i n ≡ 1
ones_in v i zero h k = absurd (omega arith)
ones_in v i (suc n) h k = ground (arith, ones_in v (suc i) n, ones_out v (suc i) n)

count_range-cons :
    (s : ℕ) (ss : List ℕ) (i n : ℕ) → count_range (s ∷ ss) i n ≡ ones s i n + count_range ss i n
count_range-cons s ss i zero = omega arith
count_range-cons s ss i (suc n) = omega (arith, count_range-cons s ss (suc i) n)

count_range-nil : (i n : ℕ) → count_range [] i n ≡ 0
count_range-nil i zero = refl
count_range-nil i (suc n) = omega (arith, count_range-nil (suc i) n)

-- A state of a platform, or the place of the total.
abbrev pub IsState : Platform → ℕ → Type 0
IsState m s = (s < 12) × ((s ≡ m.index_total) ⊎ ((m.state_first ≤ s) × (s ≤ m.state_last)))

module _ (m : Platform) (v : IsPlatform m) where
  n_states : ℕ
  n_states = m.state_last + 1 - m.state_first

  one_place :
      (s : ℕ)
      → IsState m s
      → (if s == m.index_total then 1 else 0) + ones s m.state_first n_states ≡ 1
  unfolding n_states
  one_place s (b, inl e) =
      rw ((==_iff s m.index_total).1 e)
        (omega (arith, ones_out s m.state_first n_states (omega arith)))
  one_place s (b, inr h) = elim (Bool-cases (s == m.index_total)) [
    | inl e ↦ let same = (==_iff s m.index_total).0 e in absurd (omega arith)
    | inr e ↦ rw e (omega (arith, ones_in s m.state_first n_states (omega arith) (omega arith)))
  ]

  all_places :
      (ss : List ℕ)
      → All (IsState m) ss
      → count m.index_total ss + count_range ss m.state_first n_states ≡ length ss
  all_places [] h = omega (arith, count_range-nil m.state_first n_states)
  all_places (s ∷ ss) (g, h) =
      omega (arith, count_range-cons s ss m.state_first n_states, one_place s g, all_places ss h)

pub IsState-fits : (m : Platform) (ss : List ℕ) → All (IsState m) ss → All (λ s. s < 12) ss
IsState-fits m [] h = tt
IsState-fits m (s ∷ ss) (g, h) = (g.0, IsState-fits m ss h)

-- The arrays behind `_sum_counters`, for the counters of a list of sockets.
pub record IsAdded (m : Platform) (ss : List ℕ) (to : Counters) (v : ℕ) (p : Pair) : Type 0 where
  pub size : length p.to ≡ 12
  pub source_is : get_or p.source v 0 ≡ count v ss % u64_mod
  pub to_is : get_or p.to v 0 ≡ (get_or to v 0 + count v ss) % u64_mod
  pub source_total_is : get_or p.source m.index_total 0 ≡ length ss % u64_mod
  pub to_total_is : get_or p.to m.index_total 0 ≡ (get_or to m.index_total 0 + length ss) % u64_mod

pub sum_counters-IsAdded :
    (m : Platform) (ss : List ℕ) (to : Counters) (v : ℕ)
    → IsPlatform m
    → All (IsState m) ss
    → length to ≡ 12
    → m.state_first ≤ v
    → v ≤ m.state_last
    → IsAdded m ss to v (sum_counters m to (tally_states zeros ss))
unfolding n_states
sum_counters-IsAdded m ss to v p good size h k =
    let fits = IsState-fits m ss good in
    let c = tally_states zeros ss in
    let t = m.index_total in
    let (sum, added, kept) =
      sum_counters-IsSum m to c v p size (length-tally_states zeros ss)
        (omega (arith, counter_is ss t fits)) h k in
    let total : get_or (sum_counters m to c).source t 0 ≡ length ss % u64_mod = omega (
      arith,
      sum.source_total_is,
      counter_is ss t fits,
      sum_range-tally ss m.state_first (m.state_last + 1 - m.state_first) fits,
      all_places m p ss good,
    ) in
    record {
      size = sum.length_to;
      source_is = kept ∙ counter_is ss v fits;
      to_is = added ∙ omega (arith, counter_is ss v fits);
      source_total_is = total;
      to_total_is = sum.to_total_is ∙ omega (arith, total);
    }

-- The static variables of ustat_tcp.c as the program starts.
abbrev pub fresh : Stats
fresh = record { all = zeros; v4 = zeros; v6 = zeros }

-- The counters for the sockets of two families: of a state, and in all.
pub record FamilyCounts (m : Platform) (t : Stats) (four six : List ℕ) (v : ℕ) : Type 0 where
  pub v4_is : get_or t.v4 v 0 ≡ count v four % u64_mod
  pub v6_is : get_or t.v6 v 0 ≡ count v six % u64_mod
  pub all_is : get_or t.all v 0 ≡ (count v four + count v six) % u64_mod
  pub v4_total : get_or t.v4 m.index_total 0 ≡ length four % u64_mod
  pub v6_total : get_or t.v6 m.index_total 0 ≡ length six % u64_mod
  pub all_total : get_or t.all m.index_total 0 ≡ (length four + length six) % u64_mod

pub fresh-FamilyCounts : (m : Platform) (v : ℕ) → FamilyCounts m fresh [] [] v
fresh-FamilyCounts m v = record {
  v4_is = get_or-zeros v;
  v6_is = get_or-zeros v;
  all_is = get_or-zeros v;
  v4_total = get_or-zeros m.index_total;
  v6_total = get_or-zeros m.index_total;
  all_total = get_or-zeros m.index_total;
}

-- Both families, summed one behind the other.
abbrev pub summed : Platform → List ℕ → List ℕ → Stats
summed m four six =
    let p = sum_counters m zeros (tally_states zeros four) in
    let q = sum_counters m p.to (tally_states zeros six) in
    record { all = q.to; v4 = p.source; v6 = q.source }

pub FamilyCounts-sums :
    (m : Platform) (four six : List ℕ) (v : ℕ)
    → IsPlatform m
    → All (IsState m) four
    → All (IsState m) six
    → m.state_first ≤ v
    → v ≤ m.state_last
    → FamilyCounts m (summed m four six) four six v
FamilyCounts-sums m four six v p good4 good6 lo hi =
    let a = sum_counters-IsAdded m four zeros v p good4 refl lo hi in
    let to = (sum_counters m zeros (tally_states zeros four)).to in
    let b = sum_counters-IsAdded m six to v p good6 a.size lo hi in
    let start = get_or-zeros v in
    let start_total = get_or-zeros m.index_total in
    record {
      v4_is = a.source_is;
      v6_is = b.source_is;
      all_is = omega (arith, a.to_is, b.to_is);
      v4_total = a.source_total_is;
      v6_total = b.source_total_is;
      all_total = omega (arith, a.to_total_is, b.to_total_is);
    }
