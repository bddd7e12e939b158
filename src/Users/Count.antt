-- ===== src/Users/Count.antt =====
-- The number of users that are logged in.
use mathlib.Core.List.{Permᴰ}
use mathlib.Core.Path.{subst}
use ustat.Base.{
  ℕ, suc, ◌<◌, ◌≤◌, Bool, true, Bytes, List, [], ◌∷◌, some, ◌≡◌, refl, sym, ◌∙◌, ap, leb,
  if◌then◌else◌, pos, negsuc, length, replicate, length-replicate, map, All, arith, Bool-cases, inl,
  inr,
}
use ustat.Djb.{Djb, text, same_bytes}
use ustat.Users.Distinct.{member, distinct, same_bytes_refl, All-member, member-Perm, distinct-Perm}
use ustat.Users.Names.{Fits, name_of, store-name_of, same_name}
use ustat.Users.Sorted.{
  IsGrouped, IsOrdered, IsPrefixFree, All-of_member, Perm-map, ordered-IsGrouped,
}
use ustat.Users.{
  Utmpx, NameT, count_users, collect_names, name_t_cmp, count_runs, count_names, nusers_init,
}

-- An entry of the user database, by the name and what stands behind it in the field.
pub record Login : Type 0 where
  pub active : Bool
  pub name : Bytes
  pub behind : Bytes

abbrev pub utmpx_of : Login → Utmpx
utmpx_of l = record { is_user_process = l.active; ut_user = text l.name l.behind }

-- The names of the entries of users, from the first to the last.
abbrev pub names : List Login → List Bytes
names [] = []
names (l ∷ ls) = if l.active then l.name ∷ names ls else names ls

count_users-names : (ls : List Login) → count_users (map utmpx_of ls) ≡ length (names ls)
unfolding count_users
count_users-names [] = refl
count_users-names (l ∷ ls) = elim (Bool-cases l.active) [
  | inl e ↦ rw e (ap suc (count_users-names ls))
  | inr e ↦ rw e (count_users-names ls)
]

distinct_few : (ts : List Bytes) → length ts ≤ 1 → distinct ts ≡ length ts
unfolding distinct member
distinct_few [] h = refl
distinct_few (t ∷ []) h = refl
distinct_few (t ∷ u ∷ ts) h = absurd (omega arith)

module _ (d : Djb) (n : ℕ) where
  collect_names-names :
      (ls : List Login)
      → All (λ l. Fits n l.name) ls
      → collect_names d (replicate n 0) (map utmpx_of ls) ≡ some (map (name_of n) (names ls))
  unfolding collect_names Fits
  collect_names-names [] hs = refl
  collect_names-names (l ∷ ls) ((clean, small), hs) = elim (Bool-cases l.active) [
    | inl e ↦
        rw
          (
            e,
            d.str_len-text l.name l.behind clean,
            store-name_of d n l.name l.behind (clean, small),
            collect_names-names ls hs,
            d.str_len-text l.name l.behind clean,
            collect_names,
          )
          refl
    | inr e ↦ rw (e, collect_names) (collect_names-names ls hs)
  ]

  count_runs-distinct :
      (s : Bytes) (ts : List Bytes)
      → All (Fits n) (s ∷ ts)
      → IsGrouped (s ∷ ts)
      → suc (count_runs d n (name_of n s) (map (name_of n) ts)) ≡ distinct (s ∷ ts)
  unfolding count_runs distinct member IsGrouped
  count_runs-distinct s [] hs g = refl
  count_runs-distinct s (t ∷ ts) (hs, (ht, hts)) (now, g) =
      let ih = count_runs-distinct t ts (ht, hts) g in
      elim (Bool-cases (same_bytes s t)) [
        | inl e ↦ rw (same_name d n s t hs ht, now, e) ih
        | inr e ↦ rw (same_name d n s t hs ht, now, e) (ap suc ih)
      ]

  count_sorted :
      (ts us : List Bytes)
      → Permᴰ ts us
      → 0 < length ts
      → All (Fits n) us
      → IsGrouped us
      → count_names d n (map (name_of n) us) ≡ distinct us
  unfolding count_names member
  count_sorted [] [] p h hs g = absurd (omega arith)
  count_sorted (t ∷ ts) [] p h hs g =
      let there = member-Perm t p in let yes = same_bytes_refl t in ground arith
  count_sorted ts (u ∷ us) p h hs g = count_runs-distinct u us hs g

  names-Fits : (ls : List Login) → All (λ l. Fits n l.name) ls → All (Fits n) (names ls)
  names-Fits [] hs = tt
  names-Fits (l ∷ ls) (h, hs) = elim (Bool-cases l.active) [
    | inl e ↦ rw e (h, names-Fits ls hs)
    | inr e ↦ rw e (names-Fits ls hs)
  ]

  -- The user database has the logins, whose names are C strings that are shorter than the field, and
  -- the memory of the names is zero. qsort(3) gives the names in an order in which `name_t_cmp` says
  -- of no two that the later one is smaller, where `at_most` is that it does not say so; two names of
  -- which neither is smaller compare as equal. No name is a proper prefix of another. Then the first
  -- start counts the different names.
  pub nusers_init-distinct :
      (qsort : List NameT → List NameT) (at_most : NameT → NameT → Bool) (ls : List Login) (k : ℕ)
      → All (λ l. Fits n l.name) ls
      → Permᴰ (map (name_of n) (names ls)) (qsort (map (name_of n) (names ls)))
      → IsOrdered at_most (qsort (map (name_of n) (names ls)))
      → ((a b : NameT) → at_most a b ≡ true → at_most b a ≡ true → name_t_cmp d a b ≡ true)
      → IsPrefixFree (names ls)
      → nusers_init d qsort (replicate n 0) (map utmpx_of ls) (negsuc k)
        ≡ some (pos (distinct (names ls)))
  unfolding nusers_init distinct
  nusers_init-distinct qsort at_most ls k hs perm ordered same free =
      let users = count_users-names ls in
      elim (Bool-cases (leb (count_users (map utmpx_of ls)) 1)) [
        | inl few ↦
            let short : length (names ls) ≤ 1 = ground arith in
            rw (few, nusers_init)
              (ap (λ c. some (pos c)) (users ∙ sym (distinct_few (names ls) short)))
        | inr many ↦
            let (ts, sorted_is, p) = Perm-map (name_of n) perm (names ls) refl in
            let members =
              All-of_member (λ s. member s (names ls) ≡ true) ts (λ s m. member-Perm s p ∙ m) in
            let fits =
              All-of_member (Fits n) ts (λ s m.
                All-member (Fits n) s (names ls) (names-Fits ls hs) (member-Perm s p ∙ m)) in
            let grouped =
              ordered-IsGrouped d n at_most same (names ls) free ts fits members
                (subst (IsOrdered at_most) sorted_is ordered) in
            let positive : 0 < length (names ls) = ground arith in
            let counted = count_sorted (names ls) ts p positive fits grouped in
            rw (many, collect_names-names ls hs, nusers_init)
              (rw (length-replicate, sorted_is)
                (ap (λ c. some (pos c)) (counted ∙ sym (distinct-Perm p))))
      ]
