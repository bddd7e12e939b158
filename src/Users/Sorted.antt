-- ===== src/Users/Sorted.antt =====
-- Names in the order of `name_t_cmp`.
use mathlib.Core.List.{Permᴰ}
use mathlib.Core.List.Permᴰ.{nil, cons, swap, trans}
use ustat.Base.{
  ℕ, Bool, true, Bytes, List, [], ◌∷◌, ◌≡◌, refl, sym, ◌∙◌, ap, ltb, length, map, All, arith,
  Bool-cases, inl, inr,
}
use ustat.Djb.{Djb, same_bytes, starts_with}
use ustat.Users.Distinct.{member, same_bytes-eq, same_bytes_refl, All-member}
use ustat.Users.Names.{Fits, name_of, name_t_cmp-prefix}
use ustat.Users.{NameT, name_t_cmp}

-- Equal names stand together.
unfoldable pub IsGrouped : List Bytes → Type 0
IsGrouped [] = Unit
IsGrouped (s ∷ []) = Unit
IsGrouped (s ∷ t ∷ ts) = (member s (t ∷ ts) ≡ same_bytes s t) × IsGrouped (t ∷ ts)

-- Each entry is at most those behind it.
unfoldable pub IsOrdered : (NameT → NameT → Bool) → List NameT → Type 0
IsOrdered at_most [] = Unit
IsOrdered at_most (a ∷ xs) = All (λ b. at_most a b ≡ true) xs × IsOrdered at_most xs

-- No name is a proper prefix of another.
unfoldable pub IsPrefixFree : List Bytes → Type 0
IsPrefixFree ts = All (λ a. All (λ b. starts_with b a ≡ true → a ≡ b) ts) ts

pub All-of_member :
    (P : Bytes → Type 0) (ts : List Bytes) → ((s : Bytes) → member s ts ≡ true → P s) → All P ts
unfolding member
All-of_member P [] h = tt
All-of_member P (t ∷ ts) h = (
  h t (rw (same_bytes_refl t) refl),
  All-of_member P ts (λ s m.
      h s (elim (Bool-cases (same_bytes s t)) [ inl e ↦ rw e refl | inr e ↦ rw (e, m) refl ])),
)

-- Another order of the images is the images in another order.
pub Perm-map :
    {A : Type 0} (f : Bytes → A) {xs bs : List A}
    → Permᴰ xs bs
    → (ts : List Bytes) → xs ≡ map f ts
    → (us : List Bytes) × (bs ≡ map f us) × Permᴰ ts us
Perm-map f nil [] e = ([], refl, nil)
Perm-map f nil (t ∷ ts) e = cc
Perm-map f (cons h p) [] e = cc
Perm-map f (cons h p) (t ∷ ts) e =
    let (us, e', p') = Perm-map f p ts cc in (t ∷ us, cc, cons refl p')
Perm-map f (swap h k) [] e = cc
Perm-map f (swap h k) (t ∷ []) e = cc
Perm-map f (swap h k) (t ∷ u ∷ ts) e = (u ∷ t ∷ ts, cc, swap refl refl)
Perm-map f (trans p q) ts e =
    let (us, e', p') = Perm-map f p ts e in
    let (vs, e'', q') = Perm-map f q us e' in (vs, e'', trans p' q')

module _ (d : Djb) (n : ℕ) (at_most : NameT → NameT → Bool)
    (same : (a b : NameT) → at_most a b ≡ true → at_most b a ≡ true → name_t_cmp d a b ≡ true)
    (all : List Bytes) (free : IsPrefixFree all) where
  not_prefix :
      (a b : Bytes) → member a all ≡ true → member b all ≡ true → starts_with b a ≡ true → a ≡ b
  unfolding IsPrefixFree
  not_prefix a b ma mb =
      All-member (λ y. starts_with y a ≡ true → a ≡ y) b all
        (All-member (λ x. All (λ y. starts_with y x ≡ true → x ≡ y) all) a all free ma) mb

  at_most-member :
      (a : NameT) (s : Bytes) (ts : List Bytes)
      → All (λ b. at_most a b ≡ true) (map (name_of n) ts)
      → member s ts ≡ true
      → at_most a (name_of n s) ≡ true
  unfolding member
  at_most-member a s [] hs m = ground arith
  at_most-member a s (t ∷ ts) (now, hs) m = elim (Bool-cases (same_bytes s t)) [
    | inl e ↦ rw (same_bytes-eq s t e) now
    | inr e ↦ at_most-member a s ts hs (ground arith)
  ]

  equal_names :
      (s t : Bytes)
      → Fits n s
      → Fits n t
      → member s all ≡ true
      → member t all ≡ true
      → at_most (name_of n s) (name_of n t) ≡ true
      → at_most (name_of n t) (name_of n s) ≡ true
      → s ≡ t
  equal_names s t hs ht ms mt st ts =
      let both = sym (name_t_cmp-prefix d n s t hs ht) ∙ same (name_of n s) (name_of n t) st ts in
      elim (Bool-cases (ltb (length s) (length t))) [
        | inl e ↦ not_prefix s t ms mt (rw e at both)
        | inr e ↦ sym (not_prefix t s mt ms (rw e at both))
      ]

  pub ordered-IsGrouped :
      (ts : List Bytes)
      → All (Fits n) ts
      → All (λ s. member s all ≡ true) ts
      → IsOrdered at_most (map (name_of n) ts)
      → IsGrouped ts
  unfolding IsGrouped IsOrdered member
  ordered-IsGrouped [] hs ms o = tt
  ordered-IsGrouped (s ∷ []) hs ms o = tt
  ordered-IsGrouped (s ∷ t ∷ ts) (hs, (ht, hts)) (ms, (mt, mts)) ((st, sts), (tts, o)) = (
    elim (Bool-cases (same_bytes s t)) [
      | inl e ↦ rw e refl
      | inr e ↦ elim (Bool-cases (member s ts)) [
        | inl m ↦
            let eq = equal_names s t hs ht ms mt st (at_most-member (name_of n t) s ts tts m) in
            let yes : same_bytes s t ≡ true = ap (same_bytes s) (sym eq) ∙ same_bytes_refl s in
            ground arith
        | inr m ↦ rw (e, m) refl
      ]
    ],
    ordered-IsGrouped (t ∷ ts) (ht, hts) (mt, mts) (tts, o),
  )
