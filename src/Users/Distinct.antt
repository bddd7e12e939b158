-- ===== src/Users/Distinct.antt =====
-- How many different texts a list has.
use mathlib.Core.List.{Permᴰ}
use mathlib.Core.List.Permᴰ.{nil, cons, swap, trans}
use ustat.Base.{
  ℕ, suc, Bool, true, false, ◌||◌, Bytes, List, [], ◌∷◌, ◌≡◌, refl, sym, ◌∙◌, ap, if◌then◌else◌,
  All, arith, Bool-cases, inl, inr,
}
use ustat.Djb.{same_bytes}

pub same_bytes-eq : (s t : Bytes) → same_bytes s t ≡ true → s ≡ t
same_bytes-eq [] [] h = refl
same_bytes-eq [] (c ∷ t) h = ground arith
same_bytes-eq (b ∷ s) [] h = ground arith
same_bytes-eq (b ∷ s) (c ∷ t) h =
    let heads : b ≡ c = ground arith in
    let tails : same_bytes s t ≡ true = ground arith in rw (heads, same_bytes-eq s t tails) refl

pub same_bytes_refl : (s : Bytes) → same_bytes s s ≡ true
same_bytes_refl [] = refl
same_bytes_refl (b ∷ s) = let ih = same_bytes_refl s in ground (arith, ih)

pub same_bytes_comm : (s t : Bytes) → same_bytes s t ≡ same_bytes t s
same_bytes_comm [] [] = refl
same_bytes_comm [] (c ∷ t) = refl
same_bytes_comm (b ∷ s) [] = refl
same_bytes_comm (b ∷ s) (c ∷ t) = let ih = same_bytes_comm s t in ground (arith, ih)

-- The text is one of the list.
unfoldable pub member : Bytes → List Bytes → Bool
member s [] = false
member s (t ∷ ts) = same_bytes s t || member s ts

-- The number of different texts: each counts where it stands for the last time.
unfoldable pub distinct : List Bytes → ℕ
unfolding member
distinct [] = 0
distinct (s ∷ ts) = let rest = distinct ts in if member s ts then rest else suc rest

pub All-member :
    (P : Bytes → Type 0) (s : Bytes) (ts : List Bytes) → All P ts → member s ts ≡ true → P s
unfolding member
All-member P s [] hs h = ground arith
All-member P s (t ∷ ts) (now, hs) h = elim (Bool-cases (same_bytes s t)) [
  | inl e ↦ rw (same_bytes-eq s t e) now
  | inr e ↦ All-member P s ts hs (ground arith)
]

or_swap : (a b c : Bool) → a || (b || c) ≡ b || (a || c)
or_swap a b c = ground arith

pub member-Perm : (s : Bytes) {ts us : List Bytes} → Permᴰ ts us → member s ts ≡ member s us
unfolding member
member-Perm s nil = refl
member-Perm s (cons e p) = let ih = member-Perm s p in rw (e, ih) refl
member-Perm s (swap {a' = a'} {b' = b'} {l = l} e f) =
    rw (e, f) (or_swap (same_bytes s b') (same_bytes s a') (member s l))
member-Perm s (trans p q) = member-Perm s p ∙ member-Perm s q

swap_counts :
    (s m n : Bool) (k : ℕ)
    → (s ≡ true → m ≡ n)
    → (if s || m then (if n then k else suc k) else suc (if n then k else suc k))
      ≡ (if s || n then (if m then k else suc k) else suc (if m then k else suc k))
swap_counts true m n k h = rw (h refl) refl
swap_counts false true true k h = refl
swap_counts false true false k h = refl
swap_counts false false true k h = refl
swap_counts false false false k h = refl

-- The order of a list does not matter.
pub distinct-Perm : {ts us : List Bytes} → Permᴰ ts us → distinct ts ≡ distinct us
unfolding distinct
distinct-Perm nil = refl
distinct-Perm (cons {b = b} e p) = let ih = distinct-Perm p in rw (e, member-Perm b p, ih) refl
distinct-Perm (swap {b = b} {a' = a'} {b' = b'} {l = l} e f) =
    let same = same_bytes_comm b' a' in
    ap (λ x. distinct (x ∷ b ∷ l)) e
    ∙ ap (λ x. distinct (b' ∷ x ∷ l)) f
    ∙ rw same (
        swap_counts (same_bytes a' b') (member b' l) (member a' l) (distinct l)
          (λ h. ap (λ x. member x l) (sym (same_bytes-eq a' b' h))))
distinct-Perm (trans p q) = distinct-Perm p ∙ distinct-Perm q
