-- ===== src/Users/Names.antt =====
-- The names of users as `nusers_init` stores and compares them.
use ustat.Base.{
  true, ℕ, zero, suc, ◌-◌, ◌<◌, ◌≤◌, Bytes, [], ◌∷◌, ◌++◌, some, ◌≡◌, refl, sym, ◌∙◌, ap, ltb,
  if◌then◌else◌, length, take, drop, replicate, length-replicate, Lacks, arith, append_assoc,
  take-append-drop, length-append, Bool-cases, inl, inr, take-append_length, length-take, ltb→lt,
  ltb_false→le,
}
use ustat.Djb.{Djb, text, same_bytes, starts_with}
use ustat.Io.{store_all, store_all_in}
use ustat.Users.Distinct.{same_bytes_comm}
use ustat.Users.{NameT, compared, name_t_cmp, name_t_cmp_at_most}

-- A text that fits into the field, with a zero byte behind it.
unfoldable pub Fits : ℕ → Bytes → Type 0
Fits n s = Lacks 0 s × (length s < n)

-- What the program stores for a name, in memory that was zero.
abbrev pub name_of : ℕ → Bytes → NameT
name_of n s = record { len = length s; s = text s (replicate (n - suc (length s)) 0) }

drop-replicate :
    (k n : ℕ) → k < n → ◌≡◌ {A = Bytes} (drop k (replicate n 0)) (0 ∷ replicate (n - suc k) 0)
drop-replicate k zero h = absurd (omega arith)
drop-replicate zero (suc n) h =
    let one : n ≡ suc n - 1 = omega arith in ap (λ k. 0 ∷ replicate k 0) one
drop-replicate (suc k) (suc n) h =
    let same : n - suc k ≡ suc n - suc (suc k) = omega arith in
    drop-replicate k n (omega arith) ∙ ap (λ k'. 0 ∷ replicate k' 0) same

Lacks-take : (n : ℕ) (s : Bytes) → Lacks 0 s → Lacks 0 (take n s)
Lacks-take zero s h = tt
Lacks-take (suc n) [] h = tt
Lacks-take (suc n) (c ∷ s) (hc, h) = (hc, Lacks-take n s h)

same_bytes-take : (s t : Bytes) → same_bytes s (take (length s) t) ≡ starts_with t s
same_bytes-take [] t = refl
same_bytes-take (b ∷ s) [] = refl
same_bytes-take (b ∷ s) (c ∷ t) = let ih = same_bytes-take s t in ground (arith, ih)

module _ (d : Djb) (n : ℕ) where
  pub store-name_of :
      (s rest : Bytes)
      → Fits n s
      → store_all (replicate n 0) (d.byte_copy (length s) (text s rest)) ≡ some ((name_of n s).s)
  unfolding Fits
  store-name_of s rest (clean, small) =
      let long : ◌≡◌ {A = ℕ} (length {A = ℕ} (replicate n 0)) n = length-replicate n 0 in
      let copied : d.byte_copy (length s) (text s rest) ≡ s =
        d.byte_copy-take (length s) (text s rest) (rw (length-append s (0 ∷ rest)) (omega arith))
        ∙ take-append_length s (0 ∷ rest) in
      rw copied (
        store_all_in (replicate n 0) s (rw long (omega arith))
        ∙ rw (drop-replicate (length s) n small) refl)

  pub same_name :
      (s t : Bytes)
      → Fits n s
      → Fits n t
      → d.str_equaln (name_of n s).s (name_of n t).s n ≡ same_bytes s t
  unfolding Fits
  same_name s t (hs, ks) (ht, kt) = d.str_equaln-text s t _ _ n hs ht ks kt

  front_equal :
      (s t r q : Bytes)
      → Lacks 0 s
      → Lacks 0 t
      → length s ≤ length t
      → d.str_equaln (s ++ r) (t ++ q) (length s) ≡ starts_with t s
  front_equal s t r q hs ht h =
      let t_is : t ++ q ≡ take (length s) t ++ (drop (length s) t ++ q) =
        ap (λ x. x ++ q) (sym (take-append-drop (length s) t))
        ∙ append_assoc (take (length s) t) (drop (length s) t) q in
      ap (λ x. d.str_equaln (s ++ r) x (length s)) t_is
      ∙ d.str_equaln-append s (take (length s) t) r (drop (length s) t ++ q) (length s) hs
          (Lacks-take (length s) t ht) refl (length-take (length s) t h)
      ∙ same_bytes-take s t

  back_equal :
      (s t r q : Bytes)
      → Lacks 0 s
      → Lacks 0 t
      → length t ≤ length s
      → d.str_equaln (s ++ r) (t ++ q) (length t) ≡ starts_with s t
  back_equal s t r q hs ht h =
      let s_is : s ++ r ≡ take (length t) s ++ (drop (length t) s ++ r) =
        ap (λ x. x ++ r) (sym (take-append-drop (length t) s))
        ∙ append_assoc (take (length t) s) (drop (length t) s) r in
      ap (λ x. d.str_equaln x (t ++ q) (length t)) s_is
      ∙ d.str_equaln-append (take (length t) s) t (drop (length t) s ++ r) q (length t)
          (Lacks-take (length t) s hs) ht (length-take (length t) s h) refl
      ∙ same_bytes_comm (take (length t) s) t
      ∙ same_bytes-take t s

  -- Two names that the comparison takes for the same: one is a prefix of the other.
  pub name_t_cmp-prefix :
      (s t : Bytes)
      → Fits n s
      → Fits n t
      → name_t_cmp d (name_of n s) (name_of n t)
        ≡ (if ltb (length s) (length t) then starts_with t s else starts_with s t)
  unfolding name_t_cmp Fits
  name_t_cmp-prefix s t (hs, ks) (ht, kt) = elim (Bool-cases (ltb (length s) (length t))) [
    | inl e ↦
        rw (e, name_t_cmp)
          (front_equal s t _ _ hs ht (omega (arith, ltb→lt (length s) (length t) e)))
    | inr e ↦ rw (e, name_t_cmp) (back_equal s t _ _ hs ht (ltb_false→le (length s) (length t) e))
  ]

  compared_comm : (a b : NameT) → compared a b ≡ compared b a
  compared_comm a b = ground arith

  -- Names of which neither is smaller compare as equal.
  pub name_t_cmp_at_most-name_t_cmp :
      (a b : NameT)
      → name_t_cmp_at_most d a b ≡ true
      → name_t_cmp_at_most d b a ≡ true
      → name_t_cmp d a b ≡ true
  unfolding name_t_cmp name_t_cmp_at_most
  name_t_cmp_at_most-name_t_cmp a b h k =
      d.str_at_mostn-str_equaln a.s b.s (compared a b) h
        (ap (d.str_at_mostn b.s a.s) (compared_comm a b) ∙ k)
