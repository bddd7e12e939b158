-- ===== src/Tcp/Reader/Reads.antt =====
-- What one read of a file gives, and the parts of a buffer.

use ustat.Base.{
  ℕ, zero, suc, ◌≤◌, ◌<◌, Bytes, false, pos, is_pos, [], ◌∷◌, ◌++◌, append_assoc, ◌≡◌, inl, inr,
  refl, sym, ap, ◌∙◌, arith, Bool-cases, leb, length, drop, take, get_or, length-take, length-drop,
  take-append-drop,
}
use ustat.Io.{Fd, chunk, fails, sys_read, content}

content-chunk : (b : Bytes) (fd : Fd) → 0 < length b → content (chunk b ∷ fd) ≡ b ++ content fd
content-chunk [] fd h = absurd (omega arith)
content-chunk (c ∷ b) fd h = refl

-- A read of at least one byte, of a file that has one.
pub sys_read-cons :
    (m : ℕ) (fd : Fd) (c : ℕ) (rest : Bytes)
    → content fd ≡ c ∷ rest
    → (b : Bytes) × (left : Fd) × (sys_read (suc m) fd
        ≡ record { ret = pos (suc (length b)); bytes = c ∷ b; left = left })
      × (b ++ content left ≡ rest)
      × (length b ≤ m)
unfolding sys_read
sys_read-cons m [] c rest e = cc
sys_read-cons m (fails ∷ fd) c rest e = cc
sys_read-cons m (chunk [] ∷ fd) c rest e = cc
sys_read-cons m (chunk (x ∷ b) ∷ fd) c rest e = elim (Bool-cases (leb (length (x ∷ b)) (suc m))) [
  | inl h ↦ (b, fd, ground arith, cc, ground arith)
  | inr h ↦
      let long : m < length b = ground arith in
      let split : take m b ++ content (chunk (drop m b) ∷ fd) ≡ rest =
        ap (◌++◌ (take m b)) (content-chunk (drop m b) fd (omega (arith, length-drop m b)))
        ∙ sym (append_assoc (take m b) (drop m b) (content fd))
        ∙ ap (λ z. z ++ content fd) (take-append-drop m b)
        ∙ cc in
      (
        take m b,
        chunk (drop m b) ∷ fd,
        ground (arith, length-take m b),
        split,
        omega (arith, length-take m b, long),
      )
]

pub sys_read-nil : (m : ℕ) (fd : Fd) → content fd ≡ [] → is_pos (sys_read (suc m) fd).ret ≡ false
unfolding sys_read
sys_read-nil m [] e = refl
sys_read-nil m (fails ∷ fd) e = refl
sys_read-nil m (chunk [] ∷ fd) e = ground arith
sys_read-nil m (chunk (x ∷ b) ∷ fd) e = cc

pub drop-cons : (xs : Bytes) (i : ℕ) → i < length xs → drop i xs ≡ get_or xs i 0 ∷ drop (suc i) xs
drop-cons [] i h = absurd (omega arith)
drop-cons (x ∷ xs) zero h = refl
drop-cons (x ∷ xs) (suc i) h = drop-cons xs i (omega arith)

pub get_or-take : (xs : Bytes) (i n : ℕ) → i < n → get_or (take n xs) i 0 ≡ get_or xs i 0
get_or-take xs i zero h = absurd (omega arith)
get_or-take [] i (suc n) h = refl
get_or-take (x ∷ xs) zero (suc n) h = refl
get_or-take (x ∷ xs) (suc i) (suc n) h = get_or-take xs i n (omega arith)

pub drop_all : (xs : Bytes) (n : ℕ) → length xs ≤ n → drop n xs ≡ []
drop_all [] zero h = refl
drop_all [] (suc n) h = refl
drop_all (x ∷ xs) zero h = absurd (omega arith)
drop_all (x ∷ xs) (suc n) h = drop_all xs n (omega arith)
