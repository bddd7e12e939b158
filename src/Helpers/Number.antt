-- ===== src/Helpers/Number.antt =====
-- The loops of `read_double_from_fd` on blanks, digits and a point.
pub mod Blanks
pub mod Amount
use native.Mathlib.Nat.{pow-succ'}
use ustat.Base.{
  if◌then◌else◌, ltb, lt→ltb, ◌||◌, ◌⊎◌, some, Bool, ◌==◌, ==_iff, ◌*◌, ◌%◌, ◌^◌, ◌-◌, zero, suc,
  All, length, leb, false, true, ◌==◌, Bool-cases, inl, inr, sym, ℕ, ◌+◌, ◌<◌, ◌≤◌, Bytes, [], ◌∷◌,
  ◌++◌, ◌≡◌, refl, ap, ◌∙◌, arith, u64_mod, pos,
}
use ustat.Helpers.Fields.{one_byte}
use ustat.Decimal.{IsDigit, value}
use ustat.Double.{Double}
use ustat.Helpers.{
  read_double_from_fd, skip_blanks, signed, read_number, ends, is_digit, decimal_loop,
  fraction_loop, DoubleReader, next_char,
}
use ustat.Io.{Fd, chunk, fails, content, sys_read}

-- The bytes that are not consumed yet are `s`, the character at hand first, and `p` were read.
record At (r : DoubleReader) (s : Bytes) (p : ℕ) : Type 0 where
  ahead : r.c ∷ content r.file ≡ s
  pos_is : r.pos ≡ p

first_byte :
    (fd : Fd) (c : ℕ) (t : Bytes)
    → content fd ≡ c ∷ t
    → ((sys_read 1 fd).ret ≡ pos 1)
      × ((sys_read 1 fd).bytes ≡ c ∷ [])
      × (content (sys_read 1 fd).left ≡ t)
first_byte [] c t e = cc
first_byte (fails ∷ fd) c t e = cc
first_byte (chunk [] ∷ fd) c t e = cc
first_byte (chunk (x ∷ b) ∷ fd) c t e =
    let (left, ret_is, bytes_is, left_is, same) = one_byte x b fd in
    let head : x ≡ c = cc in
    let tail : b ++ content fd ≡ t = cc in
    (ret_is, bytes_is ∙ rw head refl, ap content left_is ∙ same ∙ tail)

next_char-content :
    (r : DoubleReader) (c : ℕ) (t : Bytes) (p : ℕ)
    → content r.file ≡ c ∷ t
    → r.pos ≡ p
    → p + 1 < u64_mod
    → At (next_char r) (c ∷ t) (p + 1)
unfolding next_char
next_char-content r c t p e pos_is small =
    let (ret_is, bytes_is, left_is) = first_byte r.file c t e in
    rw (ret_is, bytes_is, pos_is, next_char)
      (record { ahead = rw left_is refl; pos_is = omega arith })

next_char-At :
    (r : DoubleReader) (a c : ℕ) (t : Bytes) (p : ℕ)
    → At r (a ∷ c ∷ t) p
    → p + 1 < u64_mod
    → At (next_char r) (c ∷ t) (p + 1)
next_char-At r a c t p h small =
    let e : content r.file ≡ c ∷ t = let whole = h.ahead in cc in
    next_char-content r c t p e h.pos_is small

next_char-append :
    (r : DoubleReader) (a x : ℕ) (ds s : Bytes) (p : ℕ)
    → At r (a ∷ (ds ++ x ∷ s)) p
    → p + 1 < u64_mod
    → At (next_char r) (ds ++ x ∷ s) (p + 1)
next_char-append r a x [] s p h small = next_char-At r a x s p h small
next_char-append r a x (d ∷ ds) s p h small = next_char-At r a d (ds ++ x ∷ s) p h small

value-mod : (n : ℕ) (ds : Bytes) → value (n % u64_mod) ds % u64_mod ≡ value n ds % u64_mod
value-mod n [] = omega arith
value-mod n (c ∷ ds) =
    let d = c - b'0' in
    let same : (n % u64_mod * 10 + d) % u64_mod ≡ (n * 10 + d) % u64_mod = omega arith in
    sym (value-mod (n % u64_mod * 10 + d) ds)
    ∙ ap (λ m. value m ds % u64_mod) same
    ∙ value-mod (n * 10 + d) ds

mul-mod_keep : (a q : ℕ) → a % u64_mod * q % u64_mod ≡ a * q % u64_mod
mul-mod_keep a zero = omega arith
mul-mod_keep a (suc q) = omega (arith, mul-mod_keep a q)

digit_step :
    (k n : ℕ) (r : DoubleReader) (d : ℕ)
    → r.c ≡ d
    → IsDigit d
    → decimal_loop (suc k) n r ≡ decimal_loop k ((n * 10 + (d - b'0')) % u64_mod) (next_char r)
unfolding decimal_loop
digit_step k n r d c_is digit =
    let positive : leb 128 r.c ≡ false = ground arith in
    let inside : is_digit r.c ≡ true = ground arith in
    rw (positive, inside, decimal_loop)
      (ap (λ c. decimal_loop k ((n * 10 + (c - b'0')) % u64_mod) (next_char r)) c_is)

fraction_step :
    (k n l : ℕ) (r : DoubleReader) (d : ℕ)
    → r.c ≡ d
    → IsDigit d
    → fraction_loop (suc k) n l r
      ≡ fraction_loop k ((n * 10 + (d - b'0')) % u64_mod) (l * 10 % u64_mod) (next_char r)
unfolding fraction_loop
fraction_step k n l r d c_is digit =
    let positive : leb 128 r.c ≡ false = ground arith in
    let inside : is_digit r.c ≡ true = ground arith in
    rw (positive, inside, fraction_loop)
      (ap (λ c. fraction_loop k ((n * 10 + (c - b'0')) % u64_mod) (l * 10 % u64_mod) (next_char r))
        c_is)

decimal_loop-value :
    (ds : Bytes) (k n p y : ℕ) (r : DoubleReader) (s : Bytes)
    → All IsDigit ds
    → At r (ds ++ b'.' ∷ y ∷ s) p
    → length ds < k
    → n < u64_mod
    → p + (length ds + 1) < u64_mod
    → (r' : DoubleReader) × (decimal_loop k n r ≡ ends (value n ds % u64_mod) 1 r')
      × At r' (y ∷ s) (p + (length ds + 1))
unfolding decimal_loop
decimal_loop-value ds zero n p y r s digits h fuel low small = absurd (omega arith)
decimal_loop-value [] (suc k) n p y r s digits h fuel low small =
    let c_is : r.c ≡ b'.' = let whole = h.ahead in cc in
    let point : (r.c == b'.') ≡ true = (==_iff r.c b'.').1 c_is in
    let positive : leb 128 r.c ≡ false = ground arith in
    let outside : is_digit r.c ≡ false = ground arith in
    let low_is : n % u64_mod ≡ n = omega arith in
    (
      next_char r,
      rw (positive, outside, point, low_is, decimal_loop) refl,
      next_char-At r b'.' y s p h (omega arith),
    )
decimal_loop-value (d ∷ ds) (suc k) n p y r s (digit, digits) h fuel low small =
    let c_is : r.c ≡ d = let whole = h.ahead in cc in
    let n' = n * 10 + (d - b'0') in
    let (r', e, at) =
      decimal_loop-value ds k (n' % u64_mod) (p + 1) y (next_char r) s digits
        (next_char-append r d b'.' ds (y ∷ s) p h (omega arith)) (omega arith) (omega arith)
        (omega arith) in
    let sum : p + 1 + (length ds + 1) ≡ p + (suc (length ds) + 1) = omega arith in
    (r', digit_step k n r d c_is digit ∙ e ∙ ap (λ m. ends m 1 r') (value-mod n' ds), rw (← sum) at)

fraction_loop-value :
    (es : Bytes) (k n l p x : ℕ) (r : DoubleReader) (s : Bytes)
    → All IsDigit es
    → (IsDigit x → ⊥)
    → At r (es ++ x ∷ s) p
    → length es < k
    → n < u64_mod
    → l < u64_mod
    → p + length es < u64_mod
    → (r' : DoubleReader) × (fraction_loop k n l r
        ≡ ends (value n es % u64_mod) (l * 10 ^ length es % u64_mod) r')
      × At r' (x ∷ s) (p + length es)
unfolding fraction_loop
fraction_loop-value es zero n l p x r s digits other h fuel low low' small = absurd (omega arith)
fraction_loop-value [] (suc k) n l p x r s digits other h fuel low low' small =
    let c_is : r.c ≡ x = let whole = h.ahead in cc in
    let outside : is_digit r.c ≡ false = ground arith in
    let low_is : n % u64_mod ≡ n = omega arith in
    let low_is' : l * 1 % u64_mod ≡ l = omega arith in
    let sum : p + 0 ≡ p = omega arith in
    (
      r,
      elim (Bool-cases (leb 128 r.c)) [
        | inl e ↦ rw (e, low_is, low_is', fraction_loop) refl
        | inr e ↦ rw (e, outside, low_is, low_is', fraction_loop) refl
      ],
      rw sum h,
    )
fraction_loop-value (d ∷ es) (suc k) n l p x r s (digit, digits) other h fuel low low' small =
    let c_is : r.c ≡ d = let whole = h.ahead in cc in
    let n' = n * 10 + (d - b'0') in
    let (r', e, at) =
      fraction_loop-value es k (n' % u64_mod) (l * 10 % u64_mod) (p + 1) x (next_char r) s digits
        other (next_char-append r d x es s p h (omega arith)) (omega arith) (omega arith)
        (omega arith) (omega arith) in
    let sum : p + 1 + length es ≡ p + suc (length es) = omega arith in
    let scale : l * 10 % u64_mod * 10 ^ length es % u64_mod ≡ l * 10 ^ suc (length es) % u64_mod =
      mul-mod_keep (l * 10) (10 ^ length es) ∙ rw (pow-succ' 10 (length es)) (omega arith) in
    (
      r',
      fraction_step k n l r d c_is digit
          ∙ e
          ∙ ap (λ m. ends m (l * 10 % u64_mod * 10 ^ length es % u64_mod) r') (value-mod n' es)
          ∙ ap (λ q. ends (value n' es % u64_mod) q r') scale,
      rw (← sum) at,
    )
