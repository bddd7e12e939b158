-- ===== src/Helpers/Number/Amount.antt =====
-- The number that `read_double_from_fd` stores.
use ustat.Base.{
  if◌then◌else◌, some, Bool, ◌==◌, ==_iff, ◌*◌, ◌%◌, ◌^◌, All, length, false, true, ℕ, ◌+◌, ◌<◌,
  ◌≤◌, Bytes, [], ◌∷◌, ◌++◌, ◌≡◌, refl, ap, ◌∙◌, arith, u64_mod,
}
use ustat.Decimal.{IsDigit, value}
use ustat.Double.{Double}
use ustat.Helpers.{read_double_from_fd, skip_blanks, signed, read_number, DoubleReader, next_char}
use ustat.Io.{Fd, content}
use ustat.Helpers.Number.Blanks.{IsBlank, skip_blanks-At, first_of_number, first_of}
use ustat.Helpers.Number.{
  At, next_char-append, next_char-At, decimal_loop-value, fraction_loop-value,
}

abbrev pub sign : Bool → Bytes
sign true = b'-' ∷ []
sign false = []

length-sign : (minus : Bool) → length (sign minus) ≤ 1
length-sign true = omega arith
length-sign false = omega arith

-- The state behind the blanks and the sign.
behind_sign :
    (bs ds t : Bytes) (k : ℕ) (minus : Bool) (fd : Fd)
    → All IsBlank bs
    → All IsDigit ds
    → content fd ≡ bs ++ (sign minus ++ (ds ++ b'.' ∷ t))
    → length bs < k
    → length bs + 2 < u64_mod
    → (r : DoubleReader) × (r' : DoubleReader) × (skip_blanks k
          (next_char (record { c = 0; pos = 0; file = fd }))
        ≡ some r)
      × ((r.c == b'-') ≡ minus)
      × ((if minus then next_char r else r) ≡ r')
      × At r' (ds ++ b'.' ∷ t) (1 + length bs + length (sign minus))
behind_sign bs ds t k true fd blanks digits whole fuel small =
    let start =
      next_char-append (record { c = 0; pos = 0; file = fd }) 0 b'-' bs (ds ++ b'.' ∷ t) 0
        (record { ahead = ap (λ s. 0 ∷ s) whole; pos_is = refl }) (omega arith) in
    let (r, e, at) =
      skip_blanks-At bs k 1 b'-' _ (ds ++ b'.' ∷ t) blanks (ground arith) start (omega arith) fuel
        (omega arith) in
    let (y, s, same, _, _) = first_of_number ds t digits in
    let c_is : r.c ≡ b'-' = let a = at.ahead in cc in
    let next = next_char-At r b'-' y s (1 + length bs) (rw same at at) (omega arith) in
    (r, next_char r, e, (==_iff r.c b'-').1 c_is, refl, rw same next)
behind_sign bs ds t k false fd blanks digits whole fuel small =
    let (y, s, same, other, plus) = first_of_number ds t digits in
    let start =
      next_char-append (record { c = 0; pos = 0; file = fd }) 0 y bs s 0
        (record { ahead = ap (λ s. 0 ∷ s) (whole ∙ ap (λ u. bs ++ u) same); pos_is = refl })
        (omega arith) in
    let (r, e, at) =
      skip_blanks-At bs k 1 y _ s blanks other start (omega arith) fuel (omega arith) in
    let c_is : r.c ≡ y = let a = at.ahead in cc in
    let none_more : 1 + length bs + 0 ≡ 1 + length bs = omega arith in
    (r, r, e, ap (λ c. c == b'-') c_is ∙ plus, refl, rw (same, none_more) at)

module _ {D : Type 0} (f : Double D) where
  -- The number of the digits in front of the point, and that of those behind it over its power of
  -- ten.
  abbrev pub amount : Bytes → Bytes → D
  amount ds es = f.add (f.of_u64 (value 0 ds % u64_mod)) (
      f.mul (f.of_u64 (value 0 es % u64_mod))
        (f.div (f.of_u64 1) (f.of_u64 (10 ^ length es % u64_mod))))

  read_number-amount :
      (ds es rest : Bytes) (k p x : ℕ) (minus : Bool) (r : DoubleReader)
      → All IsDigit ds
      → All IsDigit es
      → (IsDigit x → ⊥)
      → At r (ds ++ b'.' ∷ (es ++ x ∷ rest)) p
      → length ds + length es < k
      → p + (length ds + 1) + length es < u64_mod
      → read_number f k minus r
        ≡ some (signed f minus (amount ds es) (p + (length ds + 1) + length es))
  unfolding read_number
  read_number-amount ds es rest k p x minus r digits digits' other h fuel small =
      let (y, t, same) = first_of es rest x in
      let (r', e, at) =
        decimal_loop-value ds k 0 p y r t digits (rw same at h) (omega arith) (omega arith)
          (omega arith) in
      let (r'', e', at') =
        fraction_loop-value es k 0 1 (p + (length ds + 1)) x r' rest digits' other
          (rw (← same) at at) (omega arith) (omega arith) (omega arith) small in
      let one : 1 * 10 ^ length es ≡ 10 ^ length es = omega arith in
      rw (e, e', at'.pos_is, one, read_number) refl

  -- A file with blanks, a sign or none, digits, a point, digits, and something else than a digit
  -- behind them, which is read in any pieces: with as much fuel as bytes `read_double_from_fd`
  -- stores the number of the digits in front of the point, plus that of the digits behind it over
  -- their power of ten, negated behind a sign. Each of the three is taken modulo 2 ^ 64 and made a
  -- double, so that this is not the number that is written where one of them is larger, as with
  -- twenty digits behind the point. It returns how many bytes it has read, the one behind the number
  -- among them.
  pub read_double_from_fd-amount :
      (bs ds es rest : Bytes) (k x : ℕ) (minus : Bool) (fd : Fd)
      → All IsBlank bs
      → All IsDigit ds
      → All IsDigit es
      → (IsDigit x → ⊥)
      → content fd ≡ bs ++ (sign minus ++ (ds ++ b'.' ∷ (es ++ x ∷ rest)))
      → length bs + length ds + length es < k
      → length bs + length ds + length es + 3 < u64_mod
      → read_double_from_fd f k fd
        ≡ some (
            signed f minus
              (amount ds es)
              (1 + length bs + length (sign minus) + (length ds + 1) + length es))
  unfolding read_double_from_fd
  read_double_from_fd-amount bs ds es rest k x minus fd blanks digits digits' other whole fuel
        small =
      let (r, r', e, sign_is, moved, at) =
        behind_sign bs ds (es ++ x ∷ rest) k minus fd blanks digits whole (omega arith)
          (omega arith) in
      let some_pos : (r'.pos == 0) ≡ false = (let q = at.pos_is in ground arith) in
      let number =
        read_number-amount ds es rest k (1 + length bs + length (sign minus)) x minus r' digits
          digits' other at (omega arith) (omega (arith, length-sign minus)) in
      rw (e, sign_is, moved, some_pos, read_double_from_fd) number
