-- ===== src/Helpers/Endless.antt =====
-- A number that ends with its file.
use ustat.Base.{
  some, ℕ, zero, suc, ◌+◌, ◌-◌, ◌*◌, ◌%◌, ◌<◌, true, false, Bytes, [], ◌∷◌, none, ◌==◌, leb, ◌≡◌,
  refl, ap, arith, All, u64_mod,
}
use ustat.Decimal.{IsDigit}
use ustat.Double.{Double}
use ustat.Helpers.{
  DoubleReader, next_char, runs, is_digit, skip_blanks, decimal_loop, read_number,
  read_double_from_fd,
}
use ustat.Io.{Fd, chunk, sys_read}

-- The state behind a byte, with the rest of the file.
abbrev at_byte : ℕ → ℕ → Fd → DoubleReader
at_byte c p fd = record { c = c; pos = p; file = fd }

end_of_file : (c p : ℕ) → p < u64_mod → next_char (at_byte c p []) ≡ at_byte c p []
unfolding next_char sys_read
end_of_file c p h =
    let stays : (p + 0) % u64_mod ≡ p = omega arith in ap (λ q. at_byte c q []) stays

decimal_loop_end :
    (k n c p : ℕ) → IsDigit c → p < u64_mod → decimal_loop k n (at_byte c p []) ≡ runs
unfolding decimal_loop
decimal_loop_end zero n c p digit h = refl
decimal_loop_end (suc k) n c p digit h =
    let ih = decimal_loop_end k ((n * 10 + (c - b'0')) % u64_mod) c p digit h in
    let positive : leb 128 c ≡ false = ground arith in
    let inside : is_digit c ≡ true = ground arith in
    rw (positive, inside, end_of_file c p h, ih) refl

-- One byte of a chunk: what is left of the file.
abbrev left_of : Bytes → Fd
left_of [] = []
left_of (c ∷ b) = chunk (c ∷ b) ∷ []

next_byte :
    (c p x : ℕ) (b : Bytes)
    → next_char (at_byte x p (chunk (c ∷ b) ∷ [])) ≡ at_byte c ((p + 1) % u64_mod) (left_of b)
unfolding next_char sys_read
next_byte c p x [] = refl
next_byte c p x (y ∷ b) = ground arith

decimal_loop_digits :
    (k n c p : ℕ) (b : Bytes)
    → IsDigit c
    → All IsDigit b
    → p < u64_mod
    → decimal_loop k n (at_byte c p (left_of b)) ≡ runs
unfolding decimal_loop
decimal_loop_digits k n c p [] digit h small = decimal_loop_end k n c p digit small
decimal_loop_digits zero n c p (x ∷ b) digit h small = refl
decimal_loop_digits (suc k) n c p (x ∷ b) digit (hx, h) small =
    let ih =
      decimal_loop_digits k ((n * 10 + (c - b'0')) % u64_mod) x ((p + 1) % u64_mod) b hx h
        (omega arith) in
    let positive : leb 128 c ≡ false = ground arith in
    let inside : is_digit c ≡ true = ground arith in
    rw (positive, inside, next_byte x p c b, ih) refl

module _ {D : Type 0} (f : Double D) where
  read_number_digits :
      (k c p : ℕ) (b : Bytes)
      → IsDigit c
      → All IsDigit b
      → p < u64_mod
      → read_number f k false (at_byte c p (left_of b)) ≡ none
  unfolding read_number
  read_number_digits k c p b digit h small =
      rw (decimal_loop_digits k 0 c p b digit h small, read_number) refl

  none_left : (c : ℕ) (b : Bytes) → read_double_from_fd f 0 (chunk (c ∷ b) ∷ []) ≡ none
  unfolding read_double_from_fd skip_blanks
  none_left c b = refl

  no_skip :
      (k c : ℕ) (fd : Fd) → IsDigit c → skip_blanks (suc k) (at_byte c 1 fd) ≡ some (at_byte c 1 fd)
  unfolding skip_blanks
  no_skip k c fd digit =
      let no_space : (c == 32) ≡ false = ground arith in
      let no_tab : (c == 9) ≡ false = ground arith in rw (no_space, no_tab) refl

  -- Of a file that holds digits only, and so ends behind its last digit, `read_double_from_fd`
  -- never returns: no fuel is enough, since at the end of the file the last digit is taken again.
  pub read_double_from_fd_endless :
      (k c : ℕ) (b : Bytes)
      → IsDigit c
      → All IsDigit b
      → read_double_from_fd f k (chunk (c ∷ b) ∷ []) ≡ none
  unfolding read_double_from_fd
  read_double_from_fd_endless zero c b digit h = none_left c b
  read_double_from_fd_endless (suc k) c b digit h =
      let no_sign : (c == b'-') ≡ false = ground arith in
      rw
        (
          next_byte c 0 0 b,
          no_skip k c (left_of b) digit,
          no_sign,
          read_number_digits (suc k) c 1 b digit h (omega arith),
          read_double_from_fd,
        )
        refl
