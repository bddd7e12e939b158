-- ===== src/Hex/Digits.antt =====
-- Which bytes are hexadecimal digits, and what the scan makes of them.
use ustat.Base.{
  u64_mod, ℕ, zero, suc, ◌+◌, ◌-◌, ◌*◌, ◌/◌, ◌%◌, ◌<◌, ◌≤◌, Bytes, [], ◌∷◌, ◌++◌, ◌&&◌, Option,
  none, some, ◌≡◌, refl, arith, leb, if◌then◌else◌, length, take, All, Option-cases, inl, inr,
}
use ustat.Hex.{hex_digit, scan_loop, scan_hex}

-- The digits by their ranges.
abbrev pub hex_value : ℕ → Option ℕ
hex_value b =
    if leb b'0' b && leb b b'9'
    then some (b - b'0')
    else if leb b'a' b && leb b b'f'
    then some (b - b'a' + 10)
    else if leb b'A' b && leb b b'F'
    then some (b - b'A' + 10)
    else none

-- The wrap-around tests of the code accept just the digits, at every byte.
pub hex_digit-hex_value : (b : ℕ) → b < 256 → hex_digit b ≡ hex_value b
unfolding hex_digit
hex_digit-hex_value b h = ground arith

-- A digit as the kernel prints it.
abbrev pub hex_char : ℕ → ℕ
hex_char d = if leb d 9 then b'0' + d else b'A' + (d - 10)

pub hex_digit-hex_char : (d : ℕ) → d < 16 → hex_digit (hex_char d) ≡ some d
unfolding hex_digit
hex_digit-hex_char d h = ground arith

-- Two digits, as in `%02X`.
abbrev pub hex2 : ℕ → Bytes
hex2 v = hex_char (v / 16) ∷ hex_char (v % 16) ∷ []

pub scan_hex-hex2 :
    (v : ℕ) (rest : Bytes)
    → v < 256
    → scan_hex (hex2 v ++ rest) 2 0 ≡ some (record { count = 2; number = v })
unfolding scan_hex
scan_hex-hex2 v rest h =
    ground
      (arith, hex_digit-hex_char (v / 16) (omega arith), hex_digit-hex_char (v % 16) (omega arith))

pub scan_hex_two :
    (a b va vb n : ℕ) (rest : Bytes)
    → a < 256
    → b < 256
    → hex_value a ≡ some va
    → hex_value b ≡ some vb
    → scan_hex (a ∷ b ∷ rest) 2 n
      ≡ some (record { count = 2; number = ((n * 16 + va) % u64_mod * 16 + vb) % u64_mod })
unfolding scan_hex scan_loop
scan_hex_two a b va vb n rest ha hb ea eb =
    rw (hex_digit-hex_value a ha, ea, scan_loop, hex_digit-hex_value b hb, eb, scan_loop) refl

-- The number that hexadecimal digits spell behind `n`.
abbrev pub hex_number : ℕ → Bytes → ℕ
hex_number n [] = n
hex_number n (b ∷ s) = elim (hex_value b) [ none ↦ n | some d ↦ hex_number (n * 16 + d) s ]

-- The length of the run of digits at the front.
abbrev pub hex_run : Bytes → ℕ
hex_run [] = 0
hex_run (b ∷ s) = elim (hex_value b) [ none ↦ 0 | some d ↦ suc (hex_run s) ]

abbrev pub IsByte : ℕ → Type 0
IsByte b = b < 256

scan_loop_lem :
    (s : Bytes) (l i n m : ℕ)
    → All IsByte s
    → l ≤ length s
    → n ≡ m % u64_mod
    → scan_loop s l i n
      ≡ some (record { count = i + hex_run (take l s); number = hex_number m (take l s) % u64_mod })
unfolding scan_loop
scan_loop_lem s zero i n m b h e = ground arith
scan_loop_lem [] (suc l) i n m b h e = absurd (omega arith)
scan_loop_lem (c ∷ s) (suc l) i n m (b, bs) h e = elim (Option-cases (hex_value c)) [
  | inl q ↦ rw (hex_digit-hex_value c b, q, scan_loop) (ground arith)
  | inr (d, q) ↦
      rw (hex_digit-hex_value c b, q, scan_loop)
        (ground (arith, scan_loop_lem s l (i + 1) ((n * 16 + d) % u64_mod) (m * 16 + d) bs))
]

-- `scan_hex` reads the run of hexadecimal digits at the front of the first `l` bytes: it returns
-- the length of the run, and leaves the number that the run spells behind `n`, modulo 2 ^ 64, the
-- size of the `unsigned long` that it stores.
pub scan_hex-hex_number :
    (s : Bytes) (l n : ℕ)
    → All IsByte s
    → l ≤ length s
    → n < u64_mod
    → scan_hex s l n
      ≡ some (record { count = hex_run (take l s); number = hex_number n (take l s) % u64_mod })
unfolding scan_hex
scan_hex-hex_number s l n b h k = ground (arith, scan_loop_lem s l 0 n n b h (omega arith))
