-- ===== src/Hex.antt =====
-- ustat_helper/scan_hex.c. A `char` is its byte; it is negative from 128 on.
pub mod Digits
use ustat.Base.{
  u64_mod, ℕ, zero, suc, ◌+◌, ◌-◌, ◌*◌, ◌%◌, Bytes, [], ◌∷◌, Bool, ◌&&◌, ◌||◌, Option, none, some,
  ◌≡◌, refl, ltb, leb, if◌then◌else◌, codes,
}

-- `(char)(x - k)` for a byte `x`.
abbrev minus_char : ℕ → ℕ → ℕ
minus_char x k = (x + 256 - k) % 256

abbrev is_negative : ℕ → Bool
is_negative c = leb 128 c

-- tolower(3) of the C locale.
abbrev tolower : ℕ → ℕ
tolower b = if leb b'A' b && leb b b'Z' then b + 32 else b

-- The body of the loop up to `add`: the digit, or `none` for its `return`.
pub hex_digit : ℕ → Option ℕ
hex_digit b =
    let c = minus_char b b'0' in
    let e = minus_char (tolower b) b'a' in
    if is_negative c
    then none
    else if leb c 9
    then some c
    else if is_negative e || ltb 5 e
    then none
    else some (e + 10)

-- What `scan_hex` returns, and what it leaves in `*n`.
pub record Scan : Type 0 where
  pub count : ℕ
  pub number : ℕ

scan_loop : Bytes → ℕ → ℕ → ℕ → Option Scan
scan_loop s zero i n = some (record { count = i; number = n })
scan_loop [] (suc l) i n = none
scan_loop (b ∷ s) (suc l) i n = elim (hex_digit b) [
  | none ↦ some (record { count = i; number = n })
  | some d ↦ scan_loop s l (i + 1) ((n * 16 + d) % u64_mod)
]

-- `scan_hex(s, l, &n)` on an `unsigned long` of 64 bits: `none` is a read behind the memory of `s`.
unfoldable pub scan_hex : Bytes → ℕ → ℕ → Option Scan
unfolding scan_loop hex_digit
scan_hex s l n = scan_loop s l 0 n

scan_hex_run : scan_hex (codes "fA0x") 4 0 ≡ some (record { count = 3; number = 0xfa0 })
unfolding scan_hex
scan_hex_run = refl
