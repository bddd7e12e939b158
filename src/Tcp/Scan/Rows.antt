-- ===== src/Tcp/Scan/Rows.antt =====
-- Files of the form that the kernel writes: a header line, and a row for each socket.
use ustat.Base.{
  ◌^◌, ℕ, ◌+◌, ◌<◌, ◌≤◌, Bytes, List, true, false, [], ◌∷◌, ◌++◌, ◌≡◌, refl, ◌∙◌, arith, lt→ltb,
  le→ltb, length, All, Lacks, get_or, set, u64_mod, ◌%◌, ◌/◌,
}
use ustat.Hex.Digits.{hex2, hex_char, scan_hex-hex2}
use ustat.Tcp.Scan.Stream.{scan}
use ustat.Tcp.Scan.{
  Counters, returns, faults, seek_to_eol, skip_leading_ws, field_loop, isspace, increment, refused,
  outside, counted, count_state,
}

abbrev pub IsBlank : ℕ → Type 0
IsBlank c = isspace c ≡ true

abbrev pub IsWord : ℕ → Type 0
IsWord c = isspace c ≡ false

-- One or more bytes: a word, or the blanks between two words.
pub record Run : Type 0 where
  pub head : ℕ
  pub tail : Bytes

abbrev pub spell : Run → Bytes → Bytes
spell r rest = r.head ∷ (r.tail ++ rest)

abbrev pub AllOf : (ℕ → Type 0) → Run → Type 0
AllOf P r = P r.head × All P r.tail

-- The number of the row, the two addresses, the state, and what stands behind it.
pub record Row : Type 0 where
  pub pad : Bytes
  pub number : Run
  pub gap0 : Run
  pub local : Run
  pub gap1 : Run
  pub remote : Run
  pub gap2 : Run
  pub state : ℕ
  pub others : Bytes

pub record IsRow (r : Row) : Type 0 where
  pub pad_blank : All IsBlank r.pad
  pub number_word : AllOf IsWord r.number
  pub gap0_blank : AllOf IsBlank r.gap0
  pub local_word : AllOf IsWord r.local
  pub gap1_blank : AllOf IsBlank r.gap1
  pub remote_word : AllOf IsWord r.remote
  pub gap2_blank : AllOf IsBlank r.gap2
  pub state_byte : r.state < 256
  pub one_line : Lacks b'\n' r.others

-- The row in front of `rest`.
abbrev pub print_row : Row → Bytes → Bytes
print_row r rest =
    r.pad
    ++ spell r.number (
        spell r.gap0 (
          spell r.local (
            spell r.gap1
              (spell r.remote (spell r.gap2 (hex2 r.state ++ (r.others ++ b'\n' ∷ rest)))))))

abbrev pub print_rows : List Row → Bytes → Bytes
print_rows [] rest = rest
print_rows (r ∷ rs) rest = print_row r (print_rows rs rest)

module _ (rc : ℕ) (store : Counters) where
  pub scan-line :
      (k p : ℕ) (line s : Bytes)
      → Lacks b'\n' line
      → scan 3 12 seek_to_eol k p (line ++ b'\n' ∷ s) store rc
        ≡ scan 3 12 skip_leading_ws k p s store rc
  unfolding scan
  scan-line k p [] s h = ground arith
  scan-line k p (c ∷ line) s (hc, h) = ground (arith, scan-line k p line s h)

  scan-pad :
      (k p c : ℕ) (pad s : Bytes)
      → All IsBlank pad
      → IsWord c
      → scan 3 12 skip_leading_ws k p (pad ++ c ∷ s) store rc ≡ scan 3 12 field_loop 0 c s store rc
  unfolding scan
  scan-pad k p c [] s h w = rw w
  scan-pad k p c (b ∷ pad) s (hb, h) w = rw hb (scan-pad k p c pad s h w)

  -- From a blank to the next word.
  scan-gap :
      (k p c : ℕ) (gap s : Bytes)
      → k < 3
      → IsBlank p
      → All IsBlank gap
      → IsWord c
      → scan 3 12 field_loop k p (gap ++ c ∷ s) store rc ≡ scan 3 12 field_loop (k + 1) c s store rc
  unfolding scan
  scan-gap k p c [] s lt hp h w = rw (lt→ltb k 3 lt, hp, w)
  scan-gap k p c (b ∷ gap) s lt hp (hb, h) w =
      rw (lt→ltb k 3 lt, hp, hb) (scan-gap k b c gap s lt hb h w)

  -- The rest of a word, and the blanks behind it.
  scan-word :
      (k p c : ℕ) (word : Bytes) (gap : Run) (s : Bytes)
      → k < 3
      → IsWord p
      → All IsWord word
      → AllOf IsBlank gap
      → IsWord c
      → scan 3 12 field_loop k p (word ++ spell gap (c ∷ s)) store rc
        ≡ scan 3 12 field_loop (k + 1) c s store rc
  unfolding scan
  scan-word k p c [] gap s lt hp h (hg, hgs) w =
      rw (lt→ltb k 3 lt, hp) (scan-gap k gap.head c gap.tail s lt hg hgs w)
  scan-word k p c (b ∷ word) gap s lt hp (hb, h) g w =
      rw (lt→ltb k 3 lt, hp) (scan-word k b c word gap s lt hb h g w)

-- One more socket in state `v`.
abbrev pub bump : Counters → ℕ → Counters
bump store v = set store v ((get_or store v 0 + 1) % u64_mod)

isspace-hex_char : (d : ℕ) → d < 16 → IsWord (hex_char d)
isspace-hex_char d h = ground arith

pub count_state-hex2 :
    (v : ℕ) (store : Counters)
    → v < length store
    → v ≤ 12
    → v < 256
    → count_state 12 (hex_char (v / 16)) (hex_char (v % 16)) store ≡ counted (bump store v)
unfolding count_state increment
count_state-hex2 v store h small byte =
    let low : v % 2 ^ 32 ≡ v = omega arith in
    rw (scan_hex-hex2 v [] byte, count_state, low, le→ltb 12 v small, lt→ltb v (length store) h)

-- A state behind the array passes the test `val > lstore` if it is `lstore` itself.
pub count_state_outside :
    (store : Counters)
    → length store ≤ 12
    → count_state 12 (hex_char (12 / 16)) (hex_char (12 % 16)) store ≡ outside
unfolding count_state increment
count_state_outside store h =
    rw (scan_hex-hex2 12 [] (omega arith), count_state, le→ltb 12 (length store) h)

-- What the scan does with a row, up to the state of its socket.
module _ (rc : ℕ) (store : Counters) where
  scan_state :
      (d c : ℕ) (s : Bytes)
      → scan 3 12 field_loop 3 d (c ∷ s) store rc ≡ elim (count_state 12 d c store) [
        | refused ↦ returns rc store
        | outside ↦ faults
        | counted store' ↦ scan 3 12 seek_to_eol 3 d s store' 1
      ]
  unfolding scan
  scan_state d c s = refl

  pub scan_row :
      (k p : ℕ) (r : Row) (rest : Bytes)
      → IsRow r
      → scan 3 12 skip_leading_ws k p (print_row r rest) store rc
        ≡ elim (count_state 12 (hex_char (r.state / 16)) (hex_char (r.state % 16)) store) [
          | refused ↦ returns rc store
          | outside ↦ faults
          | counted store' ↦
              scan 3 12 seek_to_eol 3 (hex_char (r.state / 16)) (r.others ++ b'\n' ∷ rest) store' 1
        ]
  scan_row k p r rest v =
      let d = hex_char (r.state / 16) in
      let last = hex_char (r.state % 16) ∷ (r.others ++ b'\n' ∷ rest) in
      let word = isspace-hex_char (r.state / 16) (omega arith) in
      scan-pad rc store k p r.number.head r.pad _ v.pad_blank v.number_word.0
      ∙ scan-word rc store 0 r.number.head r.local.head r.number.tail r.gap0 _ (omega arith)
          v.number_word.0 v.number_word.1 v.gap0_blank v.local_word.0
      ∙ scan-word rc store 1 r.local.head r.remote.head r.local.tail r.gap1 _ (omega arith)
          v.local_word.0 v.local_word.1 v.gap1_blank v.remote_word.0
      ∙ scan-word rc store 2 r.remote.head d r.remote.tail r.gap2 last (omega arith) v.remote_word.0
          v.remote_word.1 v.gap2_blank word
      ∙ scan_state d (hex_char (r.state % 16)) (r.others ++ b'\n' ∷ rest)
