-- ===== src/Color.antt =====
-- ustat_color.c: the escape sequences for colours. `s` is the memory at the argument, and `l` its
-- length.
pub mod Ansi
pub mod Rgb
use ustat.Base.{
  ℕ, ◌+◌, ◌-◌, ◌*◌, ◌/◌, ◌^◌, ◌%◌, ◌||◌, Bytes, List, [], ◌∷◌, Option, none, some, ltb, leb, ◌==◌,
  if◌then◌else◌, codes, u64_mod, drop, get_elem?, map,
}
use ustat.Djb.{Djb, cstr, fmt_into}
use ustat.Hex.{scan_hex}
use ustat.Io.{Emits, ◌>>=◌, ◌>>◌, from, write, puts, return, char_array}

-- An escape sequence, from what stands behind the escape character.
abbrev pub escape : Bytes → Bytes
escape s = 27 ∷ s

-- `color_off`
unfoldable pub color_off : ℕ → Emits ℕ
color_off fd = do puts fd (escape (codes "[0m")); return 1

-- The table `color8`.
abbrev pub color8 : List Bytes
color8 =
    map (λ s. cstr (escape s))
      (codes "[30m"
        ∷ codes "[30;1m"
        ∷ codes "[40m"
        ∷ codes "[40;1m"
        ∷ codes "[31m"
        ∷ codes "[31;1m"
        ∷ codes "[41m"
        ∷ codes "[41;1m"
        ∷ codes "[32m"
        ∷ codes "[32;1m"
        ∷ codes "[42m"
        ∷ codes "[42;1m"
        ∷ codes "[33m"
        ∷ codes "[33;1m"
        ∷ codes "[43m"
        ∷ codes "[43;1m"
        ∷ codes "[34m"
        ∷ codes "[34;1m"
        ∷ codes "[44m"
        ∷ codes "[44;1m"
        ∷ codes "[35m"
        ∷ codes "[35;1m"
        ∷ codes "[45m"
        ∷ codes "[45;1m"
        ∷ codes "[36m"
        ∷ codes "[36;1m"
        ∷ codes "[46m"
        ∷ codes "[46;1m"
        ∷ codes "[37m"
        ∷ codes "[37;1m"
        ∷ codes "[47m"
        ∷ codes "[47;1m"
        ∷ [])

-- `s[i]`, or a read outside of the memory.
abbrev pub byte_at : Bytes → ℕ → Option ℕ
byte_at s i = get_elem? s i

-- `s[l - 1]`; with `l = 0` the index wraps around to the end of the address space.
abbrev pub last_byte : Bytes → ℕ → Option ℕ
last_byte s l = if ltb 0 l then byte_at s (l - 1) else none

-- `(c << 4) + c` of a `uint32_t`
abbrev pub doubled : ℕ → ℕ
doubled c = (c * 16 % 2 ^ 32 + c) % 2 ^ 32

-- The variables `r`, `g` and `b` on the stack, each a `uint32_t`.
pub data Part : Type 0 where
  red : Part
  green : Part
  blue : Part

pub record Parts : Type 0 where
  pub r : ℕ
  pub g : ℕ
  pub b : ℕ

abbrev pub get_part : Part → Parts → ℕ
get_part red m = m.r
get_part green m = m.g
get_part blue m = m.b

abbrev pub set_part : Part → ℕ → Parts → Parts
set_part red v m = record m { r = v }
set_part green v m = record m { g = v }
set_part blue v m = record m { b = v }

-- Which of them, if any, the compiler puts into the four bytes behind each. Other variables are taken
-- not to stand there.
pub record Layout : Type 0 where
  pub behind_r : Option Part
  pub behind_g : Option Part
  pub behind_b : Option Part

abbrev pub behind : Layout → Part → Option Part
behind lay red = lay.behind_r
behind lay green = lay.behind_g
behind lay blue = lay.behind_b

abbrev pub upper_half : Option Part → Parts → ℕ
upper_half none m = 0
upper_half (some q) m = get_part q m

abbrev pub set_upper_half : Option Part → ℕ → Parts → Parts
set_upper_half none v m = m
set_upper_half (some q) v m = set_part q v m

-- `scan_hex(s, w, &p)` of one of them, which reads and stores 64 bits: the lower half is the variable,
-- and the upper half what stands behind it.
unfoldable pub scan_part : Layout → Part → Bytes → ℕ → Parts → Option (ℕ × Parts)
scan_part lay p s w m = elim (scan_hex s w (get_part p m + 2 ^ 32 * upper_half (behind lay p) m)) [
  | none ↦ none
  | some x ↦ some (
    x.count,
    set_upper_half (behind lay p) (x.number / 2 ^ 32) (set_part p (x.number % 2 ^ 32) m),
  )
]

-- The three calls of `scan_hex`, for `w` digits each: the sum of what they return, and the variables.
unfoldable pub scan_parts : Layout → Bytes → ℕ → Option (ℕ × Parts)
scan_parts lay s w = elim (scan_part lay red s w (record { r = 0; g = 0; b = 0 })) [
  | none ↦ none
  | some (i, m) ↦ elim (scan_part lay green (drop w s) w m) [
    | none ↦ none
    | some (j, m') ↦ elim (scan_part lay blue (drop (2 * w) s) w m') [
      | none ↦ none
      | some (k, m'') ↦ some (i + j + k, m'')
    ]
  ]
]

module _ (d : Djb) where
  -- `color8_print(fd, c, offset)`; a `char` from 128 on is negative, and so less than '0'.
  unfoldable pub color8_print : ℕ → ℕ → ℕ → Emits ℕ
  color8_print fd c offset = if ltb c b'0' || ltb 127 c || ltb 8 (c - b'0') then return 0 else (do
    s ← from (get_elem? color8 ((c - b'0') * 4 + offset))
    write fd s (d.str_len s)
    return 1)

  pub color8_fg_normal_print : ℕ → Bytes → ℕ → Emits ℕ
  color8_fg_normal_print fd s l = do c ← from (last_byte s l); color8_print fd c 0

  pub color8_fg_bright_print : ℕ → Bytes → ℕ → Emits ℕ
  color8_fg_bright_print fd s l = do c ← from (last_byte s l); color8_print fd c 1

  pub color8_bg_normal_print : ℕ → Bytes → ℕ → Emits ℕ
  color8_bg_normal_print fd s l = do c ← from (last_byte s l); color8_print fd c 2

  pub color8_bg_bright_print : ℕ → Bytes → ℕ → Emits ℕ
  color8_bg_bright_print fd s l = do c ← from (last_byte s l); color8_print fd c 3

  -- `xterm256_print(fd, m, s, l, mode, ml)`, with the whole of `mode`; `name` is `m->name`.
  unfoldable pub xterm256_print : Bytes → ℕ → Bytes → Bytes → Emits ℕ
  xterm256_print name fd s mode = do
    let off = d.str_len name
    let scanned = d.scan_ulong (drop off s)
    if scanned.count == 0 || leb 256 scanned.result
        then return 0
        else (do puts fd mode; write fd (drop off s) scanned.count; puts fd (codes "m"); return 1)

  pub xterm256_fg_print : Bytes → ℕ → Bytes → Emits ℕ
  xterm256_fg_print name fd s = xterm256_print name fd s (escape (codes "[38;5;"))

  pub xterm256_bg_print : Bytes → ℕ → Bytes → Emits ℕ
  xterm256_bg_print name fd s = xterm256_print name fd s (escape (codes "[48;5;"))

  -- `n = fmt_ulong(buf, c); write(fd, buf, n); write(fd, ";", 1);`
  unfoldable pub write_part : ℕ → Bytes → ℕ → Emits Bytes
  write_part fd buf c = do
    (buf', n) ← from (fmt_into d buf c)
    write fd buf' n
    puts fd (codes ";")
    return buf'

  -- What is written once the three numbers are there: `r` three times.
  unfoldable pub write_rgb : ℕ → Bytes → ℕ → Emits ℕ
  write_rgb fd mode r = do
    puts fd mode
    buf ← write_part fd (char_array 3) r
    buf' ← write_part fd buf r
    buf'' ← write_part fd buf' r
    puts fd (codes "m")
    return 1

  -- `rgb_print(fd, m, s, l, mode, ml)`, with the whole of `mode`
  unfoldable pub rgb_print : Layout → Bytes → ℕ → Bytes → ℕ → Bytes → Emits ℕ
  rgb_print lay name fd s l mode = do
    let off = d.str_len name
    let n = (l + u64_mod - off) % u64_mod
    (if n == 3
        then (do
          (i, m) ← from (scan_parts lay (drop off s) 1)
          if i == n then write_rgb fd mode (doubled m.r) else return 0)
        else if n == 6
        then (do
          (i, m) ← from (scan_parts lay (drop off s) 2)
          if i == n then write_rgb fd mode m.r else return 0)
        else return 0)

  pub rgb_fg_print : Layout → Bytes → ℕ → Bytes → ℕ → Emits ℕ
  rgb_fg_print lay name fd s l = rgb_print lay name fd s l (escape (codes "[38;2;"))

  pub rgb_bg_print : Layout → Bytes → ℕ → Bytes → ℕ → Emits ℕ
  rgb_bg_print lay name fd s l = rgb_print lay name fd s l (escape (codes "[48;2;"))
