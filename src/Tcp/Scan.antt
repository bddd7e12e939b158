-- ===== src/Tcp/Scan.antt =====
-- ustat_tcp_linux.c: `_process_proc_tcp`.
pub mod Stream
pub mod Rows
pub mod Tally
use ustat.Base.{
  ℕ, zero, suc, ◌+◌, ◌%◌, ◌^◌, Bytes, List, Bool, true, false, not, ◌||◌, ◌&&◌, is_set, [], ◌∷◌,
  ◌≡◌, refl, ltb, leb, ◌==◌, Option, none, some, if◌then◌else◌, length, get_or, set, u64_mod, codes,
  replicate,
}
use ustat.Hex.{Scan, scan_hex}
use ustat.Io.{Fd, chunk, content, sys_read}
use ustat.Tcp.Reader.{Reader, initial, read_byte}

-- isspace(3) of the C locale.
abbrev pub isspace : ℕ → Bool
isspace c = c == b' ' || leb 9 c && leb c 13

-- An array of 64-bit counters.
abbrev pub Counters : Type 0
Counters = List ℕ

-- `store[i]++`; `none` is a write outside of the array.
unfoldable pub increment : Counters → ℕ → Option Counters
increment store i =
    if ltb i (length store) then some (set store i ((get_or store i 0 + 1) % u64_mod)) else none

pub data Outcome : Type 0 where
  returns : ℕ → Counters → Outcome
  faults : Outcome
  out_of_fuel : Outcome

-- The labels of the function; `field_loop` is the loop behind `skip_n_fields`.
pub data Label : Type 0 where
  seek_to_eol skip_leading_ws field_loop : Label

-- `goto skip_n_fields`, up to its loop.
abbrev pub enter_fields : Reader → Reader
enter_fields r = record r { field = 0; prev = r.cur }

-- The body of the loop over the fields, behind its test for an error.
abbrev pub advance : Reader → Reader
advance r = record r {
  field = if isspace r.prev && not (isspace r.cur) then r.field + 1 else r.field;
  prev = r.cur;
}

-- What becomes of the two bytes at the front of the state field: `goto end`, a write outside of
-- `store`, or one more counted. `scan_hex` stores 64 bits, of which `val` holds the lower 32; the four
-- bytes behind `val` are taken for ones that nothing reads.
pub data Counted : Type 0 where
  refused : Counted
  outside : Counted
  counted : Counters → Counted

pub count_state : ℕ → ℕ → ℕ → Counters → Counted
count_state lstore p c store = elim (scan_hex (p ∷ c ∷ []) 2 0) [
  | none ↦ outside
  | some s ↦
      if not (s.count == 2)
      then refused
      else if ltb lstore (s.number % 2 ^ 32)
      then refused
      else elim (increment store (s.number % 2 ^ 32)) [
        | none ↦ outside
        | some store' ↦ counted store'
      ]
]

module _ (state_field lstore : ℕ) where
  -- One round reads one byte, and ends in the round that follows.
  process : ℕ → Label → Reader → Counters → ℕ → Outcome
  process zero l r store rc = out_of_fuel
  process (suc f) seek_to_eol r store rc =
      let (r', more) = read_byte r in
      let on = process f (if r'.cur == b'\n' then skip_leading_ws else seek_to_eol) r' store rc in
      if not more || is_set r'.err then returns rc store else on
  process (suc f) skip_leading_ws r store rc =
      let (r', more) = read_byte r in
      let space = process f skip_leading_ws r' store rc in
      let word = process f field_loop (enter_fields r') store rc in
      if not more || is_set r'.err then returns rc store else if isspace r'.cur then space else word
  process (suc f) field_loop r store rc =
      let (r', more) = read_byte r in
      let on = process f field_loop (advance r') store rc in
      if ltb r.field state_field
      then if not more || is_set r'.err then returns rc store else on
      else if not (r.field == state_field)
      then returns rc store
      else if not more
      then returns rc store
      else elim (count_state lstore r'.prev r'.cur store) [
        | refused ↦ returns rc store
        | outside ↦ faults
        | counted store' ↦ process f seek_to_eol r' store' 1
      ]

-- `_process_proc_tcp(fd, state_field, store, lstore)`: a byte takes a round, and the end one more.
unfoldable pub process_proc_tcp : Fd → ℕ → Counters → ℕ → Outcome
unfolding process count_state
process_proc_tcp fd state_field store lstore =
    process state_field lstore (suc (length (content fd))) seek_to_eol (initial fd) store 0
