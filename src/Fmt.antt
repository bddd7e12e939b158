-- ===== src/Fmt.antt =====
-- ustat_helper/fmt_uint64.c and ustat_helper/write_uint64.c.
pub mod Digits
pub mod Writes
use ustat.Base.{
  ℕ, zero, suc, ◌+◌, ◌/◌, ◌%◌, Bytes, Option, none, some, ◌≡◌, refl, ltb, ◌==◌, codes, [], ◌∷◌,
  if◌then◌else◌,
}
use ustat.Io.{Emits, ◌>>=◌, ◌>>◌, from, write, store, char_array, return, wrote}

-- `for (l = 1; v > 9; l++) v = v / 10;` with fuel.
pub len_loop : ℕ → ℕ → ℕ → ℕ
len_loop zero v l = l
len_loop (suc f) v l = let rest = len_loop f (v / 10) (l + 1) in if ltb 9 v then rest else l

-- `do { s--; *s = '0' + (val % 10); val /= 10; } while (val);` with fuel; `pos` is `s`, and `none`
-- a store in front of the buffer or behind it.
pub store_loop : ℕ → Bytes → ℕ → ℕ → Option Bytes
unfolding store
store_loop zero buf pos val = none
store_loop (suc f) buf zero val = none
store_loop (suc f) buf (suc pos) val = elim (store buf pos (b'0' + val % 10)) [
  | none ↦ none
  | some buf' ↦
      let rest = store_loop f buf' pos (val / 10) in if val / 10 == 0 then some buf' else rest
]

-- `fmt_uint64(0, val)`. Each round divides by ten, so `val + 1` rounds are enough.
pub fmt_len : ℕ → ℕ
unfolding len_loop
fmt_len val = len_loop (val + 1) val 1

-- `fmt_uint64(buf, val)`: the buffer, and the length.
pub fmt_uint64 : Bytes → ℕ → Option (Bytes × ℕ)
unfolding store_loop fmt_len
fmt_uint64 buf val = elim (store_loop (val + 1) buf (fmt_len val) val) [
  | none ↦ none
  | some buf' ↦ some (buf', fmt_len val)
]

-- FMT_ULONG of djb/fmt.h
abbrev pub fmt_ulong_size : ℕ
fmt_ulong_size = 40

-- `write_uint64(fd, val)`
pub write_uint64 : ℕ → ℕ → Emits ℕ
unfolding fmt_uint64
write_uint64 fd val = do
  (buf, n) ← from (fmt_uint64 (char_array fmt_ulong_size) val)
  write fd buf n
  return 1

write_uint64_run : write_uint64 1 1203 ≡ some (1, wrote 1 (codes "1203") ∷ [])
unfolding write_uint64
write_uint64_run = refl
