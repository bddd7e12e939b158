-- ===== src/Fmt/Writes.antt =====
-- What `fmt_uint64` leaves in the buffer, and what `write_uint64` writes.
use ustat.Base.{
  ℕ, ◌≤◌, ◌<◌, Bytes, [], ◌∷◌, ◌++◌, some, ◌≡◌, sym, arith, length, take, drop, take-append-drop,
  length-take, take-append_length, le→leb, length-append, u64_mod,
}
use ustat.Decimal.{IsDecimal, length-IsDecimal_le}
use ustat.Fmt.Digits.{decimal, decimal-IsDecimal, fmt_len-decimal, store_loop-decimal}
use ustat.Fmt.{fmt_len, fmt_uint64, write_uint64}
use ustat.Io.{write, wrote, char_array}

-- A 64-bit number has at most twenty digits.
pub fmt_len-le : (val : ℕ) → val < u64_mod → fmt_len val ≤ 20
fmt_len-le val h = omega (
  arith,
  length-IsDecimal_le 19 (decimal val) (decimal-IsDecimal val) (omega arith),
  fmt_len-decimal val,
)

pub fmt_uint64_lem :
    (buf : Bytes) (val : ℕ)
    → fmt_len val ≤ length buf
    → fmt_uint64 buf val ≡ some (decimal val ++ drop (fmt_len val) buf, fmt_len val)
unfolding fmt_uint64
fmt_uint64_lem buf val h =
    let n = fmt_len val in
    let stores =
      store_loop-decimal val n (take n buf) (drop n buf) (length-take n buf h)
        (sym (fmt_len-decimal val)) in
    rw ((rw (take-append-drop n buf) at stores), fmt_uint64)

-- Formatting into a buffer with room, and writing out what was stored.
pub write-decimal :
    (fd val : ℕ) (rest : Bytes)
    → write fd (decimal val ++ rest) (fmt_len val) ≡ some (tt, wrote fd (decimal val) ∷ [])
write-decimal fd val rest = rw (
  fmt_len-decimal val,
  le→leb (length (decimal val)) (length (decimal val ++ rest))
      (omega (arith, length-append (decimal val) rest)),
  take-append_length,
)

-- `write_uint64` writes the decimal print of every 64-bit number, and its buffer is large enough.
pub write_uint64-decimal :
    (fd val : ℕ) → val < u64_mod → write_uint64 fd val ≡ some (1, wrote fd (decimal val) ∷ [])
unfolding write_uint64
write_uint64-decimal fd val h =
    rw (fmt_uint64_lem (char_array 40) val (omega (arith, fmt_len-le val h))) (rw write-decimal)

-- With room for its digits in the buffer, `fmt_uint64` stores the decimal print of the number at
-- the front and keeps what stands behind, and the length that it returns is that of the print.
pub fmt_uint64-IsDecimal :
    (buf : Bytes) (val : ℕ)
    → fmt_len val ≤ length buf
    → IsDecimal val (decimal val)
      × (fmt_len val ≡ length (decimal val))
      × (fmt_uint64 buf val ≡ some (decimal val ++ drop (fmt_len val) buf, fmt_len val))
fmt_uint64-IsDecimal buf val h =
    (decimal-IsDecimal val, fmt_len-decimal val, fmt_uint64_lem buf val h)
