-- ===== src/Tests/FmtTests.antt =====
-- The theorems about numbers, at concrete inputs.
use ustat.Base.{u64_mod, some, ◌≡◌, arith, length, drop, ◌++◌, codes, take, ◌%◌}
use ustat.Decimal.{IsDecimal}
use ustat.Fmt.Digits.{decimal}
use ustat.Fmt.Writes.{fmt_len-le, fmt_uint64-IsDecimal}
use ustat.Fmt.{fmt_len, fmt_uint64}
use ustat.Hex.Digits.{hex_run, hex_number, scan_hex-hex_number}
use ustat.Hex.{scan_hex}
use ustat.Io.{char_array}

fmt_uint64-IsDecimal_example :
    IsDecimal 1203 (decimal 1203)
    × (fmt_len 1203 ≡ length (decimal 1203))
    × (fmt_uint64 (char_array 40) 1203
        ≡ some (decimal 1203 ++ drop (fmt_len 1203) (char_array 40), fmt_len 1203))
fmt_uint64-IsDecimal_example =
    fmt_uint64-IsDecimal (char_array 40) 1203 (omega (arith, fmt_len-le 1203 (omega arith)))

scan_hex-hex_number_example :
    scan_hex (codes "7fz") 3 0
    ≡ some (record {
      count = hex_run (take 3 (codes "7fz"));
      number = hex_number 0 (take 3 (codes "7fz")) % u64_mod;
    })
scan_hex-hex_number_example =
    scan_hex-hex_number (codes "7fz") 3 0 (omega arith) (omega arith) (omega arith)
