-- ===== src/Tests/PrintTests.antt =====
-- The theorems about what is printed, at concrete inputs.
use ustat.Base.{◌+◌, ◌*◌, ◌/◌, ◌%◌, ◌^◌, ◌<◌, [], ◌∷◌, ◌++◌, none, some, ◌≡◌, refl, arith, codes}
use ustat.Color.Ansi.{color8_print-ansi}
use ustat.Color.{Layout, red, green, color8_print, escape}
use ustat.Double.Print.{fixed_text, write_double_carry}
use ustat.Double.{write_double}
use ustat.Fmt.Digits.{decimal}
use ustat.Human.Units.{write_uint64_human-scale_by_range, write_uint64_human_beyond}
use ustat.Human.{write_uint64_human}
use ustat.Io.{said, wrote}
use ustat.Load.{Load}
use ustat.Tests.Instances.{Fraction, djb, fractions}
use ustat.Uptime.Units.{uptime_text, uptime_print_human-uptime_text}
use ustat.Uptime.{uptime_print_human}
use ustat.Users.Ids.{uid_print-fmt_ulong}
use ustat.Users.{uid_print}

-- 1.999 is printed as 1.00
write_double_carry_example :
    said 1 (write_double djb fractions 1 (1999, 1000) 2) ≡ some (1, decimal 1 ++ codes ".00")
write_double_carry_example = write_double_carry djb fractions 1 (1999, 1000) 1 refl refl refl

write_uint64_human-scale_by_range_example :
    said 1 (write_uint64_human djb fractions 1 1 5250000)
    ≡ some (1, fixed_text djb fractions (5250000, 1000000) 2 ++ codes "m")
write_uint64_human-scale_by_range_example =
    write_uint64_human-scale_by_range djb fractions 1 5250000 (omega arith)

write_uint64_human_beyond_example :
    said 1 (write_uint64_human djb fractions 1 1 (3 * 10 ^ 18)) ≡ none
write_uint64_human_beyond_example =
    write_uint64_human_beyond djb fractions 1 (3 * 10 ^ 18) (omega arith) (omega arith)

uptime_print_human-uptime_text_example :
    (said 1 (uptime_print_human 1 93784) ≡ some (1, uptime_text 93784))
    × (93784
        ≡ 93784 / 86400 * 86400 + 93784 % 86400 / 3600 * 3600 + 93784 % 3600 / 60 * 60 + 93784 % 60)
    × (93784 % 86400 / 3600 < 24)
    × (93784 % 3600 / 60 < 60)
    × (93784 % 60 < 60)
uptime_print_human-uptime_text_example = uptime_print_human-uptime_text 1 93784 (omega arith)

color8_print-ansi_example : said 1 (color8_print djb 1 b'3' 1) ≡ some (1, escape (codes "[33;1m"))
color8_print-ansi_example = color8_print-ansi djb 1 b'3' 1 (omega arith)

-- As without optimisation: each variable stands behind the next one.
abbrev descending : Layout
descending = record { behind_r = none; behind_g = some red; behind_b = some green }

uid_print-fmt_ulong_example : uid_print djb 1 1000 ≡ some (1, wrote 1 (decimal 1000) ∷ [])
uid_print-fmt_ulong_example = uid_print-fmt_ulong djb 1 1000 (omega arith)

abbrev unknown : Load Fraction
unknown = record { one = (1, 1); five = (1, 1); fifteen = (1, 1) }
