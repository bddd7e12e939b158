-- ===== src/Uptime/Units.antt =====
-- The text of `uptime_print_human`.
use ustat.Base.{
  ℕ, zero, suc, ◌+◌, ◌*◌, ◌/◌, ◌%◌, ◌≤◌, ◌<◌, Bytes, List, [], ◌∷◌, ◌++◌, some, codes, u64_mod, ◌≡◌,
  refl, arith, inl, inr, ltb, ◌^◌, false, lt→ltb, ltb→lt, ltb_false→le, Bool-cases, if◌then◌else◌,
  le→leb, lt→leb, ◌⊎◌, append-nil,
}
use ustat.Fmt.Digits.{decimal}
use ustat.Fmt.Writes.{write_uint64-decimal}
use ustat.Io.{Write, wrote, said, output, output-append, output-wrote, output-nil}
use ustat.Uptime.{at_least, unit_print, uptime_print_human}

-- A number of units, with the letter of the unit; none where there are none.
abbrev pub units : ℕ → Bytes → Bytes
units zero name = []
units (suc n) name = decimal (suc n) ++ name

unit_writes : ℕ → ℕ → Bytes → List Write
unit_writes fd zero name = []
unit_writes fd (suc n) name = wrote fd (decimal (suc n)) ∷ wrote fd name ∷ []

output-unit_writes : (fd n : ℕ) (name : Bytes) → output fd (unit_writes fd n name) ≡ units n name
unfolding unit_writes
output-unit_writes fd zero name = output-nil fd
output-unit_writes fd (suc n) name = rw (output-wrote, output-wrote, output-nil, append-nil) refl

-- Division by the size of a unit, as far as it is needed.
Divides : ℕ → ℕ → Type 0
Divides size ut = (size ≤ ut × (0 < ut / size)) ⊎ (ut < size × (ut / size ≡ 0) × (ut % size ≡ ut))

unit_writes_pos :
    (fd n : ℕ) (name : Bytes)
    → 0 < n
    → wrote fd (decimal n) ∷ wrote fd name ∷ [] ≡ unit_writes fd n name
unfolding unit_writes
unit_writes_pos fd zero name h = absurd (omega arith)
unit_writes_pos fd (suc n) name h = refl

unit_print-unit_writes :
    (fd size : ℕ) (name : Bytes) (ut : ℕ)
    → ut < 2 ^ 63
    → ut / size < u64_mod
    → Divides size ut
    → unit_print fd size name ut ≡ some (ut % size, unit_writes fd (ut / size) name)
unfolding unit_print unit_writes Divides
unit_print-unit_writes fd size name ut small quotient (inl (le, pos)) =
    rw (le→leb size ut le, lt→ltb ut (2 ^ 63) small, write_uint64-decimal fd (ut / size) quotient)
      (rw (unit_writes_pos fd (ut / size) name pos) refl)
unit_print-unit_writes fd size name ut small quotient (inr (lt, zero_is, same)) =
    rw (lt→leb size ut lt, zero_is, same) refl

days : (ut : ℕ) → Divides 86400 ut
unfolding Divides
days ut = ground arith

hours : (ut : ℕ) → Divides 3600 ut
unfolding Divides
hours ut = ground arith

minutes : (ut : ℕ) → Divides 60 ut
unfolding Divides
minutes ut = ground arith

unit_print_negative :
    (fd size : ℕ) (name : Bytes) (ut : ℕ) → 2 ^ 63 ≤ ut → unit_print fd size name ut ≡ some (ut, [])
unfolding unit_print
unit_print_negative fd size name ut h =
    let no : at_least size ut ≡ false = ground arith in rw (no, unit_print) refl

-- The text of an uptime of no less than 0.
abbrev pub uptime_text : ℕ → Bytes
uptime_text ut =
    units (ut / 86400) (codes "d")
    ++ (units (ut % 86400 / 3600) (codes "h")
        ++ (units (ut % 3600 / 60) (codes "m") ++ (decimal (ut % 60) ++ codes "s")))

uptime_print_human-positive :
    (fd ut : ℕ) → ut < 2 ^ 63 → said fd (uptime_print_human fd ut) ≡ some (1, uptime_text ut)
unfolding uptime_print_human
uptime_print_human-positive fd ut small =
    let h : ut % 86400 % 3600 ≡ ut % 3600 = omega arith in
    let m : ut % 3600 % 60 ≡ ut % 60 = omega arith in
    let d = unit_print-unit_writes fd 86400 (codes "d") ut small (omega arith) (days ut) in
    let e =
      unit_print-unit_writes fd 3600 (codes "h") (ut % 86400) (omega arith) (omega arith)
        (hours (ut % 86400)) in
    let f =
      unit_print-unit_writes fd 60 (codes "m") (ut % 3600) (omega arith) (omega arith)
        (minutes (ut % 3600)) in
    rw (d, e, h, f, m, write_uint64-decimal fd (ut % 60) (omega arith))
      (simp (output-append, output-unit_writes, output-wrote, output-nil, append-nil))

uptime_print_human-negative :
    (fd ut : ℕ)
    → 2 ^ 63 ≤ ut
    → ut < u64_mod
    → said fd (uptime_print_human fd ut) ≡ some (1, decimal ut ++ codes "s")
unfolding uptime_print_human
uptime_print_human-negative fd ut low small =
    rw
      (
        unit_print_negative fd 86400 (codes "d") ut low,
        unit_print_negative fd 3600 (codes "h") ut low,
        unit_print_negative fd 60 (codes "m") ut low,
        write_uint64-decimal fd ut small,
      )
      (simp (output-append, output-wrote, output-nil, append-nil))

-- The 64 bits of an uptime. One that is not negative is printed as days, hours, minutes and seconds,
-- each number below the next unit, with no entry for a unit of which there is none but the seconds;
-- together they are the uptime. A negative one passes no test, and its 64 bits are printed as an
-- unsigned number of seconds.
pub uptime_print_human-uptime_text :
    (fd ut : ℕ)
    → ut < u64_mod
    → (said fd (uptime_print_human fd ut)
        ≡ some (1, if ltb ut (2 ^ 63) then uptime_text ut else decimal ut ++ codes "s"))
      × (ut ≡ ut / 86400 * 86400 + ut % 86400 / 3600 * 3600 + ut % 3600 / 60 * 60 + ut % 60)
      × (ut % 86400 / 3600 < 24)
      × (ut % 3600 / 60 < 60)
      × (ut % 60 < 60)
uptime_print_human-uptime_text fd ut small = (
  elim (Bool-cases (ltb ut (2 ^ 63))) [
    | inl e ↦ rw e (uptime_print_human-positive fd ut (ltb→lt ut (2 ^ 63) e))
    | inr e ↦ rw e (uptime_print_human-negative fd ut (ltb_false→le ut (2 ^ 63) e) small)
  ],
  omega arith,
  omega arith,
  omega arith,
  omega arith,
)
