-- ===== src/Battery.antt =====
-- ustat_battery.c, ustat_battery_linux.c and ustat_battery_osx.c, with ustat_helper/os_getenv_def.c.
pub mod Info
use ustat.Base.{
  ◌-◌, ℕ, ◌+◌, ◌^◌, ◌%◌, Bool, true, false, Bytes, Option, none, some, ltb, ◌==◌, if◌then◌else◌,
  codes, u64_mod,
}
use ustat.Djb.{Djb, cstr, fmt_into}
use ustat.Io.{Emits, ◌>>=◌, ◌>>◌, from, write, return, char_array, Fd}
use ustat.Uptime.{fmt_ulong_size, read_text}

-- `struct ustat_battery`; an `int` is held by its 32 bits.
pub record UstatBattery : Type 0 where
  pub level : ℕ
  pub is_charging : ℕ

-- `_battery_info` when the program starts
abbrev pub full : UstatBattery
full = record { level = 100; is_charging = 0 }

abbrev pub max_bytes : ℕ
max_bytes = 32

-- `fmt_ulong(buf, i)` of an `int` extends its sign to 64 bits.
abbrev pub int_to_ulong : ℕ → ℕ
int_to_ulong i = if ltb i (2 ^ 31) then i else i + (u64_mod - 2 ^ 32)

-- `os_getenv_or_def(&s, env, def)`: the string; `env` is what `getenv` found, a text or nothing.
pub os_getenv_or_def : Djb → Option Bytes → Bytes → Bytes × ℕ
os_getenv_or_def d none def = (def, d.str_len def)
os_getenv_or_def d (some e) def =
    if d.str_len e == 0 then (def, d.str_len def) else (e, d.str_len e)

-- The second half of `_get_battery_info`: the capacity.
unfoldable pub read_capacity : Djb → Bytes → Option Fd → UstatBattery → Option UstatBattery
read_capacity d buf none bi = some bi
read_capacity d buf (some fd) bi = elim (read_text buf fd) [
  | none ↦ none
  | some buf' ↦
      some (record { level = (d.scan_ulong buf').result % 2 ^ 32; is_charging = bi.is_charging })
]

-- `_get_battery_info`: the two files, where they open; `none` is a fault.
unfoldable pub get_battery_info : Djb → Option Fd → Option Fd → UstatBattery → Option UstatBattery
get_battery_info d none capacity bi = some bi
get_battery_info d (some fd) capacity bi = elim (read_text (char_array max_bytes) fd) [
  | none ↦ none
  | some buf ↦ read_capacity d buf capacity (
      if d.str_start buf (cstr (codes "Charging"))
      then record { level = bi.level; is_charging = 1 }
      else bi)
]

-- `_get_battery_info` for macOS, with what the power source says: whether it is charging, and the
-- current capacity, an `int` in 32 bits.
unfoldable pub get_battery_info_osx : Option Bool → Option ℕ → UstatBattery → UstatBattery
get_battery_info_osx (some true) none bi = record { level = bi.level; is_charging = 1 }
get_battery_info_osx (some true) (some capacity) bi = record { level = capacity; is_charging = 1 }
get_battery_info_osx charging none bi = bi
get_battery_info_osx charging (some capacity) bi = record {
  level = capacity;
  is_charging = bi.is_charging;
}

-- `bat_init`: what `_battery_info` and `m->ready` are after it.
unfoldable pub bat_init :
    Djb → Option Fd → Option Fd → UstatBattery → Bool → Option (UstatBattery × Bool)
bat_init d status capacity bi true = some (bi, true)
bat_init d status capacity bi false = elim (get_battery_info d status capacity bi) [
  | none ↦ none
  | some bi' ↦ some (bi', true)
]

module _ (d : Djb) (bi : UstatBattery) (fd : ℕ) where
  print_int : ℕ → Emits ℕ
  print_int i = do
    (buf, n) ← from (fmt_into d (char_array fmt_ulong_size) (int_to_ulong i))
    write fd buf n
    return 1

  unfoldable pub bat_level_print : Emits ℕ
  unfolding print_int
  bat_level_print = print_int bi.level

  unfoldable pub bat_charging_print : Emits ℕ
  unfolding print_int
  bat_charging_print = print_int bi.is_charging

  -- `bat_charging_human_print`; `getenv` by the name of a variable
  unfoldable pub bat_charging_human_print : (Bytes → Option Bytes) → Emits ℕ
  bat_charging_human_print getenv = do
    let pick =
        if bi.is_charging == 1
        then os_getenv_or_def d (getenv (codes "USTAT_BAT_CHARGING")) (cstr (codes "^"))
        else os_getenv_or_def d (getenv (codes "USTAT_BAT_DISCHARGING")) (cstr (codes "v"))
    if ltb 0 pick.1 then write fd pick.0 pick.1 else return tt
    return 1
