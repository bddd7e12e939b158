-- ===== src/Battery/Info.antt =====
-- What the two files of a battery give.
use ustat.Base.{
  ℕ, suc, ◌%◌, ◌^◌, ◌≤◌, ◌<◌, Bytes, [], ◌∷◌, ◌++◌, Option, none, some, if◌then◌else◌, true, false,
  codes, u64_mod, length, drop, ◌≡◌, refl, All, Lacks, arith, append_assoc, length-append,
  length-drop,
}
use ustat.Battery.{UstatBattery, read_capacity, get_battery_info, bat_init}
use ustat.Decimal.{IsDigit, value}
use ustat.Djb.{Djb, text, starts_with}
use ustat.Io.{Fd, chunk, char_array}
use ustat.Uptime.File.{read_text-text, read_text_full}

module _ (d : Djb) where
  read_capacity-value :
      (buf ds rest : Bytes) (c : ℕ) (fd : Fd) (bi : UstatBattery)
      → All IsDigit ds
      → (IsDigit c → ⊥)
      → length (ds ++ c ∷ rest) < length buf
      → read_capacity d buf (some (chunk (ds ++ c ∷ rest) ∷ fd)) bi
        ≡ some (record { level = value 0 ds % u64_mod % 2 ^ 32; is_charging = bi.is_charging })
  unfolding read_capacity
  read_capacity-value buf ds rest c fd bi digits other small =
      let behind = drop (suc (length (ds ++ c ∷ rest))) buf in
      let memory : text (ds ++ c ∷ rest) behind ≡ ds ++ c ∷ (rest ++ 0 ∷ behind) =
        append_assoc ds (c ∷ rest) (0 ∷ behind) in
      rw
        (
          read_text-text buf (ds ++ c ∷ rest) fd small,
          memory,
          d.scan_ulong_lem ds (rest ++ 0 ∷ behind) c digits other,
          read_capacity,
        )
        refl

  -- The state of the battery, after the status.
  abbrev pub charging : Bytes → UstatBattery → UstatBattery
  charging status bi =
      if starts_with status (codes "Charging")
      then record { level = bi.level; is_charging = 1 }
      else bi

  -- Both files open, each is read at once, and has less than 32 bytes: the battery charges where
  -- the status begins with this word, and keeps what it was else; the level is the number at the
  -- front of the capacity, as an int. The module is ready then.
  pub bat_init-charging :
      (status ds rest : Bytes) (c : ℕ) (fd fd' : Fd) (bi : UstatBattery)
      → Lacks 0 status
      → All IsDigit ds
      → (IsDigit c → ⊥)
      → length status < 32
      → length (ds ++ c ∷ rest) < 32
      → bat_init d (some (chunk status ∷ fd)) (some (chunk (ds ++ c ∷ rest) ∷ fd')) bi false
        ≡ some (
          record {
            level = value 0 ds % u64_mod % 2 ^ 32;
            is_charging = (charging status bi).is_charging;
          },
          true,
        )
  unfolding bat_init get_battery_info
  bat_init-charging status ds rest c fd fd' bi clean digits other small small' =
      let behind = drop (suc (length status)) (char_array 32) in
      let size : length (text status behind) ≡ 32 = omega (
        arith,
        length-append status (0 ∷ behind),
        length-drop (suc (length status)) (char_array 32),
      ) in
      let test = d.str_start-text status (codes "Charging") behind [] clean (ground arith) in
      rw
        (
          read_text-text (char_array 32) status fd small,
          test,
          read_capacity-value (text status behind) ds rest c fd' (charging status bi) digits other
              (omega (arith, size)),
          bat_init,
          get_battery_info,
        )
        refl

  -- A status file of at least 32 bytes: the zero byte is stored behind the buffer.
  pub bat_init_full :
      (status : Bytes) (fd : Fd) (capacity : Option Fd) (bi : UstatBattery)
      → 32 ≤ length status
      → bat_init d (some (chunk status ∷ fd)) capacity bi false ≡ none
  unfolding bat_init get_battery_info
  bat_init_full status fd capacity bi h =
      rw (read_text_full (char_array 32) status fd h, bat_init, get_battery_info) refl
