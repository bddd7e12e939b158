-- ===== src/Users/Ids.antt =====
-- The user id, and a buffer of six bytes.
use ustat.Base.{
  ℕ, ◌^◌, ◌<◌, [], ◌∷◌, none, some, if◌then◌else◌, ltb, u64_mod, ◌≡◌, refl, Bool-cases, inl, inr,
  ltb→lt, ltb_false→le,
}
use ustat.Djb.{Djb, fmt_into_fits, fmt_into_full, length-fmt_ulong_le, length-fmt_ulong_gt}
use ustat.Io.{wrote, write-append, char_array}
use ustat.Users.{uid_print}

module _ (d : Djb) where
  -- A user id below 10 ^ 6 is printed in decimal; from there on, the digits are stored behind the
  -- buffer of six bytes.
  pub uid_print-fmt_ulong :
      (fd uid : ℕ)
      → uid < u64_mod
      → uid_print d fd uid
        ≡ (if ltb uid (10 ^ 6) then some (1, wrote fd (d.fmt_ulong uid) ∷ []) else none)
  unfolding uid_print
  uid_print-fmt_ulong fd uid small = elim (Bool-cases (ltb uid (10 ^ 6))) [
    | inl e ↦
        let room = length-fmt_ulong_le d 5 uid small (ltb→lt uid (10 ^ 6) e) in
        rw (e, fmt_into_fits d (char_array 6) uid room, write-append) refl
    | inr e ↦
        let large = ltb_false→le uid (10 ^ 6) e in
        rw (e, fmt_into_full d (char_array 6) uid (length-fmt_ulong_gt d 6 uid small large)) refl
  ]
