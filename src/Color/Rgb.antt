-- ===== src/Color/Rgb.antt =====
-- The sequences of the colours that are given by three numbers.
use ustat.Base.{
  ℕ, ◌+◌, ◌*◌, ◌%◌, Bytes, [], ◌∷◌, ◌++◌, Option, some, codes, u64_mod, ◌≡◌, Bool, true, false,
  if◌then◌else◌, Lacks,
}
use ustat.Color.{Part, red, Parts, Layout}
use ustat.Djb.{Djb}
use ustat.Hex.Digits.{hex_value}

module _ (d : Djb) where
  -- The same number three times, each with a semicolon behind it.
  abbrev pub thrice : Bytes → Bytes
  thrice t = t ++ codes ";" ++ (t ++ codes ";" ++ (t ++ codes ";m"))

-- A byte that is a digit with this value.
abbrev pub IsHex : ℕ → ℕ → Type 0
IsHex b v = hex_value b ≡ some v

-- Two digits behind a number of 64 bits.
shifted : ℕ → ℕ → ℕ → ℕ
shifted n va vb = ((n * 16 + va) % u64_mod * 16 + vb) % u64_mod

abbrev pub is_red : Option Part → Bool
is_red (some red) = true
is_red _ = false

abbrev zeros : Parts
zeros = record { r = 0; g = 0; b = 0 }

module _ (d : Djb) (fd : ℕ) (t mode : Bytes) (ht : Lacks 0 t) (lay : Layout)
    (a b c e f g va vb vc ve vf vg : ℕ) where
  six : Bytes
  six = a ∷ b ∷ c ∷ e ∷ f ∷ g ∷ []

  -- What `r` is behind the three scans.
  abbrev pub final_red : ℕ
  final_red = if is_red lay.behind_g then (va * 16 + vb) * 256 else va * 16 + vb
