-- ===== src/Djb.antt =====
-- The routines of djb/ that the program calls, a copy of another project's library: an interface of
-- the operations and of the behaviour that their callers rely on. A pointer is the memory from it on.
use ustat.Io.{store_all}
use ustat.Base.{
  ltb, Bool-cases, inl, inr, ltb→lt, ltb_false→le, suc, ◌^◌, Option, none, some, drop, le→leb,
  arith, ℕ, ◌%◌, ◌≤◌, ◌<◌, Bool, true, false, ◌&&◌, Bytes, [], ◌∷◌, ◌++◌, ◌≡◌, ◌==◌, length, take,
  Lacks, All, u64_mod,
}
use ustat.Decimal.{IsDigit, IsDecimal, value, length-IsDecimal_le, lt-IsDecimal}
use native.Mathlib.Nat.{pow-le-pow_right}

-- The text `s` in memory, with what stands behind its zero byte.
abbrev pub text : Bytes → Bytes → Bytes
text s rest = s ++ 0 ∷ rest

-- A string constant or an argument of the program.
abbrev pub cstr : Bytes → Bytes
cstr s = text s []

-- `t` stands at the front of `s`.
abbrev pub starts_with : Bytes → Bytes → Bool
starts_with s [] = true
starts_with [] (c ∷ t) = false
starts_with (b ∷ s) (c ∷ t) = b == c && starts_with s t

abbrev pub same_bytes : Bytes → Bytes → Bool
same_bytes [] [] = true
same_bytes (b ∷ s) (c ∷ t) = b == c && same_bytes s t
same_bytes _ _ = false

-- What `scan_ulong` returns, and what it stores.
pub record Scanned : Type 0 where
  pub count : ℕ
  pub result : ℕ

pub record Djb : Type 0 where
  -- the bytes that `fmt_ulong(s, u)` stores at `s`; it returns their number
  pub fmt_ulong : ℕ → Bytes
  pub fmt_ulong-IsDecimal : (u : ℕ) → u < u64_mod → IsDecimal u (fmt_ulong u)
  -- the digits at the front are read, and the number wraps around
  pub scan_ulong : Bytes → Scanned
  pub scan_ulong_lem :
      (ds rest : Bytes) (c : ℕ)
      → All IsDigit ds
      → (IsDigit c → ⊥)
      → scan_ulong (ds ++ c ∷ rest) ≡ record { count = length ds; result = value 0 ds % u64_mod }
  pub str_len : Bytes → ℕ
  pub str_len-text : (s rest : Bytes) → Lacks 0 s → str_len (text s rest) ≡ length s
  pub str_start : Bytes → Bytes → Bool
  pub str_start-text :
      (s t r q : Bytes) → Lacks 0 s → Lacks 0 t → str_start (text s r) (text t q) ≡ starts_with s t
  -- `str_diffn(s, t, n) == 0`
  pub str_equaln : Bytes → Bytes → ℕ → Bool
  pub str_equaln-append :
      (s t r q : Bytes) (n : ℕ)
      → Lacks 0 s
      → Lacks 0 t
      → length s ≡ n
      → length t ≡ n
      → str_equaln (s ++ r) (t ++ q) n ≡ same_bytes s t
  pub str_equaln-text :
      (s t r q : Bytes) (n : ℕ)
      → Lacks 0 s
      → Lacks 0 t
      → length s < n
      → length t < n
      → str_equaln (text s r) (text t q) n ≡ same_bytes s t
  -- `str_diffn(s, t, n) <= 0`; the sign is that of the first difference, so it turns with the order
  pub str_at_mostn : Bytes → Bytes → ℕ → Bool
  pub str_at_mostn-str_equaln :
      (s t : Bytes) (n : ℕ)
      → str_at_mostn s t n ≡ true
      → str_at_mostn t s n ≡ true
      → str_equaln s t n ≡ true
  -- the bytes that `byte_copy(to, n, from)` stores at `to`
  pub byte_copy : ℕ → Bytes → Bytes
  pub byte_copy-take : (n : ℕ) (s : Bytes) → n ≤ length s → byte_copy n s ≡ take n s

-- `n = fmt_ulong(buf, u)`: the buffer, and the length; `none` is a store behind the buffer.
unfoldable pub fmt_into : Djb → Bytes → ℕ → Option (Bytes × ℕ)
fmt_into d buf u = elim (store_all buf (d.fmt_ulong u)) [
  | none ↦ none
  | some buf' ↦ some (buf', length (d.fmt_ulong u))
]

module _ (d : Djb) where
  pub fmt_into_fits :
      (buf : Bytes) (u : ℕ)
      → length (d.fmt_ulong u) ≤ length buf
      → fmt_into d buf u
        ≡ some (d.fmt_ulong u ++ drop (length (d.fmt_ulong u)) buf, length (d.fmt_ulong u))
  unfolding fmt_into store_all
  fmt_into_fits buf u h = rw (le→leb (length (d.fmt_ulong u)) (length buf) h, fmt_into, store_all)

  pub fmt_into_full :
      (buf : Bytes) (u : ℕ) → length buf < length (d.fmt_ulong u) → fmt_into d buf u ≡ none
  unfolding fmt_into store_all
  fmt_into_full buf u h = ground arith

  -- The print of a number below a power of ten.
  pub length-fmt_ulong_le :
      (k u : ℕ) → u < u64_mod → u < 10 ^ suc k → length (d.fmt_ulong u) ≤ suc k
  length-fmt_ulong_le k u h p = length-IsDecimal_le k (d.fmt_ulong u) (d.fmt_ulong-IsDecimal u h) p

  pub length-fmt_ulong_20 : (u : ℕ) → u < u64_mod → length (d.fmt_ulong u) ≤ 20
  length-fmt_ulong_20 u h = length-fmt_ulong_le 19 u h (omega arith)

  -- The print of a number that is not below a power of ten.
  pub length-fmt_ulong_gt : (k u : ℕ) → u < u64_mod → 10 ^ k ≤ u → k < length (d.fmt_ulong u)
  length-fmt_ulong_gt k u small h = elim (Bool-cases (ltb k (length (d.fmt_ulong u)))) [
    | inl e ↦ ltb→lt k (length (d.fmt_ulong u)) e
    | inr e ↦
        let short = ltb_false→le k (length (d.fmt_ulong u)) e in
        let under = lt-IsDecimal (d.fmt_ulong u) (d.fmt_ulong-IsDecimal u small) in
        let bound : 10 ^ length (d.fmt_ulong u) ≤ 10 ^ k =
          pow-le-pow_right {n = 10} (omega arith) {j = k} short in
        absurd (omega (arith, under, bound))
  ]
