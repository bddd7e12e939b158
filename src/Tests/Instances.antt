-- ===== src/Tests/Instances.antt =====
-- Functions that behave as the interfaces say, for the runs at concrete inputs.
use ustat.Base.{
  ◌^◌, ◌≤◌, Option, none, some, ltb, Bool-cases, inl, inr, ltb→lt, lt→ltb, le→leb, leb→le, ℕ, zero,
  suc, ◌+◌, ◌*◌, ◌/◌, ◌%◌, ◌<◌, Bool, true, false, ◌&&◌, Bytes, [], ◌∷◌, ◌++◌, ◌≡◌, refl, ◌==◌, leb,
  if◌then◌else◌, length, take, All, Lacks, arith, u64_mod,
}
use native.Mathlib.Nat.{
  pow-suc, one-le-pow, mul-le-mul, mul-le-mul_right, div-le_of_le-mul, pow-le-pow_right,
}
use ustat.Decimal.{IsDigit, value}
use ustat.Djb.{Djb, text, starts_with, same_bytes}
use ustat.Double.{Double}
use ustat.Program.Order.{and_both}
use ustat.Fmt.Digits.{decimal, decimal-IsDecimal}

abbrev pub digits_of : Bytes → Bytes
digits_of [] = []
digits_of (c ∷ s) = let rest = digits_of s in if leb b'0' c && leb c b'9' then c ∷ rest else []

pub digits_of-append :
    (ds rest : Bytes) (c : ℕ) → All IsDigit ds → (IsDigit c → ⊥) → digits_of (ds ++ c ∷ rest) ≡ ds
digits_of-append [] rest c h other = ground arith
digits_of-append (x ∷ ds) rest c (hx, h) other =
    let inside : (leb b'0' x && leb x b'9') ≡ true = ground arith in
    rw (inside, digits_of-append ds rest c h other) refl

abbrev pub string_length : Bytes → ℕ
string_length [] = 0
string_length (c ∷ s) = let rest = string_length s in if c == 0 then 0 else suc rest

pub string_length-text : (s rest : Bytes) → Lacks 0 s → string_length (text s rest) ≡ length s
string_length-text [] rest h = refl
string_length-text (c ∷ s) rest (hc, h) =
    let other : (c == 0) ≡ false = ground arith in rw (other, string_length-text s rest h) refl

abbrev pub begins : Bytes → Bytes → Bool
begins s [] = true
begins [] (c ∷ t) = c == 0
begins (b ∷ s) (c ∷ t) = let rest = begins s t in if c == 0 then true else b == c && rest

pub begins-text :
    (s t r q : Bytes) → Lacks 0 s → Lacks 0 t → begins (text s r) (text t q) ≡ starts_with s t
begins-text [] [] r q hs ht = refl
begins-text (b ∷ s) [] r q hs ht = refl
begins-text [] (c ∷ t) r q hs (hc, ht) = ground arith
begins-text (b ∷ s) (c ∷ t) r q (hb, hs) (hc, ht) =
    let other : (c == 0) ≡ false = ground arith in rw (other, begins-text s t r q hs ht) refl

abbrev pub same_front : Bytes → Bytes → ℕ → Bool
same_front s t zero = true
same_front (b ∷ s) (c ∷ t) (suc n) =
    let rest = same_front s t n in if b == c then (if b == 0 then true else rest) else false
same_front _ _ (suc n) = false

pub same_front-append :
    (s t r q : Bytes) (n : ℕ)
    → Lacks 0 s
    → Lacks 0 t
    → length s ≡ n
    → length t ≡ n
    → same_front (s ++ r) (t ++ q) n ≡ same_bytes s t
same_front-append [] [] r q zero hs ht e f = refl
same_front-append [] t r q (suc n) hs ht e f = absurd (omega arith)
same_front-append (b ∷ s) t r q zero hs ht e f = absurd (omega arith)
same_front-append s [] r q (suc n) hs ht e f = absurd (omega arith)
same_front-append s (c ∷ t) r q zero hs ht e f = absurd (omega arith)
same_front-append (b ∷ s) (c ∷ t) r q (suc n) (hb, hs) (hc, ht) e f =
    let ih = same_front-append s t r q n hs ht (omega arith) (omega arith) in ground (arith, ih)

pub same_front-text :
    (s t r q : Bytes) (n : ℕ)
    → Lacks 0 s
    → Lacks 0 t
    → length s < n
    → length t < n
    → same_front (text s r) (text t q) n ≡ same_bytes s t
same_front-text s t r q zero hs ht e f = absurd (omega arith)
same_front-text [] [] r q (suc n) hs ht e f = refl
same_front-text [] (c ∷ t) r q (suc n) hs (hc, ht) e f = ground arith
same_front-text (b ∷ s) [] r q (suc n) (hb, hs) ht e f = ground arith
same_front-text (b ∷ s) (c ∷ t) r q (suc n) (hb, hs) (hc, ht) e f =
    let ih = same_front-text s t r q n hs ht (omega arith) (omega arith) in ground (arith, ih)

-- `str_diffn(s, t, n) <= 0`
abbrev pub front_at_most : Bytes → Bytes → ℕ → Bool
front_at_most s t zero = true
front_at_most (b ∷ s) (c ∷ t) (suc n) =
    let rest = front_at_most s t n in if b == c then (if b == 0 then true else rest) else ltb b c
front_at_most _ _ (suc n) = false

pub front_same :
    (s t : Bytes) (n : ℕ)
    → front_at_most s t n ≡ true
    → front_at_most t s n ≡ true
    → same_front s t n ≡ true
front_same s t zero h k = refl
front_same [] t (suc n) h k = ground arith
front_same (b ∷ s) [] (suc n) h k = ground arith
front_same (b ∷ s) (c ∷ t) (suc n) h k = let ih = front_same s t n in ground (arith, ih)

abbrev pub djb : Djb
djb = record {
  fmt_ulong = decimal;
  fmt_ulong-IsDecimal = λ u h. decimal-IsDecimal u;
  scan_ulong =
      λ s. record { count = length (digits_of s); result = value 0 (digits_of s) % u64_mod };
  scan_ulong_lem = λ ds rest c h other. rw (digits_of-append ds rest c h other) refl;
  str_len = string_length;
  str_len-text = string_length-text;
  str_start = begins;
  str_start-text = begins-text;
  str_equaln = same_front;
  str_equaln-append = same_front-append;
  str_equaln-text = same_front-text;
  str_at_mostn = front_at_most;
  str_at_mostn-str_equaln = front_same;
  byte_copy = take;
  byte_copy-take = λ n s h. refl;
}

-- Fractions in place of floating point numbers.
abbrev pub Fraction : Type 0
Fraction = ℕ × ℕ

abbrev pub whole_part : Fraction → Option ℕ
whole_part (a, b) = if b == 0 then none else if ltb (a / b) u64_mod then some (a / b) else none

pub whole_part_lt : (x : Fraction) (n : ℕ) → whole_part x ≡ some n → n < u64_mod
whole_part_lt (a, b) n h = elim (Bool-cases (b == 0)) [
  | inl e ↦ let h' = rw e at h in cc
  | inr e ↦ elim (Bool-cases (ltb (a / b) u64_mod)) [
    | inl q ↦
        let h' = rw (e, q) at h in
        let same : a / b ≡ n = cc in let small = ltb→lt (a / b) u64_mod q in omega arith
    | inr q ↦ let h' = rw (e, q) at h in cc
  ]
]

-- The fraction has a value, of at most 2 ^ k.
abbrev pub is_within : Fraction → ℕ → Bool
is_within (a, b) k = ltb 0 b && leb a (2 ^ k * b)

pub within_intro : (a b k : ℕ) → 0 < b → a ≤ 2 ^ k * b → is_within (a, b) k ≡ true
within_intro a b k p h = rw (lt→ltb 0 b p, le→leb a (2 ^ k * b) h) refl

pub within_elim : (a b k : ℕ) → is_within (a, b) k ≡ true → (0 < b) × (a ≤ 2 ^ k * b)
within_elim a b k h =
    let (p, q) = and_both (ltb 0 b) (leb a (2 ^ k * b)) h in (ltb→lt 0 b p, leb→le a (2 ^ k * b) q)

pub of_u64-within : (n k : ℕ) → n ≤ 2 ^ k → is_within (n, 1) k ≡ true
of_u64-within n k h = within_intro n 1 k (omega arith) (omega arith)

pow_add : (j k : ℕ) → 2 ^ (j + k) ≡ 2 ^ j * 2 ^ k
pow_add j zero = let same : j + 0 ≡ j = omega arith in rw same (grind arith)
pow_add j (suc k) =
    let up : j + suc k ≡ suc (j + k) = omega arith in
    let a = pow-suc 2 (j + k) in
    let b = pow-suc 2 k in let ih = pow_add j k in rw up (grind (arith, a, b, ih))

pub div-within :
    (a b m j k : ℕ)
    → 2 ^ j ≤ m
    → is_within (a, b) (j + k) ≡ true
    → is_within (a * 1, b * m) k ≡ true
div-within a b m j k large h =
    let split = pow_add j k in
    let (p, q) = within_elim a b (j + k) h in
    let pos : 0 < 2 ^ j = one-le-pow j 2 (omega arith) in
    within_intro (a * 1) (b * m) k (grind arith) (
      let step : 2 ^ j * (2 ^ k * b) ≤ m * (2 ^ k * b) = mul-le-mul_right (2 ^ k * b) large in
      grind (arith, split, step))

pub mul-within :
    (a b m j k : ℕ)
    → m ≤ 2 ^ j
    → is_within (a, b) k ≡ true
    → is_within (a * m, b * 1) (j + k) ≡ true
mul-within a b m j k small h =
    let split = pow_add j k in
    let (p, q) = within_elim a b k h in
    within_intro (a * m) (b * 1) (j + k) (omega arith)
      (let step : a * m ≤ 2 ^ k * b * 2 ^ j = mul-le-mul q small in grind (arith, split, step))

pub add_half-within :
    (a b k : ℕ) → is_within (a, b) k ≡ true → is_within (a * 2 + 1 * b, b * 2) (suc k) ≡ true
add_half-within a b k h =
    let (p, q) = within_elim a b k h in
    within_intro (a * 2 + 1 * b) (b * 2) (suc k) (omega arith) (
      let double = pow-suc 2 k in
      let one : 1 * b ≤ 2 ^ k * b = mul-le-mul_right b (one-le-pow k 2 (omega arith)) in
      grind (arith, double, one))

pub whole_part-within :
    (a b k : ℕ) → k < 64 → is_within (a, b) k ≡ true → (n : ℕ) × (whole_part (a, b) ≡ some n)
whole_part-within a b k small h =
    let (p, q) = within_elim a b k h in
    let le : a / b ≤ 2 ^ k = div-le_of_le-mul b (grind arith) in
    let top : 2 ^ k ≤ 2 ^ 63 = pow-le-pow_right {n = 2} (omega arith) {j = 63} (omega arith) in
    let positive : (b == 0) ≡ false = ground arith in
    let fits : a / b < u64_mod = omega arith in
    (a / b, rw (positive, lt→ltb (a / b) u64_mod fits) refl)

abbrev pub fractions : Double Fraction
fractions = record {
  of_u64 = λ n. (n, 1);
  of_i64 = λ n. (n, 1);
  is_negative = λ x. false;
  mul = λ x y. (x.0 * y.0, x.1 * y.1);
  add = λ x y. (x.0 * y.1 + y.0 * x.1, x.1 * y.1);
  div = λ x y. (x.0 * y.1, x.1 * y.0);
  half = (1, 2);
  to_u64 = whole_part;
  to_u64-lt = whole_part_lt;
  is_within = is_within;
  of_u64-within = λ n k room h. of_u64-within n k h;
  div-within = λ x m j k large fits h. div-within (x.0) (x.1) m j k large h;
  mul-within = λ x m j k small room h. mul-within (x.0) (x.1) m j k small h;
  add_half-within = λ x k room h. add_half-within (x.0) (x.1) k h;
  to_u64-within = λ x k room h. whole_part-within (x.0) (x.1) k room h;
}
