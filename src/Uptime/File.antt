-- ===== src/Uptime/File.antt =====
-- A file that one read takes into a buffer, with a zero byte behind it.
use ustat.Base.{
  ℕ, zero, suc, ◌%◌, ◌≤◌, ◌<◌, Bytes, [], ◌∷◌, ◌++◌, none, some, leb, u64_mod, ◌≡◌, refl, arith, ap,
  length, drop, length-append, length-drop, set-append_length, append_assoc, le→leb, All,
  length-take, Bool-cases, inl, inr, leb→le, pos,
}
use ustat.Decimal.{IsDigit, value}
use ustat.Djb.{Djb, text}
use ustat.Io.{store_in, store_out, store_all_in, Fd, chunk, sys_read, char_array}
use ustat.Uptime.{read_text, get_boottime, fmt_ulong_size}

pub drop-item : (n : ℕ) (xs : Bytes) → n < length xs → (x : ℕ) × (drop n xs ≡ x ∷ drop (suc n) xs)
drop-item n [] h = absurd (omega arith)
drop-item zero (x ∷ xs) h = (x, refl)
drop-item (suc n) (x ∷ xs) h = drop-item n xs (omega arith)

pub short_read :
    (n : ℕ) (b : Bytes) (fd : Fd)
    → length b ≤ n
    → ((sys_read n (chunk b ∷ fd)).ret ≡ pos (length b)) × ((sys_read n (chunk b ∷ fd)).bytes ≡ b)
unfolding sys_read
short_read n b fd h =
    (rw (le→leb (length b) n h, sys_read) refl, rw (le→leb (length b) n h, sys_read) refl)

-- A text that is shorter than the buffer.
pub read_text-text :
    (buf b : Bytes) (fd : Fd)
    → length b < length buf
    → read_text buf (chunk b ∷ fd) ≡ some (text b (drop (suc (length b)) buf))
unfolding read_text
read_text-text buf b fd h =
    let (ret_is, bytes_is) = short_read (length buf) b fd (omega arith) in
    let (x, item) = drop-item (length b) buf h in
    let stored = b ++ drop (length b) buf in
    let behind = length-drop (length b) buf in
    let room : length b < length stored =
      omega (arith, length-append b (drop (length b) buf), behind) in
    rw
      (
        ret_is,
        bytes_is,
        store_all_in buf b (omega arith),
        store_in stored (length b) 0 room,
        item,
        set-append_length b x 0 (drop (suc (length b)) buf),
        read_text,
      )
      refl

full_read :
    (n : ℕ) (b : Bytes) (fd : Fd)
    → n ≤ length b
    → ((sys_read n (chunk b ∷ fd)).ret ≡ pos n) × (length (sys_read n (chunk b ∷ fd)).bytes ≡ n)
unfolding sys_read
full_read n b fd h = elim (Bool-cases (leb (length b) n)) [
  | inl e ↦
      let same : length b ≡ n = omega (arith, leb→le (length b) n e) in
      rw (e, sys_read) (ap pos same, same)
  | inr e ↦ rw (e, sys_read) (refl, length-take n b h)
]

-- A file that fills the buffer: the zero byte goes behind it.
pub read_text_full :
    (buf b : Bytes) (fd : Fd) → length buf ≤ length b → read_text buf (chunk b ∷ fd) ≡ none
unfolding read_text
read_text_full buf b fd h =
    let (ret_is, long) = full_read (length buf) b fd h in
    let got = (sys_read (length buf) (chunk b ∷ fd)).bytes in
    let whole : length (got ++ drop (length got) buf) ≡ length buf =
      omega
        (arith, long, length-append got (drop (length got) buf), length-drop (length got) buf) in
    rw
      (
        ret_is,
        store_all_in buf got (omega (arith, long)),
        store_out (got ++ drop (length got) buf) (length buf) 0 (omega (arith, whole)),
        read_text,
      )
      refl

module _ (d : Djb) where
  -- The number of seconds at the front of /proc/uptime, up to the point, becomes the uptime, where
  -- the file has less than forty bytes and is read at once.
  pub get_boottime-value :
      (ds rest : Bytes) (c uptime : ℕ) (fd : Fd)
      → All IsDigit ds
      → (IsDigit c → ⊥)
      → length (ds ++ c ∷ rest) < 40
      → get_boottime d (some (chunk (ds ++ c ∷ rest) ∷ fd)) uptime ≡ some (value 0 ds % u64_mod)
  unfolding get_boottime
  get_boottime-value ds rest c uptime fd digits other small =
      let behind = drop (suc (length (ds ++ c ∷ rest))) (char_array fmt_ulong_size) in
      let memory : text (ds ++ c ∷ rest) behind ≡ ds ++ c ∷ (rest ++ 0 ∷ behind) =
        append_assoc ds (c ∷ rest) (0 ∷ behind) in
      rw
        (
          read_text-text (char_array fmt_ulong_size) (ds ++ c ∷ rest) fd small,
          memory,
          d.scan_ulong_lem ds (rest ++ 0 ∷ behind) c digits other,
          get_boottime,
        )
        refl
