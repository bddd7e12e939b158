-- ===== src/Tcp/Reader/Stream.antt =====
-- The buffered reader gives the bytes of the file one by one, wherever the reads cut it.
use mathlib.Core.Path.{subst}
use native.Mathlib.Decide.{dec_lt}
use ustat.Base.{
  ℕ, suc, ◌+◌, ◌≤◌, ◌<◌, Bytes, true, false, pos, negsuc, geb_ℤ, [], ◌∷◌, ◌++◌, ◌≡◌, refl, sym, ap,
  ◌∙◌, arith, if◌then◌else◌, length, length-append, drop, take, get_or, length-take, length-drop,
  take-append_length, le→leb,
}
use ustat.Io.{Fd, sys_read, content}
use ustat.Tcp.Reader.{Reader, initial, fill, take_byte, read_byte, buf_size}
use ustat.Tcp.Reader.Reads.{sys_read-cons, sys_read-nil, drop-cons, get_or-take, drop_all}

-- What the reads to come give.
abbrev pub ahead : Reader → Bytes
ahead r = elim r.limit [
  | pos n ↦ drop (suc r.position) (take n r.buf) ++ content r.fd
  | negsuc n ↦ []
]

-- The buffer holds as much as the last read filled, and no read has failed.
pub record IsReady (r : Reader) : Type 0 where
  pub filled : ℕ
  pub limit_is : r.limit ≡ pos filled
  pub fits : filled ≤ length r.buf
  pub no_error : r.err ≡ pos 0
  pub size : length r.buf ≡ buf_size

pub initial-IsReady : (fd : Fd) → IsReady (initial fd)
initial-IsReady fd = record {
  filled = 0;
  limit_is = refl;
  fits = omega arith;
  no_error = refl;
  size = refl;
}

-- What one call of `_read_byte` does to the reader, when there is a byte `c`.
pub record Gives (r r' : Reader) (c : ℕ) (rest : Bytes) : Type 0 where
  pub cur_is : r'.cur ≡ c
  pub prev_is : r'.prev ≡ r.prev
  pub field_is : r'.field ≡ r.field
  pub ready : IsReady r'
  pub ahead_is : ahead r' ≡ rest

-- The call on `r` gives `c`, and leaves `rest`.
abbrev pub Yields : Reader → ℕ → Bytes → Type 0
Yields r c rest = ((read_byte r).1 ≡ true) × Gives r (read_byte r).0 c rest

abbrev with_limit : Reader → ℕ → Reader
with_limit r n = record r { limit = pos n }

-- A byte that is still in the buffer.
module _ (r : Reader) (n c : ℕ) (rest : Bytes) (fits : n ≤ length r.buf) where
  inside :
      suc r.position < n
      → read_byte (with_limit r n) ≡ (
        record r {
          limit = pos n;
          position = suc r.position;
          consumed = r.consumed + 1;
          cur = get_or r.buf (suc r.position) 0;
        },
        true,
      )
  unfolding read_byte
  inside h = ground arith

  ahead-inside :
      suc r.position < n
      → ahead (with_limit r n) ≡ c ∷ rest
      → (get_or r.buf (suc r.position) 0 ≡ c)
        × (drop (suc (suc r.position)) (take n r.buf) ++ content r.fd ≡ rest)
  ahead-inside h e =
      let i = suc r.position in
      let d = drop-cons (take n r.buf) i (omega (arith, length-take n r.buf fits)) in
      let g = get_or-take r.buf i n h in (cc, cc)

  inside-Yields :
      suc r.position < n
      → length r.buf ≡ buf_size
      → r.err ≡ pos 0
      → ahead (with_limit r n) ≡ c ∷ rest
      → Yields (with_limit r n) c rest
  inside-Yields h size ok e =
      let (byte, more) = ahead-inside h e in
      rw (inside h) (
        refl,
        record {
          cur_is = byte;
          prev_is = refl;
          field_is = refl;
          ready = record { filled = n; limit_is = refl; fits = fits; no_error = ok; size = size };
          ahead_is = more;
        },
      )

read_byte_lem :
    (r : Reader)
    → read_byte r
      ≡ take_byte (
          if geb_ℤ (suc r.position) r.limit
          then fill (record r { position = suc r.position })
          else record r { position = suc r.position })
unfolding read_byte
read_byte_lem r = refl

-- The buffer is used up, and the next read fills it.
module _ (r : Reader) (n : ℕ) (used : n ≤ suc r.position) (size : length r.buf ≡ buf_size) where
  refill : ℕ → Bytes → Fd → Reader
  refill c b left = record r {
    position = 0;
    limit = pos (suc (length b));
    consumed = r.consumed + 1;
    cur = c;
    buf = c ∷ (b ++ drop (suc (length b)) r.buf);
    fd = left;
  }

  filled :
      (c : ℕ) (b : Bytes) (left : Fd)
      → sys_read buf_size r.fd ≡ record { ret = pos (suc (length b)); bytes = c ∷ b; left = left }
      → read_byte (with_limit r n) ≡ (refill c b left, true)
  unfolding fill take_byte refill
  filled c b left got = rw (read_byte_lem (with_limit r n), le→leb n (suc r.position) used, got)

  filled-Yields :
      (c : ℕ) (rest : Bytes)
      → r.err ≡ pos 0
      → content r.fd ≡ c ∷ rest
      → Yields (with_limit r n) c rest
  unfolding refill
  filled-Yields c rest ok e =
      let (b, left, got, behind, small) = sys_read-cons 16383 r.fd c rest e in
      let room = length-append b (drop (suc (length b)) r.buf) in
      let room' = length-drop (suc (length b)) r.buf in
      rw (filled c b left got) (
        refl,
        record {
          cur_is = refl;
          prev_is = refl;
          field_is = refl;
          ready = record {
            filled = suc (length b);
            limit_is = refl;
            fits = omega (arith, room);
            no_error = ok;
            size = omega (arith, room, room', small, size);
          };
          ahead_is = rw take-append_length behind;
        },
      )

  ended : content r.fd ≡ [] → (read_byte (with_limit r n)).1 ≡ false
  unfolding fill take_byte
  ended e =
      rw (read_byte_lem (with_limit r n), le→leb n (suc r.position) used, sys_read-nil 16383 r.fd e)

-- Nothing is left in the buffer.
spent :
    (r : Reader) (n : ℕ)
    → n ≤ length r.buf
    → n ≤ suc r.position
    → content r.fd ≡ ahead (with_limit r n)
spent r n fits h =
    rw (drop_all (take n r.buf) (suc r.position) (omega (arith, length-take n r.buf fits)))

-- One call of `_read_byte`, whatever the reads of the file give: the next byte, if there is one.
pub read_byte-Yields :
    (r : Reader) (c : ℕ) (rest : Bytes) → IsReady r → ahead r ≡ c ∷ rest → Yields r c rest
read_byte-Yields r c rest v e =
    let n = v.filled in
    let same : r ≡ with_limit r n = λ i. record r { limit = v.limit_is i } in
    let e' : ahead (with_limit r n) ≡ c ∷ rest = ap ahead (sym same) ∙ e in
    subst (λ x. Yields x c rest) (sym same)
      (elim (dec_lt (suc r.position) n) [
        | yes h ↦ inside-Yields r n c rest v.fits h v.size v.no_error e'
        | no h ↦
            filled-Yields r n (omega arith) v.size c rest v.no_error
              (spent r n v.fits (omega arith) ∙ e')
      ])

pub read_byte_end : (r : Reader) → IsReady r → ahead r ≡ [] → (read_byte r).1 ≡ false
read_byte_end r v e =
    let n = v.filled in
    let same : r ≡ with_limit r n = λ i. record r { limit = v.limit_is i } in
    let e' : ahead (with_limit r n) ≡ [] = ap ahead (sym same) ∙ e in
    subst (λ x. (read_byte x).1 ≡ false) (sym same)
      (elim (dec_lt (suc r.position) n) [
        | yes h ↦
            let cut = length-take n r.buf v.fits in
            let d = drop-cons (take n r.buf) (suc r.position) (omega (arith, cut)) in cc
        | no h ↦ ended r n (omega arith) v.size (spent r n v.fits (omega arith) ∙ e')
      ])
