-- ===== src/Helpers.antt =====
-- ustat_helper/copy_first_n_fields.c and ustat_helper/read_double_from_fd.c, and the small modules
-- ustat_pass.c, ustat_spec.c, ustat_cpu.c, ustat_procs.c and ustat_date.c.
pub mod Fields
pub mod Endless
pub mod Number
use ustat.Base.{
  ℕ, zero, suc, ◌+◌, ◌-◌, ◌*◌, ◌/◌, ◌%◌, ◌^◌, Bool, true, false, ◌&&◌, ◌||◌, Bytes, List, [], ◌∷◌,
  ◌++◌, Option, none, some, ltb, leb, ◌==◌, if◌then◌else◌, codes, u64_mod, ℤ, pos, negsuc, length,
  get_or, drop,
}
use ustat.Djb.{Djb, fmt_into}
use ustat.Double.{Double}
use ustat.Io.{
  Emits, Fd, Got, ◌>>=◌, ◌>>◌, from, write, puts, return, sys_read, content, char_array, store_all,
}

-- `first_n_fields(out_fd, in_fd, sep, n)`, by the reads that are left. An `n` that is not positive
-- ends the loop like zero does, so it is held as a natural number.
unfoldable pub fields_loop : ℕ → ℕ → Fd → ℕ → ℕ → Emits ℕ
fields_loop zero out_fd fd sep n = none
fields_loop (suc k) out_fd fd sep n =
    let g = sys_read 1 fd in
    elim g.ret [
      | negsuc r ↦ return 1
      | pos zero ↦ return 1
      | pos (suc r) ↦
          let c = get_or g.bytes 0 0 in
          let n' = if c == sep then n - 1 else n in
          elim (n' == 0) [
            | true ↦ return 1
            | false ↦ (do puts out_fd (c ∷ []); fields_loop k out_fd g.left sep n')
          ]
    ]

-- One read for each byte, and one for the end of the file.
unfoldable pub first_n_fields : ℕ → Fd → ℕ → ℕ → Emits ℕ
first_n_fields out_fd fd sep n = fields_loop (suc (length (content fd))) out_fd fd sep n

-- `pass_print`: to the standard output, whatever `fd` is.
unfoldable pub pass_print : Djb → Bytes → Bytes → ℕ → Emits ℕ
pass_print d name s len = do
  let off = d.str_len name
  write 1 (drop off s) ((len + u64_mod - off) % u64_mod)
  return 1

-- `nl_print`
unfoldable pub nl_print : Emits ℕ
nl_print = do puts 1 (codes "\n"); return 1

-- The end of `ncpus_print` and of `nproc_print`: an array of as many bytes as the number has.
unfoldable pub print_exact : Djb → ℕ → ℕ → Emits ℕ
print_exact d fd val = do
  (buf, n) ← from (fmt_into d (char_array (length (d.fmt_ulong val))) val)
  write fd buf n
  return 1

-- `ncpus_print`, with what `sysconf` returns
unfoldable pub ncpus_print : Djb → ℕ → ℤ → Emits ℕ
ncpus_print d fd (negsuc r) = return 0
ncpus_print d fd (pos ncpus) = print_exact d fd ncpus

-- The loop over /proc: the entries whose name begins with a digit.
unfoldable pub count_processes : List Bytes → ℕ
count_processes [] = 0
count_processes (name ∷ names) =
    let rest = count_processes names in
    let c = get_or name 0 0 in if leb b'0' c && leb c b'9' then suc rest else rest

-- `_get_number_active_processes` for BSD: the size of the table that sysctl gives, where it
-- succeeds, over the size of a `struct kinfo_proc`. The number before it is kept where it fails.
unfoldable pub get_number_active_processes_bsd : Option ℕ → ℕ → ℕ → ℕ
get_number_active_processes_bsd none size nproc = nproc
get_number_active_processes_bsd (some val) size nproc = val / size

-- `nproc_print` of BSD
unfoldable pub nproc_print_bsd : Djb → ℕ → Option ℕ → ℕ → Emits ℕ
nproc_print_bsd d fd val size = print_exact d fd (get_number_active_processes_bsd val size 0)

-- `nproc_print`, with the entries of /proc, if it opens
unfoldable pub nproc_print : Djb → ℕ → Option (List Bytes) → Emits ℕ
nproc_print d fd none = print_exact d fd 0
nproc_print d fd (some entries) = print_exact d fd (count_processes entries)

-- `date_print`, with what `strftime` makes of the format behind the name: the bytes, or nothing
-- where they do not fit in 256 bytes.
unfoldable pub date_print : Djb → (Bytes → Option Bytes) → ℕ → Bytes → Bytes → Emits ℕ
date_print d strftime fd name s = elim (strftime (drop (d.str_len name) s)) [
  | none ↦ return 1
  | some t ↦ (do
    buf ← from (store_all (char_array 256) t)
    if ltb 0 (length t) then write fd buf (length t) else return tt
    return 1)
]

-- `c` and `pos` of `read_double_from_fd` behind one more read, and the file.
pub record DoubleReader : Type 0 where
  pub c : ℕ
  pub pos : ℕ
  pub file : Fd

-- `pos += read(fd, &c, 1)`: at the end of the file `c` stays as it is.
unfoldable pub next_char : DoubleReader → DoubleReader
next_char r =
    let g = sys_read 1 r.file in
    elim g.ret [
      | negsuc k ↦ record { c = r.c; pos = (r.pos + (u64_mod - 1)) % u64_mod; file = g.left }
      | pos n ↦ record { c = get_or g.bytes 0 r.c; pos = (r.pos + n) % u64_mod; file = g.left }
    ]

-- How a loop of `read_double_from_fd` ends.
pub data Scanning : Type 0 where
  -- the fuel does not reach
  runs : Scanning
  -- `return pos`
  leaves : ℕ → Scanning
  -- the value and the state behind the loop
  ends : ℕ → ℕ → DoubleReader → Scanning

abbrev pub is_digit : ℕ → Bool
is_digit c = leb b'0' c && leb c b'9'

-- `for ( ; pos > 0 && (c == ' ' || c == '\t'); )`
unfoldable pub skip_blanks : ℕ → DoubleReader → Option DoubleReader
skip_blanks zero r = none
skip_blanks (suc k) r =
    let rest = skip_blanks k (next_char r) in
    if ltb 0 r.pos && (r.c == 32 || r.c == 9) then rest else some r

-- The loop for the decimal; a `char` from 128 on is negative.
unfoldable pub decimal_loop : ℕ → ℕ → DoubleReader → Scanning
decimal_loop zero n r = runs
decimal_loop (suc k) n r =
    let rest = decimal_loop k ((n * 10 + (r.c - b'0')) % u64_mod) (next_char r) in
    if leb 128 r.c
    then ends n 1 r
    else if is_digit r.c
    then rest
    else if r.c == b'.'
    then ends n 1 (next_char r)
    else leaves r.pos

-- The loop for the fraction: `n`, and `l`.
unfoldable pub fraction_loop : ℕ → ℕ → ℕ → DoubleReader → Scanning
fraction_loop zero n l r = runs
fraction_loop (suc k) n l r =
    let rest =
      fraction_loop k ((n * 10 + (r.c - b'0')) % u64_mod) (l * 10 % u64_mod) (next_char r) in
    if leb 128 r.c then ends n l r else if is_digit r.c then rest else ends n l r

module _ {D : Type 0} (f : Double D) where
  -- `v *= (double)sign`, and what is returned
  abbrev pub signed : Bool → D → ℕ → ℕ × Option D
  signed true v p = (p, some (f.mul v (f.of_i64 (u64_mod - 1))))
  signed false v p = (p, some (f.mul v (f.of_i64 1)))

  -- From the decimal on.
  unfoldable pub read_number : ℕ → Bool → DoubleReader → Option (ℕ × Option D)
  read_number k minus r = elim (decimal_loop k 0 r) [
    | runs ↦ none
    | leaves p ↦ some (p, none)
    | ends n _ r' ↦ elim (fraction_loop k 0 1 r') [
      | runs ↦ none
      | leaves p ↦ some (p, none)
      | ends m l r'' ↦
          let v = f.add (f.of_u64 n) (f.mul (f.of_u64 m) (f.div (f.of_u64 1) (f.of_u64 l))) in
          some (signed minus v r''.pos)
    ]
  ]

  -- `read_double_from_fd(fd, &val)`, with fuel for each loop: what it returns, and what it stores.
  unfoldable pub read_double_from_fd : ℕ → Fd → Option (ℕ × Option D)
  read_double_from_fd k fd =
      elim (skip_blanks k (next_char (record { c = 0; pos = 0; file = fd }))) [
        | none ↦ none
        | some r ↦
            let minus = r.c == b'-' in
            let r' = if minus then next_char r else r in
            if r'.pos == 0 then some (signed minus (f.of_u64 0) 0) else read_number k minus r'
      ]
