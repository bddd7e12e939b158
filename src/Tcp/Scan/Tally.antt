-- ===== src/Tcp/Scan/Tally.antt =====
-- How `_process_proc_tcp` counts a file of rows.
use ustat.Base.{
  ℕ, ◌+◌, ◌<◌, Bytes, List, [], ◌∷◌, ◌++◌, ◌≡◌, refl, ap, ◌∙◌, arith, ◌==◌, length-set,
  if◌then◌else◌, length, All, Lacks, get_or, u64_mod, ◌%◌, ◌/◌,
}
use ustat.Hex.Digits.{hex_char}
use ustat.Io.{Fd, content}
use ustat.Tcp.Count.{count, tally_states, get_or-tally_states}
use ustat.Tcp.Scan.Stream.{scan, process_proc_tcp-scan}
use ustat.Tcp.Scan.Rows.{
  Row, IsRow, print_row, print_rows, bump, count_state-hex2, scan-line, scan_row,
}
use ustat.Tcp.Scan.{Counters, returns, skip_leading_ws, process_proc_tcp}

-- The counters after the rows.
abbrev pub tally : Counters → List Row → Counters
tally store [] = store
tally store (r ∷ rs) = tally (bump store r.state) rs

abbrev pub IsGood : Row → Type 0
IsGood r = IsRow r × (r.state < 12)

-- The code returns 1 once a row is counted.
abbrev pub some_row : List Row → ℕ → ℕ
some_row [] rc = rc
some_row (r ∷ rs) rc = 1

some_row_one : (rs : List Row) → some_row rs 1 ≡ 1
some_row_one [] = refl
some_row_one (r ∷ rs) = refl

pub length-tally : (store : Counters) (rs : List Row) → length (tally store rs) ≡ length store
length-tally store [] = refl
length-tally store (r ∷ rs) = length-tally (bump store r.state) rs ∙ length-set store r.state _

-- The rows whose socket is in state `v`.
abbrev pub sockets_in : ℕ → List Row → ℕ
sockets_in v [] = 0
sockets_in v (r ∷ rs) = (if r.state == v then 1 else 0) + sockets_in v rs

-- The states of the rows.
abbrev pub states : List Row → List ℕ
states [] = []
states (r ∷ rs) = r.state ∷ states rs

pub tally-states :
    (store : Counters) (rs : List Row) → tally store rs ≡ tally_states store (states rs)
tally-states store [] = refl
tally-states store (r ∷ rs) = tally-states (bump store r.state) rs

pub sockets_in-states : (v : ℕ) (rs : List Row) → sockets_in v rs ≡ count v (states rs)
sockets_in-states v [] = refl
sockets_in-states v (r ∷ rs) = omega (arith, sockets_in-states v rs)

pub length-states : (rs : List Row) → length (states rs) ≡ length rs
length-states [] = refl
length-states (r ∷ rs) = omega (arith, length-states rs)

pub states-fit : (rs : List Row) → All IsGood rs → All (λ s. s < 12) (states rs)
states-fit [] h = tt
states-fit (r ∷ rs) (g, h) = (g.1, states-fit rs h)

pub get_or-tally :
    (store : Counters) (rs : List Row) (v : ℕ)
    → All IsGood rs
    → length store ≡ 12
    → get_or store v 0 < u64_mod
    → get_or (tally store rs) v 0 ≡ (get_or store v 0 + sockets_in v rs) % u64_mod
get_or-tally store rs v h l b =
    rw (tally-states store rs, sockets_in-states v rs)
      (get_or-tally_states store (states rs) v (states-fit rs h) l b)

-- At the start of a line the field and the byte before do not matter.
scan_line_start :
    (k p rc : ℕ) (store : Counters) (s : Bytes)
    → scan 3 12 skip_leading_ws k p s store rc ≡ scan 3 12 skip_leading_ws 0 0 s store rc
unfolding scan
scan_line_start k p rc store [] = refl
scan_line_start k p rc store (c ∷ s) = ground (arith, scan_line_start k p rc store s)

scan_good_row :
    (k p rc : ℕ) (r : Row) (store : Counters) (rest : Bytes)
    → IsGood r
    → length store ≡ 12
    → scan 3 12 skip_leading_ws k p (print_row r rest) store rc
      ≡ scan 3 12 skip_leading_ws 0 0 rest (bump store r.state) 1
scan_good_row k p rc r store rest (v, small) l =
    let d = hex_char (r.state / 16) in
    scan_row rc store k p r rest v
    ∙ rw (count_state-hex2 r.state store (omega arith) (omega arith) v.state_byte) (
        scan-line 1 (bump store r.state) 3 d r.others rest v.one_line
        ∙ scan_line_start 3 d 1 (bump store r.state) rest)

scan_rows :
    (rc : ℕ) (rs : List Row) (store : Counters) (rest : Bytes)
    → All IsGood rs
    → length store ≡ 12
    → scan 3 12 skip_leading_ws 0 0 (print_rows rs rest) store rc
      ≡ scan 3 12 skip_leading_ws 0 0 rest (tally store rs) (some_row rs rc)
scan_rows rc [] store rest h l = refl
scan_rows rc (r ∷ rs) store rest (g, h) l =
    scan_good_row 0 0 rc r store (print_rows rs rest) g l
    ∙ scan_rows 1 rs (bump store r.state) rest h (length-set store r.state _ ∙ l)
    ∙ ap (scan 3 12 skip_leading_ws 0 0 rest (tally store (r ∷ rs))) (some_row_one rs)

module _ (fd : Fd) (header : Bytes) (rs : List Row) (store : Counters) (rest : Bytes)
    (whole : content fd ≡ header ++ b'\n' ∷ print_rows rs rest) (one_line : Lacks b'\n' header)
    (good : All IsGood rs) (size : length store ≡ 12) where
  process-print_rows :
      process_proc_tcp fd 3 store 12
      ≡ scan 3 12 skip_leading_ws 0 0 rest (tally store rs) (some_row rs 0)
  process-print_rows =
      process_proc_tcp-scan fd 3 store 12
      ∙ rw whole (scan-line 0 store 0 0 header (print_rows rs rest) one_line)
      ∙ scan_rows 0 rs store rest good size

pub process_proc_tcp-sockets_in :
    (fd : Fd) (header : Bytes) (rs : List Row) (store : Counters) (v : ℕ)
    → content fd ≡ header ++ b'\n' ∷ print_rows rs []
    → Lacks b'\n' header
    → All IsGood rs
    → length store ≡ 12
    → get_or store v 0 < u64_mod
    → (process_proc_tcp fd 3 store 12 ≡ returns (some_row rs 0) (tally store rs))
      × (get_or (tally store rs) v 0 ≡ (get_or store v 0 + sockets_in v rs) % u64_mod)
unfolding scan
process_proc_tcp-sockets_in fd header rs store v whole line good size fits = (
  process-print_rows fd header rs store [] whole line good size,
  get_or-tally store rs v good size fits,
)
