-- ===== src/Program/Numbers.antt =====
-- Runs that print the loads, and the number of processes.
use native.Mathlib.Nat.{pow-le-pow_right}
use ustat.Base.{
  suc, Bool, if◌then◌else◌, leb, ◌&&◌, Bool-cases, inl, inr, ℕ, ◌<◌, ◌≤◌, ◌≡◌, refl, ap, arith,
  true, false, Bytes, List, [], ◌∷◌, ◌++◌, ◌^◌, some, codes, replicate, get_or-replicate, length,
  length-replicate, u64_mod, append-nil,
}
use ustat.Decimal.{IsDecimal-unique}
use ustat.Djb.{Djb, cstr, fmt_into_fits}
use ustat.Double.{Double}
use ustat.Fmt.Digits.{decimal, decimal-IsDecimal}
use ustat.Helpers.{count_processes, print_exact, nproc_print}
use ustat.Io.{wrote, said, said-eq-some, stdout, output-wrote, output-nil, write-append, char_array}
use ustat.Load.Text.{load_text, load_print-fixed_text}
use ustat.Load.{load_init, load_print}
use ustat.Program.Choice.{select_module-module_at}
use ustat.Program.Silence.{handlers-Quiet}
use ustat.Program.Single.{main-Runs}
use ustat.Program.World.{World, System, run_init, run_print, handlers}
use ustat.Program.{State, Started, nmodules, wants_usage, main}

-- A name that begins with a digit.
abbrev pub is_numeric : Bytes → Bool
is_numeric [] = false
is_numeric (c ∷ s) = leb b'0' c && leb c b'9'

abbrev pub numeric_names : List Bytes → List Bytes
numeric_names [] = []
numeric_names (name ∷ names) =
    if is_numeric name then name ∷ numeric_names names else numeric_names names

count_processes-numeric_names :
    (names : List Bytes) → count_processes names ≡ length (numeric_names names)
unfolding count_processes
count_processes-numeric_names [] = refl
count_processes-numeric_names ([] ∷ names) = count_processes-numeric_names names
count_processes-numeric_names ((c ∷ s) ∷ names) =
    let ih = count_processes-numeric_names names in
    elim (Bool-cases (leb b'0' c && leb c b'9')) [ inl e ↦ rw e (ap suc ih) | inr e ↦ rw e ih ]

numeric_names-le : (names : List Bytes) → length (numeric_names names) ≤ length names
numeric_names-le [] = omega arith
numeric_names-le (name ∷ names) =
    let ih = numeric_names-le names in
    elim (Bool-cases (is_numeric name)) [ inl e ↦ rw e (omega arith) | inr e ↦ rw e (omega arith) ]

print_exact-fmt_ulong :
    (d : Djb) (fd n : ℕ) → print_exact d fd n ≡ some (1, wrote fd (d.fmt_ulong n) ∷ [])
unfolding print_exact
print_exact-fmt_ulong d fd n =
    let room =
      fmt_into_fits d (char_array (length (d.fmt_ulong n))) n
        (omega (arith, length-replicate {A = ℕ} (length (d.fmt_ulong n)) 0)) in
    rw (room, write-append) refl

module _ (d : Djb) {D : Type 0} (double : Double D) (sys : System) where
  -- A fresh run with the argument `nproc`, where /proc opens: the exit code is 0, and the standard
  -- output is the decimal number of its entries whose names begin with a digit.
  pub main-count_processes :
      (names : List Bytes) (st : State (World D))
      → sys.proc ≡ some names
      → length names < u64_mod
      → st.ready ≡ replicate nmodules false
      → said stdout (main d (handlers d double sys) st (cstr (codes "nproc") ∷ []))
        ≡ some (0, decimal (length (numeric_names names)))
  unfolding run_init run_print nproc_print wants_usage
  main-count_processes names st e small idle =
      let n = length (numeric_names names) in
      let started : Started (World D) = record { rc = 1; world = st.world; is_ready = true } in
      let fits : n < u64_mod = omega (arith, numeric_names-le names) in
      let same : d.fmt_ulong n ≡ decimal n =
        IsDecimal-unique (d.fmt_ulong n) (decimal n) (d.fmt_ulong-IsDecimal n fits)
          (decimal-IsDecimal n) in
      main-Runs d (handlers d double sys) (handlers-Quiet d double sys) (cstr (codes "nproc")) st 10
        started (decimal n)
        (d.str_equaln-append (codes "np") (codes "-h") (codes "roc" ++ 0 ∷ []) (0 ∷ []) 2
          (ground arith) (ground arith) refl refl)
        (record {
          selected = select_module-module_at d 9 [] (omega arith);
          named = refl;
          not_ready = rw idle (get_or-replicate nmodules 10 false);
          init_logs = [];
          starts = refl;
          succeeds = refl;
          prints =
              rw (e, count_processes-numeric_names names, print_exact-fmt_ulong d stdout n)
                (rw (output-wrote, output-nil, append-nil) (ap (λ s. some (tt, s)) same));
        })

  -- A fresh run with the argument `load`, where the system gives the three loads as numbers of 64
  -- bits, with at least nine binary digits behind the point: the exit code is 0, and the standard
  -- output is the three loads over their scale, each with two digits behind the point, and a blank
  -- between them.
  pub main-load_text :
      (a b c : ℕ) (st : State (World D))
      → sys.loads ≡ some (a, b, c)
      → a < u64_mod
      → b < u64_mod
      → c < u64_mod
      → 9 ≤ sys.si_load_shift
      → sys.si_load_shift < 64
      → st.ready ≡ replicate nmodules false
      → let text : ℕ → Bytes = λ n. load_text d double stdout n (2 ^ sys.si_load_shift) in
        said stdout (main d (handlers d double sys) st (cstr (codes "load") ∷ []))
        ≡ some (0, text a ++ codes " " ++ (text b ++ codes " " ++ text c))
  unfolding run_init run_print load_init wants_usage
  main-load_text a b c st e ha hb hc nine small idle =
      let scale = 2 ^ sys.si_load_shift in
      let large : 2 ^ 9 ≤ scale =
        pow-le-pow_right {n = 2} (omega arith) {j = sys.si_load_shift} nine in
      let top : scale ≤ 2 ^ 63 = pow-le-pow_right {n = 2} (omega arith) {j = 63} (omega arith) in
      let fits : scale < u64_mod = omega arith in
      let now = (load_init double (some (a, b, c)) scale st.world.load).0 in
      let text : ℕ → Bytes = λ n. load_text d double stdout n scale in
      let whole = text a ++ codes " " ++ (text b ++ codes " " ++ text c) in
      let (ws, prints, wrote) =
        said-eq-some stdout (load_print double d stdout now)
          (load_print-fixed_text d double stdout a b c scale st.world.load ha hb hc large fits) in
      let started : Started (World D) = record {
        rc = 1;
        world = record st.world { load = now };
        is_ready = true;
      } in
      main-Runs d (handlers d double sys) (handlers-Quiet d double sys) (cstr (codes "load")) st 3
        started whole
        (d.str_equaln-append (codes "lo") (codes "-h") (codes "ad" ++ 0 ∷ []) (0 ∷ []) 2
          (ground arith) (ground arith) refl refl)
        (record {
          selected = select_module-module_at d 2 [] (omega arith);
          named = refl;
          not_ready = rw idle (get_or-replicate nmodules 3 false);
          init_logs = [];
          starts = rw e refl;
          succeeds = refl;
          prints = rw (prints, append-nil, wrote) refl;
        })
