-- ===== src/Program/LoggedIn.antt =====
-- A run that prints the number of users.
use mathlib.Core.List.{Permᴰ}
use ustat.Base.{
  ℕ, ◌<◌, ◌^◌, true, false, ◌≡◌, refl, arith, List, [], ◌∷◌, ◌++◌, some, codes, replicate,
  get_or-replicate, map, All, u64_mod, append-nil, pos, negsuc,
}
use ustat.Decimal.{IsDecimal-unique}
use ustat.Djb.{Djb, cstr, fmt_into_fits, length-fmt_ulong_le}
use ustat.Double.{Double}
use ustat.Fmt.Digits.{decimal, decimal-IsDecimal}
use ustat.Io.{said, stdout, output-wrote, output-nil, write-append, char_array}
use ustat.Program.Choice.{select_module-module_at}
use ustat.Program.Silence.{handlers-Quiet}
use ustat.Program.Single.{main-Runs}
use ustat.Program.World.{World, System, run_init, run_print, handlers}
use ustat.Program.{State, Started, nmodules, wants_usage, main}
use ustat.Users.Count.{Login, utmpx_of, names, nusers_init-distinct}
use ustat.Users.Distinct.{distinct}
use ustat.Users.Names.{name_t_cmp_at_most-name_t_cmp, Fits, name_of}
use ustat.Users.Sorted.{IsOrdered, IsPrefixFree}
use ustat.Users.{name_t_cmp_at_most, nusers_print}

module _ (d : Djb) {D : Type 0} (double : Double D) (sys : System) (n : ℕ) (ls : List Login) where
  -- A fresh run with the argument `nusers`. The user database has the logins `ls`, whose names are
  -- C strings that are shorter than the field of `n` bytes; the memory of the names holds zeros; no
  -- name is a proper prefix of another. What qsort(3) gives are the names, in an order in which each
  -- is at most those behind it by `name_t_cmp`. Then the exit code is 0, and the standard output is the decimal number of
  -- different names, which is below 10 ^ 6.
  pub main-distinct :
      (st : State (World D))
      → sys.utmpx ≡ map utmpx_of ls
      → sys.blank_name ≡ replicate n 0
      → All (λ l. Fits n l.name) ls
      → Permᴰ (map (name_of n) (names ls)) (sys.qsort (map (name_of n) (names ls)))
      → IsOrdered (name_t_cmp_at_most d) (sys.qsort (map (name_of n) (names ls)))
      → IsPrefixFree (names ls)
      → distinct (names ls) < 10 ^ 6
      → st.world.nusers ≡ negsuc 0
      → st.ready ≡ replicate nmodules false
      → said stdout (main d (handlers d double sys) st (cstr (codes "nusers") ∷ []))
        ≡ some (0, decimal (distinct (names ls)))
  unfolding run_init run_print nusers_print wants_usage
  main-distinct st database zeros fits perm ordered free few first idle =
      let k = distinct (names ls) in
      let counted =
        nusers_init-distinct d n sys.qsort (name_t_cmp_at_most d) ls 0 fits perm ordered
          (name_t_cmp_at_most-name_t_cmp d n) free in
      let started : Started (World D) = record {
        rc = 1;
        world = record st.world { nusers = pos k };
        is_ready = true;
      } in
      let small : k < u64_mod = omega arith in
      let digits : d.fmt_ulong k ≡ decimal k =
        IsDecimal-unique (d.fmt_ulong k) (decimal k) (d.fmt_ulong-IsDecimal k small)
          (decimal-IsDecimal k) in
      let room = fmt_into_fits d (char_array 6) k (length-fmt_ulong_le d 5 k small few) in
      main-Runs d (handlers d double sys) (handlers-Quiet d double sys) (cstr (codes "nusers")) st 9
        started (decimal k)
        (d.str_equaln-append (codes "nu") (codes "-h") (codes "sers" ++ 0 ∷ []) (0 ∷ []) 2
          (ground arith) (ground arith) refl refl)
        (record {
          selected = select_module-module_at d 8 [] (omega arith);
          named = refl;
          not_ready = rw idle (get_or-replicate nmodules 9 false);
          init_logs = [];
          starts = rw (database, zeros, first, counted, run_init) refl;
          succeeds = refl;
          prints = rw (room, digits, write-append) (rw (output-wrote, output-nil, append-nil) refl);
        })
