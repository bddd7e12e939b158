-- ===== src/Program/Runs.antt =====
-- What a run of the program prints: the two loops of `main`, without the order of their calls.
use ustat.Program.Begin.{Quiet, begin, Starts, start_module-begin}
use ustat.Base.{
  ℕ, false, Bytes, List, [], ◌∷◌, ◌++◌, Option, none, some, ◌≡◌, refl, ◌∙◌, map, append-nil,
}
use ustat.Djb.{Djb}
use ustat.Io.{
  Emits, ◌>>=◌, ◌>>◌, return, stdout, output, output-nil, said, said-prepend, said-prepend_silent,
}
use ustat.Program.{
  State, Handlers, Scanned, exits, chosen, with_choice, module_at, select_module, scan_args,
  print_args, wants_usage, main,
}

module _ (d : Djb) {W : Type 0} (h : Handlers W) where
  -- The state behind the starts that the arguments ask for, from the first to the last.
  unfoldable pub begin_all : List Bytes → State W → Option (Option (State W))
  begin_all [] st = some (some st)
  begin_all (arg ∷ args) st = elim (begin d h (select_module d arg) arg st) [
    | none ↦ none
    | some none ↦ some none
    | some (some st') ↦ begin_all args st'
  ]

  -- The texts of one module and of those behind it.
  abbrev behind : {A : Type 0} → Option (A × Bytes) → Option Bytes → Option Bytes
  behind none rest = none
  behind (some (_, t)) none = none
  behind (some (_, t)) (some ts) = some (t ++ ts)

  abbrev as_said : Option Bytes → Option (Unit {0} × Bytes)
  as_said none = none
  as_said (some t) = some (tt, t)

  print_step :
      (m k : Emits (Unit {0})) (rest : Option Bytes)
      → said stdout k ≡ as_said rest
      → said stdout (m >> k) ≡ as_said (behind (said stdout m) rest)
  print_step none k rest e = refl
  print_step (some (u, ws)) k none e = said-prepend stdout ws k ∙ rw e refl
  print_step (some (u, ws)) k (some t) e = said-prepend stdout ws k ∙ rw e refl

  -- The texts that the modules of the arguments print, one behind the other.
  unfoldable pub printed : List Bytes → W → Option Bytes
  printed [] w = some []
  printed (arg ∷ args) w =
      let rest = printed args w in
      let m = module_at (select_module d arg) in
      behind (said stdout (h.print m.print stdout w m arg (d.str_len arg))) rest

  print_args-printed :
      (args : List Bytes) (w : W)
      → said stdout (print_args d h (map (select_module d) args) args w) ≡ as_said (printed args w)
  unfolding print_args printed
  print_args-printed [] w = rw output-nil
  print_args-printed (arg ∷ args) w =
      let m = module_at (select_module d arg) in
      print_step (h.print m.print stdout w m arg (d.str_len arg)) _ (printed args w)
        (print_args-printed args w)

  abbrev as_scanned : List ℕ → Option (Option (State W)) → Option (Scanned W × Bytes)
  as_scanned js none = none
  as_scanned js (some none) = some (exits 1, [])
  as_scanned js (some (some st)) = some (chosen js st, [])

  -- The arguments behind the first one.
  abbrev rest_of_scan : ℕ → (State W → Emits (Scanned W)) → Option (State W) → Emits (Scanned W)
  rest_of_scan j k none = return (exits 1)
  rest_of_scan j k (some st) = k st >>= λ rest. return (with_choice j rest)

  abbrev rest_of_begin :
      (State W → Option (Option (State W))) → Option (Option (State W)) → Option (Option (State W))
  rest_of_begin r none = none
  rest_of_begin r (some none) = some none
  rest_of_begin r (some (some st)) = r st

  with_first :
      (j : ℕ) (js : List ℕ) (m : Emits (Scanned W)) (o : Option (Option (State W)))
      → said stdout m ≡ as_scanned js o
      → said stdout (m >>= λ rest. return (with_choice j rest)) ≡ as_scanned (j ∷ js) o
  with_first j js none none e = refl
  with_first j js none (some none) e = cc
  with_first j js none (some (some st)) e = cc
  with_first j js (some (s, ws)) none e = cc
  with_first j js (some (exits c, ws)) (some none) e = rw append-nil cc
  with_first j js (some (exits c, ws)) (some (some st)) e = cc
  with_first j js (some (chosen js' st', ws)) (some none) e = cc
  with_first j js (some (chosen js' st', ws)) (some (some st)) e = rw append-nil cc

  scan_step :
      (j : ℕ) (js : List ℕ) (m : Emits (Option (State W))) (o : Option (Option (State W)))
      → Starts d h m o
      → (k : State W → Emits (Scanned W)) (r : State W → Option (Option (State W)))
      → ((st : State W) → said stdout (k st) ≡ as_scanned js (r st))
      → said stdout (m >>= rest_of_scan j k) ≡ as_scanned (j ∷ js) (rest_of_begin r o)
  unfolding Starts
  scan_step j js m none e k r ih = rw e refl
  scan_step j js m (some none) (ws, e, silent) k r ih = rw (e, append-nil, silent) refl
  scan_step j js m (some (some st)) (ws, e, silent) k r ih = rw e (
      said-prepend_silent stdout ws (rest_of_scan j k (some st)) silent
      ∙ with_first j js (k st) (r st) (ih st))

  scan_args-begin_all :
      Quiet h
      → (args : List Bytes) (st : State W)
      → said stdout (scan_args d h args st)
        ≡ as_scanned (map (select_module d) args) (begin_all args st)
  unfolding scan_args begin_all
  scan_args-begin_all quiet [] st = rw output-nil refl
  scan_args-begin_all quiet (arg ∷ args) st =
      let j = select_module d arg in
      scan_step j (map (select_module d) args) _ (begin d h j arg st)
        (start_module-begin d h quiet j arg st) (λ st'. scan_args d h args st')
        (λ st'. begin_all args st') (λ st'. scan_args-begin_all quiet args st')

  print_rest :
      (m : Emits (Unit {0})) (o : Option Bytes)
      → said stdout m ≡ as_said o
      → said {A = ℕ} stdout (m >> return 0) ≡ elim o [ none ↦ none | some t ↦ some (0, t) ]
  print_rest none none e = refl
  print_rest none (some t) e = cc
  print_rest (some (u, ws)) none e = cc
  print_rest (some (u, ws)) (some t) e = rw append-nil cc

  -- What a run gives, from the state behind the starts.
  unfoldable pub outcome : List Bytes → Option (Option (State W)) → Option (ℕ × Bytes)
  outcome args none = none
  outcome args (some none) = some (1, [])
  outcome args (some (some st)) = elim (printed args st.world) [
    | none ↦ none
    | some t ↦ some (0, t)
  ]

  abbrev rest_of_main : List Bytes → Scanned W → Emits ℕ
  rest_of_main args (exits code) = return code
  rest_of_main args (chosen js st) = print_args d h js args st.world >> return 0

  main_rest :
      (args : List Bytes) (m : Emits (Scanned W)) (o : Option (Option (State W)))
      → said stdout m ≡ as_scanned (map (select_module d) args) o
      → said stdout (m >>= rest_of_main args) ≡ outcome args o
  unfolding outcome
  main_rest args none none e = refl
  main_rest args none (some none) e = cc
  main_rest args none (some (some st)) e = cc
  main_rest args (some (s, ws)) none e = cc
  main_rest args (some (exits c, ws)) (some none) e = rw append-nil cc
  main_rest args (some (exits c, ws)) (some (some st)) e = cc
  main_rest args (some (chosen js st', ws)) (some none) e = cc
  main_rest args (some (chosen js st', ws)) (some (some st)) e =
      let js_is : js ≡ map (select_module d) args = cc in
      let st_is : st' ≡ st = cc in
      let silent : output stdout ws ≡ [] = cc in
      said-prepend_silent stdout ws (print_args d h js args st'.world >> return 0) silent
      ∙ rw (js_is, st_is)
          (print_rest (print_args d h (map (select_module d) args) args st.world)
            (printed args st.world) (print_args-printed args st.world))

  -- For every table of functions whose starts do not write to the standard output: a run that does
  -- not ask for the usage starts the modules of its arguments from the first to the last, each that
  -- is not ready; where one fails, the exit code is 1 and the standard output stays empty. Where
  -- none fails the exit code is 0, and the standard output is what the modules of the arguments
  -- print, in the order of the arguments. A fault of a module that is reached is one of the run.
  pub main-outcome :
      Quiet h
      → (args : List Bytes) (st : State W) → wants_usage d args ≡ false
      → said stdout (main d h st args) ≡ outcome args (begin_all args st)
  unfolding main outcome
  main-outcome quiet args st plain = rw plain (
      main_rest args (scan_args d h args st) (begin_all args st)
        (scan_args-begin_all quiet args st))
