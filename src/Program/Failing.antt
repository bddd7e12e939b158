-- ===== src/Program/Failing.antt =====
-- A run with an argument whose module does not start.
use ustat.Base.{
  ℕ, true, false, Bytes, List, [], ◌∷◌, ◌++◌, none, some, ◌≡◌, refl, sym, ◌∙◌, ap, inl, inr, ◌==◌,
  get_or, arith, Bool-cases, Option-cases, map, All,
}
use ustat.Djb.{Djb}
use ustat.Double.{Double}
use ustat.Io.{said, stdout, Write}
use ustat.Program.Begin.{begin}
use ustat.Program.Begun.{Begun, Consistent, run_init-starts}
use ustat.Program.Cores.{Part, core, run_init-IsCore}
use ustat.Program.Runs.{begin_all, printed, outcome, main-outcome}
use ustat.Program.Separate.{IsAlone, ends, first-Consistent}
use ustat.Program.Silence.{handlers-Quiet}
use ustat.Program.Views.{View, view}
use ustat.Program.World.{World, System, handlers}
use ustat.Program.{State, Handlers, module_at, select_module, wants_usage, main}

begin_all-append :
    (d : Djb) {W : Type 0} (h : Handlers W) (args rest : List Bytes) (st st' : State W)
    → begin_all d h args st ≡ some (some st')
    → begin_all d h (args ++ rest) st ≡ begin_all d h rest st'
unfolding begin_all
begin_all-append d h [] rest st st' e = let same : st ≡ st' = cc in ap (begin_all d h rest) same
begin_all-append d h (arg ∷ args) rest st st' e =
    elim (Option-cases (begin d h (select_module d arg) arg st)) [
      | inl q ↦ let e' = rw (q, begin_all) at e in cc
      | inr (none, q) ↦ let e' = rw (q, begin_all) at e in cc
      | inr (some next, q) ↦
          rw (q, begin_all) (begin_all-append d h args rest next st' (rw (q, begin_all) at e))
    ]

module _ (d : Djb) {D : Type 0} (f : Double D) (sys : System) (st0 : State (World D)) where
  -- A start on the first contents that fails.
  record Fails (j : ℕ) : Type 0 where
    left : Part (View D (module_at j).init)
    logs : List Write
    named : (j == 0) ≡ false
    starts :
        core d f sys (module_at j).init (view D (module_at j).init st0.world) ≡ some (left, logs)
    refused : (left.rc == 0) ≡ true

  begin-Fails :
      (j : ℕ) (arg : Bytes)
      → get_or st0.ready j false ≡ false
      → begin d (handlers d f sys) j arg st0 ≡ some none
      → Fails j
  unfolding begin
  begin-Fails j arg old e =
      let i = (module_at j).init in
      elim (Bool-cases (j == 0)) [
        | inl q ↦ let e' = rw (q, begin) at e in cc
        | inr named ↦ elim (Option-cases (core d f sys i (view D i st0.world))) [
          | inl q ↦
              let e' =
                rw (named, old, run_init-IsCore d f sys i st0.world arg (d.str_len arg), q, begin)
                  at e in
              cc
          | inr ((p, ws), q) ↦
              let start =
                run_init-starts d f sys st0.world i st0.world arg (d.str_len arg) p ws q in
              elim (Bool-cases (p.rc == 0)) [
                | inl failed ↦ record {
                  left = p;
                  logs = ws;
                  named = named;
                  starts = q;
                  refused = failed;
                }
                | inr ok ↦ let e' = rw (named, old, start, ok, begin) at e in cc
              ]
        ]
      ]

  -- Nothing that the other modules do makes it start.
  not_Begun :
      (j : ℕ) (v : View D (module_at j).init)
      → Fails j
      → Begun d f sys st0.world (module_at j).init v
      → true ≡ false
  not_Begun j v x b =
      let both : x.left ≡ b.left = cc in sym x.refused ∙ ap (λ p. p.rc == 0) both ∙ b.succeeds

  fails_again :
      (j : ℕ) (arg : Bytes) (st : State (World D))
      → Fails j
      → Consistent d f sys st0.world st
      → begin d (handlers d f sys) j arg st ≡ some none
  unfolding begin
  fails_again j arg st x c =
      let i = (module_at j).init in
      elim (Bool-cases (get_or st.ready j false)) [
        | inl is_ready ↦
            let wrong = not_Begun j (view D i st.world) x (c.readied j is_ready) in ground arith
        | inr old ↦ elim (c.parts i) [
          | inl same ↦
              let starts = ap (λ v. core d f sys i v) same ∙ x.starts in
              let start =
                run_init-starts d f sys st0.world i st.world arg (d.str_len arg) x.left x.logs
                  starts in
              rw (x.named, old, start, x.refused, begin) refl
          | inr b ↦ let wrong = not_Begun j (view D i st.world) x b in ground arith
        ]
      ]

  fails_alone :
      (arg t : Bytes)
      → wants_usage d (arg ∷ []) ≡ false
      → said stdout (main d (handlers d f sys) st0 (arg ∷ [])) ≡ some (1, t)
      → begin d (handlers d f sys) (select_module d arg) arg st0 ≡ some none
  unfolding begin_all outcome
  fails_alone arg t plain runs =
      let e =
        sym (main-outcome d (handlers d f sys) (handlers-Quiet d f sys) (arg ∷ []) st0 plain)
        ∙ runs in
      elim (Option-cases (begin d (handlers d f sys) (select_module d arg) arg st0)) [
        | inl q ↦ let e' = rw (q, begin_all, outcome) at e in cc
        | inr (none, q) ↦ q
        | inr (some st, q) ↦
            let e' = rw (q, begin_all, outcome) at e in
            elim (Option-cases (printed d (handlers d f sys) (arg ∷ []) st.world)) [
              | inl p ↦ let e'' = rw p at e' in cc
              | inr (t', p) ↦
                  let e'' = rw p at e' in let wrong : ◌≡◌ {A = ℕ} 0 1 = cc in ground arith
            ]
      ]

  asks_nothing :
      (runs : List (Bytes × Bytes)) (arg : Bytes) (rest : List Bytes)
      → wants_usage d (arg ∷ []) ≡ false
      → wants_usage d (map (λ p. p.0) runs ++ arg ∷ rest) ≡ false
  unfolding wants_usage
  asks_nothing [] arg [] plain = plain
  asks_nothing [] arg (next ∷ rest) plain = refl
  asks_nothing (r ∷ []) arg rest plain = refl
  asks_nothing (r ∷ r' ∷ runs) arg rest plain = refl

  -- Where no module is ready: let the runs with each of some arguments alone have the exit code 0,
  -- and let the run with the argument behind them alone have the exit code 1; none of these runs
  -- asks for the usage. Then the run with all of them, and any arguments behind, has the exit code 1
  -- too, and its standard output is empty: the arguments in front are not printed either.
  pub main_fails :
      ((j : ℕ) → get_or st0.ready j false ≡ false)
      → (runs : List (Bytes × Bytes)) (arg t : Bytes) (rest : List Bytes)
      → All (IsAlone d f sys st0) runs
      → wants_usage d (arg ∷ []) ≡ false
      → said stdout (main d (handlers d f sys) st0 (arg ∷ [])) ≡ some (1, t)
      → said stdout (main d (handlers d f sys) st0 (map (λ p. p.0) runs ++ arg ∷ rest))
        ≡ some (1, [])
  unfolding begin_all outcome
  main_fails fresh runs arg t rest hs plain one =
      let j = select_module d arg in
      let x = begin-Fails j arg (fresh j) (fails_alone arg t plain one) in
      let e = ends d f sys st0 fresh runs hs st0 (first-Consistent d f sys st0 fresh) in
      main-outcome d (handlers d f sys) (handlers-Quiet d f sys) (map (λ p. p.0) runs ++ arg ∷ rest)
        st0 (asks_nothing runs arg rest plain)
      ∙ rw
          (
            begin_all-append d (handlers d f sys) (map (λ p. p.0) runs) (arg ∷ rest) st0 e.final
                e.begins_all,
            begin_all,
            fails_again j arg e.final x e.consistent,
            outcome,
          )
          refl
