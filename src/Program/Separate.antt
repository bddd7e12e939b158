-- ===== src/Program/Separate.antt =====
-- A run with several arguments, from the runs with each of them alone.
use mathlib.Core.Path.{subst}
use ustat.Base.{
  ℕ, zero, suc, true, false, Bytes, List, [], ◌∷◌, Option, none, some, ◌≡◌, refl, sym, ◌∙◌, ap, ◌⊎◌,
  inl, inr, ◌==◌, get_or, arith, Option-cases, append-nil, map, All,
}
use ustat.Djb.{Djb}
use ustat.Double.{Double}
use ustat.Io.{said, stdout}
use ustat.Program.Begin.{begin}
use ustat.Program.Begun.{Begun, Begun-unique, Consistent, Keeps, begin-alone}
use ustat.Program.Owners.{owner-module_at, run_print-owner}
use ustat.Program.Runs.{begin_all, printed, outcome, main-outcome}
use ustat.Program.Silence.{concat, handlers-Quiet}
use ustat.Program.Steps.{BegunAt, begins}
use ustat.Program.Views.{view}
use ustat.Program.World.{World, System, run_print, handlers}
use ustat.Program.{Init, State, module_at, select_module, wants_usage, main}

module _ (d : Djb) {D : Type 0} (f : Double D) (sys : System) (st0 : State (World D)) where
  abbrev printing : ℕ → Bytes → World D → Option (Unit {0} × Bytes)
  printing j arg w =
      said stdout (run_print d f sys (module_at j).print stdout w (module_at j) arg (d.str_len arg))

  -- The run with the argument alone succeeds with the text.
  abbrev pub IsAlone : Bytes × Bytes → Type 0
  IsAlone (arg, t) =
      (wants_usage d (arg ∷ []) ≡ false)
      × (said stdout (main d (handlers d f sys) st0 (arg ∷ [])) ≡ some (0, t))

  -- How such a run comes to its text.
  record Shown (arg t : Bytes) : Type 0 where
    alone : State (World D)
    starts : begin d (handlers d f sys) (select_module d arg) arg st0 ≡ some (some alone)
    shows : printing (select_module d arg) arg alone.world ≡ some (tt, t)

  shown : (arg t : Bytes) → IsAlone (arg, t) → Shown arg t
  unfolding begin_all outcome printed
  shown arg t (plain, runs) =
      let e =
        sym (main-outcome d (handlers d f sys) (handlers-Quiet d f sys) (arg ∷ []) st0 plain)
        ∙ runs in
      elim (Option-cases (begin d (handlers d f sys) (select_module d arg) arg st0)) [
        | inl q ↦ let e' = rw (q, begin_all, outcome) at e in cc
        | inr (none, q) ↦
            let e' = rw (q, begin_all, outcome) at e in
            let wrong : ◌≡◌ {A = ℕ} 1 0 = cc in ground arith
        | inr (some st, q) ↦
            let e' = rw (q, begin_all, outcome) at e in
            elim (Option-cases (printing (select_module d arg) arg st.world)) [
              | inl p ↦ let e'' = rw (p, printed) at e' in cc
              | inr ((u, t'), p) ↦
                  let e'' = rw (p, printed, append-nil) at e' in
                  let same : t' ≡ t = cc in
                  record { alone = st; starts = q; shows = p ∙ ap (λ x. some (tt, x)) same }
            ]
      ]

  pub HasBegun : Bytes → World D → Type 0
  HasBegun arg w =
      ((select_module d arg == 0) ≡ true)
      ⊎ BegunAt d f sys st0.world (module_at (select_module d arg)).init w

  -- The part of an entry is what its start leaves, whichever starts are around it.
  part_same :
      (j : ℕ) (w w' : World D)
      → ((j == 0) ≡ true) ⊎ BegunAt d f sys st0.world (module_at j).init w
      → ((j == 0) ≡ true) ⊎ BegunAt d f sys st0.world (module_at j).init w'
      → view D (module_at j).init w ≡ view D (module_at j).init w'
  part_same zero w w' b b' = refl
  part_same (suc j) w w' (inl none_asked) b' = ground arith
  part_same (suc j) w w' (inr b) (inl none_asked) = ground arith
  part_same (suc j) w w' (inr b) (inr b') =
      Begun-unique d f sys st0.world (module_at (suc j)).init (view D (module_at (suc j)).init w)
        (view D (module_at (suc j)).init w') b b'

  printing_same :
      (j : ℕ) (arg : Bytes) (w w' : World D)
      → view D (module_at j).init w ≡ view D (module_at j).init w'
      → printing j arg w ≡ printing j arg w'
  printing_same j arg w w' same =
      ap (λ m. said stdout m)
        (run_print-owner d f sys (module_at j).print stdout w w' (module_at j) arg (d.str_len arg)
          (subst (λ i. view D i w ≡ view D i w') (sym (owner-module_at j)) same))

  -- All arguments have started, and the parts of their modules are begun.
  pub record Ends (runs : List (Bytes × Bytes)) (st : State (World D)) : Type 0 where
    pub final : State (World D)
    pub begins_all : begin_all d (handlers d f sys) (map (λ p. p.0) runs) st ≡ some (some final)
    pub consistent : Consistent d f sys st0.world final
    pub keeps : Keeps d f sys st0.world st final
    pub begun : All (λ p. HasBegun p.0 final.world) runs

  module _ (fresh : (j : ℕ) → get_or st0.ready j false ≡ false) where
    first_begun : (arg t : Bytes) → (a : Shown arg t) → HasBegun arg a.alone.world
    unfolding HasBegun
    first_begun arg t a =
        begin-alone d f sys st0.world (select_module d arg) arg st0 a.alone refl
          (fresh (select_module d arg)) a.starts

    still_begun :
        (arg : Bytes) (w w' : World D)
        → HasBegun arg w
        → ((i : Init) → BegunAt d f sys st0.world i w → view D i w' ≡ view D i w)
        → HasBegun arg w'
    unfolding HasBegun
    still_begun arg w w' (inl none_asked) keeps = inl none_asked
    still_begun arg w w' (inr b) keeps =
        let i = (module_at (select_module d arg)).init in
        inr (subst (λ x. Begun d f sys st0.world i x) (sym (keeps i b)) b)

    pub ends :
        (runs : List (Bytes × Bytes))
        → All IsAlone runs
        → (st : State (World D)) → Consistent d f sys st0.world st
        → Ends runs st
    unfolding begin_all HasBegun Keeps
    ends [] hs st c = record {
      final = st;
      begins_all = refl;
      consistent = c;
      keeps = λ i b. refl;
      begun = tt;
    }
    ends ((arg, t) ∷ runs) (h, hs) st c =
        let j = select_module d arg in
        let a = shown arg t h in
        let n =
          begins d f sys st0.world j arg st (view D (module_at j).init a.alone.world) c
            (first_begun arg t a) in
        let e = ends runs hs n.next n.consistent in
        record {
          final = e.final;
          begins_all = rw (n.begins, begin_all) e.begins_all;
          consistent = e.consistent;
          keeps = λ i b.
              let kept = n.keeps i b in
              e.keeps i (subst (λ x. Begun d f sys st0.world i x) (sym kept) b) ∙ kept;
          begun = (still_begun arg n.next.world e.final.world n.begun e.keeps, e.begun);
        }

    printed-concat :
        (runs : List (Bytes × Bytes)) (w : World D)
        → All IsAlone runs
        → All (λ p. HasBegun p.0 w) runs
        → printed d (handlers d f sys) (map (λ p. p.0) runs) w ≡ some (concat (map (λ p. p.1) runs))
    unfolding printed HasBegun
    printed-concat [] w hs bs = refl
    printed-concat ((arg, t) ∷ runs) w (h, hs) (b, bs) =
        let j = select_module d arg in
        let a = shown arg t h in
        let same = part_same j w a.alone.world b (first_begun arg t a) in
        let now = printing_same j arg w a.alone.world same ∙ a.shows in
        rw (now, printed-concat runs w hs bs) refl

    asks_nothing :
        (runs : List (Bytes × Bytes))
        → All IsAlone runs
        → wants_usage d (map (λ p. p.0) runs) ≡ false
    unfolding wants_usage
    asks_nothing [] hs = refl
    asks_nothing (r ∷ []) ((plain, _), hs) = plain
    asks_nothing (r ∷ r' ∷ runs) hs = refl

    -- The program begins with nothing begun.
    pub first-Consistent : Consistent d f sys st0.world st0
    first-Consistent = record {
      parts = λ i. inl refl;
      readied = λ j is_ready. let wrong : true ≡ false = sym is_ready ∙ fresh j in ground arith;
    }

    -- Where no module is ready: let the run with each of the arguments alone have the exit code 0,
    -- without asking for the usage. Then the run with all of them has the exit code 0, and its
    -- standard output is that of those runs, one behind the other, however the arguments share
    -- modules, and modules the parts of the state.
    pub main-separate :
        (runs : List (Bytes × Bytes))
        → All IsAlone runs
        → said stdout (main d (handlers d f sys) st0 (map (λ p. p.0) runs))
          ≡ some (0, concat (map (λ p. p.1) runs))
    unfolding outcome
    main-separate runs hs =
        let e = ends runs hs st0 first-Consistent in
        main-outcome d (handlers d f sys) (handlers-Quiet d f sys) (map (λ p. p.0) runs) st0
          (asks_nothing runs hs)
        ∙ rw (e.begins_all, outcome, printed-concat runs e.final.world hs e.begun) refl
