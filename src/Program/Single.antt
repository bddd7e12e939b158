-- ===== src/Program/Single.antt =====
-- A run with one argument: the start of its module, and what it prints.
use ustat.Base.{ℕ, false, Bytes, List, [], ◌∷◌, some, ◌≡◌, refl, ◌∙◌, ◌==◌, get_or, append-nil}
use ustat.Djb.{Djb}
use ustat.Io.{Write, said, stdout}
use ustat.Program.Begin.{Quiet, begin}
use ustat.Program.Runs.{begin_all, printed, outcome, main-outcome}
use ustat.Program.{State, Started, Handlers, module_at, select_module, wants_usage, main}

module _ (d : Djb) {W : Type 0} (h : Handlers W) (quiet : Quiet h) where
  -- The module of the argument starts, with the state `s.world` behind it, and prints `t`.
  pub record Runs (arg : Bytes) (st : State W) (j : ℕ) (s : Started W) (t : Bytes) : Type 0 where
    pub selected : select_module d arg ≡ j
    pub named : (j == 0) ≡ false
    pub not_ready : get_or st.ready j false ≡ false
    pub init_logs : List Write
    pub starts : h.init (module_at j).init st.world false arg (d.str_len arg) ≡ some (s, init_logs)
    pub succeeds : (s.rc == 0) ≡ false
    pub prints :
        said stdout (h.print (module_at j).print stdout s.world (module_at j) arg (d.str_len arg))
        ≡ some (tt, t)

  pub main-Runs :
      (arg : Bytes) (st : State W) (j : ℕ) (s : Started W) (t : Bytes)
      → wants_usage d (arg ∷ []) ≡ false
      → Runs arg st j s t
      → said stdout (main d h st (arg ∷ [])) ≡ some (0, t)
  unfolding begin_all begin printed outcome
  main-Runs arg st j s t plain r =
      main-outcome d h quiet (arg ∷ []) st plain
      ∙ rw
          (
            r.selected, r.named, r.not_ready, r.starts, r.succeeds, r.selected, r.prints,
            append-nil, outcome, begin_all, begin, printed,
          )
          refl
