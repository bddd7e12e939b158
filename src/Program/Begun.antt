-- ===== src/Program/Begun.antt =====
-- What a run knows of the static variables while the modules of its arguments start.
use ustat.Base.{
  ℕ, true, false, Bytes, List, [], some, ◌≡◌, refl, sym, ◌∙◌, ap, ◌⊎◌, inl, inr, ◌==◌, get_or, set,
  Bool-cases, Option-cases, append-nil,
}
use ustat.Djb.{Djb}
use ustat.Double.{Double}
use ustat.Io.{Write}
use ustat.Program.Again.{core-IsSettled}
use ustat.Program.Begin.{begin}
use ustat.Program.Cores.{Part, core, started_with, run_init-IsCore}
use ustat.Program.Views.{View, view, put, view-put}
use ustat.Program.World.{World, System, run_init, handlers}
use ustat.Program.{Init, State, module_at}

module _ (d : Djb) {D : Type 0} (f : Double D) (sys : System) (w0 : World D) where
  -- A start on the first contents that succeeds, and leaves the part `v`.
  pub record Begun (i : Init) (v : View D i) : Type 0 where
    pub left : Part (View D i)
    pub logs : List Write
    pub starts : core d f sys i (view D i w0) ≡ some (left, logs)
    pub succeeds : (left.rc == 0) ≡ false
    pub leaves : left.part ≡ v

  pub Begun-unique : (i : Init) (v v' : View D i) → Begun i v → Begun i v' → v ≡ v'
  Begun-unique i v v' b b' =
      let both : b.left ≡ b'.left = cc in sym b.leaves ∙ ap (λ x. x.part) both ∙ b'.leaves

  -- Each part is as the program began, or as a start has left it; the part of a module that is ready
  -- has begun.
  pub record Consistent (st : State (World D)) : Type 0 where
    pub parts : (i : Init) → (view D i st.world ≡ view D i w0) ⊎ Begun i (view D i st.world)
    pub readied :
        (j : ℕ)
        → get_or st.ready j false ≡ true
        → Begun (module_at j).init (view D (module_at j).init st.world)

  -- What has begun stays.
  unfoldable pub Keeps : State (World D) → State (World D) → Type 0
  Keeps st st' = (i : Init) → Begun i (view D i st.world) → view D i st'.world ≡ view D i st.world

  -- A start on a part that has begun, or on its first contents: it leaves what the first start left.
  pub core-Begun :
      (i : Init) (v v' : View D i)
      → (v ≡ view D i w0) ⊎ Begun i v
      → Begun i v'
      → (p : Part (View D i)) × (ws : List Write) × (core d f sys i v ≡ some (p, ws))
        × ((p.rc == 0) ≡ false)
        × (p.part ≡ v')
  core-Begun i v v' (inl same) b =
      (b.left, b.logs, ap (λ x. core d f sys i x) same ∙ b.starts, b.succeeds, b.leaves)
  core-Begun i v v' (inr old) b =
      let same : v ≡ v' = Begun-unique i v v' old b in
      let (r, again) = core-IsSettled d f sys i (view D i w0) b.left b.logs b.starts b.succeeds in
      (
        record b.left { is_ready = r },
        [],
        ap (λ x. core d f sys i x) (same ∙ sym b.leaves) ∙ again,
        b.succeeds,
        b.leaves,
      )

  pub run_init-starts :
      (i : Init) (w : World D) (s : Bytes) (l : ℕ) (p : Part (View D i)) (ws : List Write)
      → core d f sys i (view D i w) ≡ some (p, ws)
      → run_init d f sys i w false s l ≡ some (started_with d f sys i w p, ws)
  run_init-starts i w s l p ws e = run_init-IsCore d f sys i w s l ∙ rw e (rw append-nil refl)

  -- The state behind a start of the entry `j` that left `p`.
  abbrev pub after : (j : ℕ) → State (World D) → Part (View D (module_at j).init) → State (World D)
  after j st p = record {
    world = put D (module_at j).init p.part st.world;
    ready = set st.ready j p.is_ready;
  }

  pub begin-after :
      (j : ℕ) (arg : Bytes) (st : State (World D)) (p : Part (View D (module_at j).init))
      (ws : List Write)
      → (j == 0) ≡ false
      → get_or st.ready j false ≡ false
      → core d f sys (module_at j).init (view D (module_at j).init st.world) ≡ some (p, ws)
      → (p.rc == 0) ≡ false
      → begin d (handlers d f sys) j arg st ≡ some (some (after j st p))
  unfolding begin
  begin-after j arg st p ws named old e ok =
      rw
        (
          named,
          old,
          run_init-starts (module_at j).init st.world arg (d.str_len arg) p ws e,
          ok,
          begin,
        )
        refl

  -- A module that starts alone leaves its part begun.
  pub begin-alone :
      (j : ℕ) (arg : Bytes) (st st' : State (World D))
      → st.world ≡ w0
      → get_or st.ready j false ≡ false
      → begin d (handlers d f sys) j arg st ≡ some (some st')
      → ((j == 0) ≡ true) ⊎ Begun (module_at j).init (view D (module_at j).init st'.world)
  unfolding begin
  begin-alone j arg st st' fresh old e = elim (Bool-cases (j == 0)) [
    | inl none_asked ↦ inl none_asked
    | inr named ↦
        elim (Option-cases (core d f sys (module_at j).init (view D (module_at j).init st.world))) [
          | inl q ↦
              let e' =
                rw
                  (
                    named,
                    old,
                    run_init-IsCore d f sys (module_at j).init st.world arg (d.str_len arg),
                    q,
                    begin,
                  )
                  at e in
              cc
          | inr ((p, ws), q) ↦ elim (Bool-cases (p.rc == 0)) [
            | inl failed ↦
                let e' =
                  rw
                    (
                      named,
                      old,
                      run_init-starts (module_at j).init st.world arg (d.str_len arg) p ws q,
                      failed,
                      begin,
                    )
                    at e in
                cc
            | inr ok ↦
                let st_is : after j st p ≡ st' =
                  let both = begin-after j arg st p ws named old q ok in cc in
                inr (record {
                  left = p;
                  logs = ws;
                  starts =
                      ap (λ w. core d f sys (module_at j).init (view D (module_at j).init w))
                        (sym fresh)
                      ∙ q;
                  succeeds = ok;
                  leaves =
                      sym (view-put D (module_at j).init p.part st.world)
                      ∙ ap (λ x. view D (module_at j).init x.world) st_is;
                })
          ]
        ]
  ]
