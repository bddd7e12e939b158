-- ===== src/Program/Steps.antt =====
-- One start of a run keeps what the run knows of the static variables.
use mathlib.Core.Path.{subst}
use ustat.Base.{
  ℕ, Bool, true, false, Bytes, List, some, ◌≡◌, refl, sym, ◌∙◌, ◌⊎◌, inl, inr, ◌==◌, get_or, set,
  get_or-set_ne, arith, Bool-cases, ◌≢◌,
}
use ustat.Djb.{Djb}
use ustat.Double.{Double}
use ustat.Program.Begin.{begin}
use ustat.Program.Begun.{Begun, Begun-unique, Consistent, Keeps, core-Begun, after, begin-after}
use ustat.Program.Views.{View, view, put, view-put, view-put_other}
use ustat.Program.World.{World, System, handlers}
use ustat.Program.{Init, State, module_at}

ready_before :
    (rs : List Bool) (j k : ℕ) (b : Bool)
    → get_or (set rs j b) k false ≡ true
    → (k ≡ j) ⊎ (get_or rs k false ≡ true)
ready_before rs j k b h = elim (Bool-cases (k == j)) [
  | inl same ↦ inl (ground arith)
  | inr other ↦
      let ne : j ≢ k = λ e. ground arith in inr (sym (get_or-set_ne rs j k b false ne) ∙ h)
]

module _ (d : Djb) {D : Type 0} (f : Double D) (sys : System) (w0 : World D) where
  abbrev pub BegunAt : Init → World D → Type 0
  BegunAt i w = Begun d f sys w0 i (view D i w)

  -- The entry `j` starts, or has started, and the state behind it is consistent still.
  pub record Next (j : ℕ) (arg : Bytes) (st : State (World D)) : Type 0 where
    pub next : State (World D)
    pub begins : begin d (handlers d f sys) j arg st ≡ some (some next)
    pub consistent : Consistent d f sys w0 next
    pub keeps : Keeps d f sys w0 st next
    pub begun : ((j == 0) ≡ true) ⊎ BegunAt (module_at j).init next.world

  Keeps-refl : (st : State (World D)) → Keeps d f sys w0 st st
  unfolding Keeps
  Keeps-refl st i b = refl

  -- A part that a start has left is put into the static variables.
  module _ (i : Init) (v : View D i) (w : World D) (b : Begun d f sys w0 i v) where
    begun_here : BegunAt i (put D i v w)
    begun_here = subst (λ x. Begun d f sys w0 i x) (sym (view-put D i v w)) b

    put-keeps : (k : Init) → BegunAt k w → view D k (put D i v w) ≡ view D k w
    put-keeps k old = elim (view-put_other D i k v w) [
      | inl same ↦
          subst (λ x. BegunAt x w → view D x (put D i v w) ≡ view D x w) (sym same)
            (λ was. view-put D i v w ∙ Begun-unique d f sys w0 i v (view D i w) b was) old
      | inr other ↦ other
    ]

    put-parts :
        (k : Init)
        → (view D k w ≡ view D k w0) ⊎ BegunAt k w
        → (view D k (put D i v w) ≡ view D k w0) ⊎ BegunAt k (put D i v w)
    put-parts k part = elim (view-put_other D i k v w) [
      | inl same ↦ inr (subst (λ x. BegunAt x (put D i v w)) (sym same) begun_here)
      | inr other ↦ subst (λ x. (x ≡ view D k w0) ⊎ Begun d f sys w0 k x) (sym other) part
    ]

  begins_anew :
      (j : ℕ) (arg : Bytes) (st : State (World D)) (v : View D (module_at j).init)
      → Consistent d f sys w0 st
      → Begun d f sys w0 (module_at j).init v
      → (j == 0) ≡ false
      → get_or st.ready j false ≡ false
      → Next j arg st
  unfolding Keeps
  begins_anew j arg st v c b named old =
      let i = (module_at j).init in
      let (p, ws, e, ok, leaves) = core-Begun d f sys w0 i (view D i st.world) v (c.parts i) b in
      let here : Begun d f sys w0 i p.part = subst (λ x. Begun d f sys w0 i x) (sym leaves) b in
      record {
        next = after d f sys w0 j st p;
        begins = begin-after d f sys w0 j arg st p ws named old e ok;
        consistent = record {
          parts = λ k. put-parts i p.part st.world here k (c.parts k);
          readied = λ k is_ready. elim (ready_before st.ready j k p.is_ready is_ready) [
            | inl same ↦
                subst (λ x. BegunAt (module_at x).init (put D i p.part st.world)) (sym same)
                  (begun_here i p.part st.world here)
            | inr before ↦
                let was = c.readied k before in
                subst (λ x. Begun d f sys w0 (module_at k).init x)
                  (sym (put-keeps i p.part st.world here (module_at k).init was)) was
          ];
        };
        keeps = λ k was. put-keeps i p.part st.world here k was;
        begun = inr (begun_here i p.part st.world here);
      }

  -- A module that can start alone starts in every consistent state.
  pub begins :
      (j : ℕ) (arg : Bytes) (st : State (World D)) (v : View D (module_at j).init)
      → Consistent d f sys w0 st
      → ((j == 0) ≡ true) ⊎ Begun d f sys w0 (module_at j).init v
      → Next j arg st
  unfolding begin
  begins j arg st v c (inl none_asked) = record {
    next = st;
    begins = rw (none_asked, begin) refl;
    consistent = c;
    keeps = Keeps-refl st;
    begun = inl none_asked;
  }
  begins j arg st v c (inr b) = elim (Bool-cases (j == 0)) [
    | inl none_asked ↦ record {
      next = st;
      begins = rw (none_asked, begin) refl;
      consistent = c;
      keeps = Keeps-refl st;
      begun = inl none_asked;
    }
    | inr named ↦ elim (Bool-cases (get_or st.ready j false)) [
      | inl is_ready ↦ record {
        next = st;
        begins = rw (named, is_ready, begin) refl;
        consistent = c;
        keeps = Keeps-refl st;
        begun = inr (c.readied j is_ready);
      }
      | inr old ↦ begins_anew j arg st v c b named old
    ]
  ]
