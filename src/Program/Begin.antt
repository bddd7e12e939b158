-- ===== src/Program/Begin.antt =====
-- The start of one module, by its outcomes.
use ustat.Base.{
  ℕ, zero, suc, Bool, false, Bytes, List, [], ◌∷◌, ◌++◌, Option, none, some, ◌≡◌, refl, ◌∙◌, ap,
  ◌==◌, if◌then◌else◌, inl, inr, get_or, set, arith, Bool-cases, codes, append-nil,
}
use ustat.Djb.{Djb, cstr}
use ustat.Program.Order.{IsNamed, table-IsNamed, title}
use ustat.Base.{All, Lacks, length, Option-cases}
use ustat.Program.{pass, modules}
use ustat.Io.{
  write-append, Emits, Write, return, stdout, stderr, output, output-append, output-nil, wrote,
}
use ustat.Program.{
  UstatModule, Init, State, Started, Handlers, module_at, start_module, cant_init_module, os_exit,
}

-- No start of a module writes to the standard output.
unfoldable pub Quiet : {W : Type 0} → Handlers W → Type 0
Quiet {W} h =
    (i : Init) (w : W) (r : Bool) (s : Bytes) (l : ℕ) (started : Started W) (ws : List Write)
    → h.init i w r s l ≡ some (started, ws)
    → output stdout ws ≡ []

module _ (d : Djb) {W : Type 0} (h : Handlers W) where
  -- The state behind the start of a module: `none` is a fault, `some none` a module that fails.
  unfoldable pub begin : ℕ → Bytes → State W → Option (Option (State W))
  begin j arg st =
      if j == 0
      then some (some st)
      else if get_or st.ready j false
      then some (some st)
      else elim (h.init (module_at j).init st.world false arg (d.str_len arg)) [
        | none ↦ none
        | some (s, ws) ↦
            if s.rc == 0
            then some none
            else some (some (record { world = s.world; ready = set st.ready j s.is_ready }))
      ]

  -- The three outcomes of a start, as `begin` gives them.
  unfoldable pub Starts : Emits (Option (State W)) → Option (Option (State W)) → Type 0
  Starts m none = m ≡ none
  Starts m (some next) = (ws : List Write) × (m ≡ some (next, ws)) × (output stdout ws ≡ [])

  -- The names of the table end with a zero byte.
  IsNamed-at : (j : ℕ) (ms : List UstatModule) → All IsNamed ms → IsNamed (get_or ms j pass)
  unfolding IsNamed
  IsNamed-at j [] hs = (refl, tt)
  IsNamed-at zero (m ∷ ms) (now, hs) = now
  IsNamed-at (suc j) (m ∷ ms) (now, hs) = IsNamed-at j ms hs

  is_named : (j : ℕ) → IsNamed (module_at j)
  unfolding IsNamed
  is_named j = IsNamed-at j modules ((refl, tt), table-IsNamed)

  complaint :
      (m : UstatModule) (t : Bytes)
      → m.name ≡ cstr t
      → Lacks 0 t
      → (ws : List Write) × (cant_init_module d m ≡ some (tt, ws)) × (output stdout ws ≡ [])
  unfolding cant_init_module os_exit output
  complaint m t name clean =
      let long : d.str_len m.name ≡ length t = ap d.str_len name ∙ d.str_len-text t [] clean in
      let quote = d.str_len-text (codes "\"") [] (omega arith, tt) in
      (
        wrote stderr (cstr (codes "\nerror init module \""))
            ∷ wrote stderr t
            ∷ wrote stderr (codes "\"")
            ∷ wrote stderr (codes "\n")
            ∷ [],
        rw (long, name, quote, write-append stderr t (0 ∷ [])) refl,
        refl,
      )

  pub start_module-begin :
      Quiet h
      → (j : ℕ) (arg : Bytes) (st : State W)
      → Starts (if j == 0 then return (some st) else start_module d h j arg st) (begin j arg st)
  unfolding start_module begin Starts Quiet IsNamed
  start_module-begin quiet j arg st =
      let started = h.init (module_at j).init st.world false arg (d.str_len arg) in
      elim (Bool-cases (j == 0)) [
        | inl e ↦ rw e ([], refl, output-nil stdout)
        | inr e ↦ elim (Bool-cases (get_or st.ready j false)) [
          | inl e' ↦ rw (e, e') ([], refl, output-nil stdout)
          | inr e' ↦ elim (Option-cases started) [
            | inl none_is ↦ rw (e, e', none_is) refl
            | inr ((s, ws), some_is) ↦
                let silent =
                  quiet (module_at j).init st.world false arg (d.str_len arg) s ws some_is in
                elim (Bool-cases (s.rc == 0)) [
                  | inl zero_is ↦
                      let (ws', wrote_c, silent_c) =
                        complaint (module_at j) (title (module_at j)) ((is_named j).0)
                          ((is_named j).1) in
                      rw (e, e', some_is, zero_is, wrote_c)
                        (
                          ws ++ ws',
                          rw append-nil refl,
                          output-append stdout ws ws' ∙ rw (silent, silent_c) refl,
                        )
                  | inr nonzero ↦ rw (e, e', some_is, nonzero) (ws, rw append-nil refl, silent)
                ]
          ]
        ]
      ]
