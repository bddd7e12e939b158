-- ===== src/Program/Silence.antt =====
-- The modules of the table: no start writes to the standard output, and what an argument that names
-- no module prints.
use ustat.Base.{
  ℕ, ◌+◌, ◌-◌, ◌%◌, ◌<◌, Bool, true, false, Bytes, List, [], ◌∷◌, ◌++◌, Option, none, some, ◌≡◌,
  refl, ◌∙◌, arith, map, length, All, Lacks, append-nil, u64_mod,
}
use ustat.Djb.{Djb, cstr}
use ustat.Double.{Double}
use ustat.Fs
use ustat.Helpers
use ustat.Io.{
  write-append, output-wrote, Emits, Write, ◌>>=◌, prepend, from, return, puts, stdout, output,
  output-nil, output-append, said,
}
use ustat.Program.{
  Init, State, no_init, load_init, uptime_init, nusers_init, bat_init, mem_init, fs_init, tcp_init,
  pass_print, module_at, select_module, wants_usage, main,
}
use ustat.Program.Begin.{Quiet, begin}
use ustat.Program.Runs.{begin_all, printed, outcome, main-outcome}
use ustat.Program.World.{World, System, run_init, run_print, handlers}

-- An action whose every result comes without output.
Silent : {A : Type 0} → Emits A → Type 0
Silent {A} m = (a : A) (ws : List Write) → m ≡ some (a, ws) → output stdout ws ≡ []

Silent-return : {A : Type 0} (b : A) → Silent (return b)
unfolding Silent
Silent-return b a ws e = let empty : ws ≡ [] = cc in rw empty (output-nil stdout)

Silent-prepend :
    {A : Type 0} (w : List Write) (m : Emits A)
    → output stdout w ≡ []
    → Silent m
    → Silent (prepend w m)
unfolding Silent
Silent-prepend w none h hm a ws e = ground arith
Silent-prepend w (some (b, w')) h hm a ws e =
    let both : ws ≡ w ++ w' = cc in rw both (output-append stdout w w' ∙ rw (h, hm b w' refl) refl)

Silent-bind :
    {A B : Type 0} (m : Emits A) (k : A → Emits B)
    → Silent m
    → ((a : A) → Silent (k a))
    → Silent (m >>= k)
unfolding Silent
Silent-bind none k hm hk a ws e = ground arith
Silent-bind (some (b, w)) k hm hk a ws e = Silent-prepend w (k b) (hm b w refl) (hk b) a ws e

Silent-from : {A : Type 0} (o : Option A) → Silent (from o)
unfolding Silent
Silent-from none a ws e = ground arith
Silent-from (some b) a ws e = Silent-return b a ws e

Silent-stderr : (b : Bytes) → Silent (puts 2 b)
unfolding Silent output
Silent-stderr b a ws e = let one : ws ≡ record { fd = 2; bytes = b } ∷ [] = cc in rw one refl

fs_found-Silent : (fs : List Fs.UstatFs) → Silent (Fs.fs_found fs)
fs_found-Silent [] =
    Silent-bind (puts 2 Fs.error_no_fs_entries) (λ u. return (Fs.fs_result 0 [] false))
      (Silent-stderr Fs.error_no_fs_entries) (λ u. Silent-return (Fs.fs_result 0 [] false))
fs_found-Silent (f ∷ fs) = Silent-return _

fs_init-Silent :
    (platform : List Fs.UstatFs → Option (List Fs.UstatFs)) (fs : List Fs.UstatFs) (r : Bool)
    → Silent (Fs.fs_init platform fs r)
unfolding Fs.fs_init
fs_init-Silent platform (f ∷ fs) r = Silent-return _
fs_init-Silent platform [] true = Silent-return _
fs_init-Silent platform [] false =
    Silent-bind (from (platform [])) Fs.fs_found (Silent-from (platform [])) fs_found-Silent

-- The texts, one behind the other.
abbrev pub concat : List Bytes → Bytes
concat [] = []
concat (t ∷ ts) = t ++ concat ts

-- A text that goes to the first entry of the table.
unfoldable pub PassesThrough : Djb → Bytes → Type 0
PassesThrough d t = (select_module d (cstr t) ≡ 0) × Lacks 0 t × (length t < u64_mod)

module _ (d : Djb) {D : Type 0} (f : Double D) (sys : System) where
  run_init-Silent :
      (i : Init) (w : World D) (r : Bool) (s : Bytes) (l : ℕ) → Silent (run_init d f sys i w r s l)
  unfolding run_init
  run_init-Silent no_init w r s l = Silent-return _
  run_init-Silent load_init w r s l = Silent-return _
  run_init-Silent uptime_init w r s l = Silent-bind _ _ (Silent-from _) (λ x. Silent-return _)
  run_init-Silent nusers_init w r s l = Silent-bind _ _ (Silent-from _) (λ x. Silent-return _)
  run_init-Silent bat_init w r s l = Silent-bind _ _ (Silent-from _) (λ x. Silent-return _)
  run_init-Silent mem_init w r s l = Silent-return _
  run_init-Silent fs_init w r s l = Silent-bind _ _ (fs_init-Silent _ w.fs r) (λ x. Silent-return _)
  run_init-Silent tcp_init w r s l = Silent-bind _ _ (Silent-from _) (λ x. Silent-return _)

  -- The starts of all modules of the table, with whatever the system gives them, write nothing to
  -- the standard output.
  pub handlers-Quiet : Quiet (handlers d f sys)
  unfolding Quiet Silent
  handlers-Quiet i w r s l a ws e = run_init-Silent i w r s l a ws e

  starts_none :
      (ts : List Bytes) (st : State (World D))
      → All (PassesThrough d) ts
      → begin_all d (handlers d f sys) (map (λ t. cstr t) ts) st ≡ some (some st)
  unfolding begin_all begin PassesThrough
  starts_none [] st h = refl
  starts_none (t ∷ ts) st ((zero_is, clean, small), h) =
      rw (zero_is, begin_all) (starts_none ts st h)

  passed :
      (t : Bytes) (w : World D)
      → Lacks 0 t
      → length t < u64_mod
      → said stdout
          (run_print d f sys pass_print stdout w (module_at 0) (cstr t) (d.str_len (cstr t)))
        ≡ some (tt, t)
  unfolding run_print Helpers.pass_print
  passed t w clean small =
      let no_name : d.str_len (cstr []) ≡ 0 = d.str_len-text [] [] tt in
      let long : d.str_len (cstr t) ≡ length t = d.str_len-text t [] clean in
      let left : (length t + u64_mod - 0) % u64_mod ≡ length t = omega arith in
      rw (no_name, long, left, write-append 1 t (0 ∷ []), output-wrote, output-nil, append-nil) refl

  printed-concat :
      (ts : List Bytes) (w : World D)
      → All (PassesThrough d) ts
      → printed d (handlers d f sys) (map (λ t. cstr t) ts) w ≡ some (concat ts)
  unfolding printed PassesThrough
  printed-concat [] w h = refl
  printed-concat (t ∷ ts) w ((zero_is, clean, small), h) =
      rw (zero_is, passed t w clean small, printed-concat ts w h) refl

  -- Arguments that go to the first entry of the table, none of which asks for the usage, are printed
  -- as they stand, one behind the other, with the exit code 0, whatever the system gives and
  -- whatever the modules hold.
  pub main-concat :
      (ts : List Bytes) (st : State (World D))
      → All (PassesThrough d) ts
      → wants_usage d (map (λ t. cstr t) ts) ≡ false
      → said stdout (main d (handlers d f sys) st (map (λ t. cstr t) ts)) ≡ some (0, concat ts)
  unfolding outcome
  main-concat ts st h plain =
      main-outcome d (handlers d f sys) handlers-Quiet (map (λ t. cstr t) ts) st plain
      ∙ rw (starts_none ts st h, outcome, printed-concat ts st.world h) refl
