-- ===== src/Program/Usage.antt =====
-- What `usage` prints.
use ustat.Base.{
  Bool, true, ◌&&◌, Bytes, List, [], ◌∷◌, ◌++◌, some, ◌≡◌, refl, ◌∙◌, ap, All, Lacks, codes, length,
  append-nil, append_assoc,
}
use ustat.Djb.{Djb, cstr}
use ustat.Io.{write-append, said, stdout, wrote, output, output-wrote, output-nil, Write, write}
use ustat.Program.Order.{
  until_zero, title, IsNamed, table-IsNamed, and_both, same, no_zero, all_of, same-eq,
  no_zero-Lacks, All-map, all_of-All,
}
use ustat.Program.{UstatModule, named_modules, usage_loop, usage}

-- The description of a module, without its zero byte.
abbrev pub description : UstatModule → Bytes
description m = until_zero m.descr

IsDescribed : UstatModule → Type 0
IsDescribed m = (m.descr ≡ cstr (description m)) × Lacks 0 (description m)

described : UstatModule → Bool
described m = same m.descr (cstr (description m)) && no_zero (description m)

described-IsDescribed : (m : UstatModule) → described m ≡ true → IsDescribed m
unfolding described IsDescribed
described-IsDescribed m h =
    let (a, b) = and_both (same m.descr (cstr (description m))) (no_zero (description m)) h in
    (same-eq m.descr (cstr (description m)) a, no_zero-Lacks (description m) b)

table-IsDescribed : All IsDescribed named_modules
unfolding described same no_zero all_of
table-IsDescribed =
    All-map described-IsDescribed named_modules (all_of-All described named_modules refl)

-- One line for each module: its name, a tab, and its description.
abbrev pub lines : List UstatModule → Bytes
lines [] = []
lines (m ∷ ms) = title m ++ codes "\t" ++ (description m ++ codes "\n" ++ lines ms)

module _ (d : Djb) where
  text_writes :
      (s t : Bytes)
      → s ≡ cstr t
      → Lacks 0 t
      → write stdout s (d.str_len s) ≡ some (tt, wrote stdout t ∷ [])
  text_writes s t e h =
      let long : d.str_len s ≡ length t = ap d.str_len e ∙ d.str_len-text t [] h in
      rw (long, e, write-append stdout t (0 ∷ [])) refl

  usage_loop-lines :
      (ms : List UstatModule)
      → All IsNamed ms
      → All IsDescribed ms
      → (ws : List Write) × (usage_loop d ms ≡ some (tt, ws)) × (output stdout ws ≡ lines ms)
  unfolding usage_loop IsNamed IsDescribed
  usage_loop-lines [] hn hd = ([], refl, output-nil stdout)
  usage_loop-lines (m ∷ ms) ((name, clean), hn) ((descr, clean'), hd) =
      let (ws, there, gives) = usage_loop-lines ms hn hd in
      (
        wrote stdout (title m)
            ∷ wrote stdout (codes "\t")
            ∷ wrote stdout (description m)
            ∷ wrote stdout (codes "\n")
            ∷ ws,
        rw
            (
              text_writes m.name (title m) name clean,
              text_writes m.descr (description m) descr clean',
              there,
            )
            refl,
        simp (output-wrote, gives, append_assoc),
      )

  -- The usage is one line for each module of the table but the first, in the order of the table: its
  -- name, a tab, and its description. The exit code is 0.
  pub usage-lines : said stdout (usage d) ≡ some (0, lines named_modules)
  unfolding usage
  usage-lines =
      let (ws, there, gives) = usage_loop-lines named_modules table-IsNamed table-IsDescribed in
      rw (there, append-nil, gives) refl
