-- ===== src/Program/Choice.antt =====
-- Which module an argument goes to: the theorems about `select_module`.
use ustat.Base.{
  ℕ, zero, suc, ◌+◌, ◌%◌, ◌<◌, Bool, true, false, ◌&&◌, Bytes, List, [], ◌∷◌, ◌≡◌, refl, ◌∙◌, ap,
  ◌⊎◌, inl, inr, ◌==◌, length, get_or, map, All, Lacks, arith,
}
use ustat.Djb.{Djb, text, starts_with}
use ustat.Program.{UstatModule, pass, named_modules, nmodules, module_at, select_module}
use ustat.Program.Order.{
  all_of, and_both, title, titles, IsNamed, table-IsNamed, find_module-first_title, first_title,
  NotLonger, Match, first_title-Match, unshadowed,
}

title_at : (i : ℕ) (ms : List UstatModule) → title (get_or ms i pass) ≡ get_or (map title ms) i []
title_at i [] = refl
title_at zero (m ∷ ms) = refl
title_at (suc i) (m ∷ ms) = title_at i ms

title-Lacks :
    (i : ℕ) (ms : List UstatModule) → All IsNamed ms → Lacks 0 (get_or (map title ms) i [])
unfolding IsNamed
title-Lacks i [] h = tt
title-Lacks zero (m ∷ ms) ((name, clean), h) = clean
title-Lacks (suc i) (m ∷ ms) (now, h) = title-Lacks i ms h

module _ (d : Djb) where
  pub select_module-first_title :
      (arg rest : Bytes)
      → Lacks 0 arg
      → select_module d (text arg rest) ≡ first_title titles 1 arg % 49
  unfolding select_module
  select_module-first_title arg rest h =
      ap (λ j. j % 49) (find_module-first_title d named_modules 1 arg rest table-IsNamed h)

  -- An argument goes to a module of the table whose name it starts with, and among the names that
  -- it starts with none is longer: no module is shadowed by one with a shorter name. An argument
  -- that starts with no name goes to the first entry.
  pub select_module-title :
      (arg rest : Bytes)
      → Lacks 0 arg
      → let j = select_module d (text arg rest) in
        ((j ≡ 0) × All (λ n. starts_with arg n ≡ false) titles)
        ⊎ ((0 < j)
            × (j < nmodules)
            × (starts_with arg (title (module_at j)) ≡ true)
            × All (NotLonger arg (title (module_at j))) titles)
  unfolding Match unshadowed all_of
  select_module-title arg rest h =
      let first = select_module-first_title arg rest h in
      elim (first_title-Match titles 1 arg refl) [
        | inl (absent, at) ↦ inl (first ∙ rw at refl, absent)
        | inr (i, at, small, hit, best) ↦
            let j_is : select_module d (text arg rest) ≡ suc i = first ∙ rw at (omega arith) in
            let name = title_at i named_modules in
            inr
              (omega (arith, j_is), omega (arith, j_is), rw (j_is, name) hit, rw (j_is, name) best)
      ]

  -- Each text of a list is the first match for itself.
  own : List Bytes → ℕ → Bool
  own [] j = true
  own (n ∷ ns) j = (first_title titles 1 n == j) && own ns (suc j)

  own_lem :
      (ns : List Bytes) (j i : ℕ)
      → own ns j ≡ true
      → i < length ns
      → first_title titles 1 (get_or ns i []) ≡ j + i
  unfolding own
  own_lem [] j i h small = absurd (omega arith)
  own_lem (n ∷ ns) j zero h small =
      let (now, rest) = and_both (first_title titles 1 n == j) (own ns (suc j)) h in ground arith
  own_lem (n ∷ ns) j (suc i) h small =
      let (now, rest) = and_both (first_title titles 1 n == j) (own ns (suc j)) h in
      omega (arith, own_lem ns (suc j) i rest (omega arith))

  -- The name of every module of the table selects that module, whatever stands behind it in memory.
  pub select_module-module_at :
      (i : ℕ) (rest : Bytes)
      → suc i < nmodules
      → select_module d (text (title (module_at (suc i))) rest) ≡ suc i
  unfolding own
  select_module-module_at i rest h =
      let at = own_lem titles 1 i refl (omega arith) in
      let name = title_at i named_modules in
      rw name (
        select_module-first_title (get_or titles i []) rest
          (title-Lacks i named_modules table-IsNamed)
        ∙ rw at (omega arith))
