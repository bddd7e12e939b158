-- ===== src/Users.antt =====
-- ustat_user.c.
pub mod Ids
pub mod Distinct
pub mod Names
pub mod Sorted
pub mod Count
use ustat.Base.{
  ℕ, suc, ◌-◌, Bool, Bytes, List, [], ◌∷◌, Option, none, some, ltb, leb, if◌then◌else◌, u64_mod, ℤ,
  pos, negsuc, length,
}
use ustat.Djb.{Djb, fmt_into}
use ustat.Io.{Emits, ◌>>=◌, ◌>>◌, from, write, return, char_array, store_all}

-- An entry of the user database: its type, and the bytes of `ut_user`, which end with a zero byte
-- only where the name is shorter than the field.
pub record Utmpx : Type 0 where
  pub is_user_process : Bool
  pub ut_user : Bytes

-- `struct name_t`
pub record NameT : Type 0 where
  pub len : ℕ
  pub s : Bytes

-- `uid_print`: the buffer has six bytes.
unfoldable pub uid_print : Djb → ℕ → ℕ → Emits ℕ
uid_print d fd uid = do (buf, n) ← from (fmt_into d (char_array 6) uid); write fd buf n; return 1

-- `user_print`: `pw->pw_name`, or a null pointer where there is no entry.
unfoldable pub user_print : Djb → Option Bytes → Emits ℕ
user_print d pw_name = do name ← from pw_name; write 1 name (d.str_len name); return 1

-- The first loop of `nusers_init`.
unfoldable pub count_users : List Utmpx → ℕ
count_users [] = 0
count_users (u ∷ us) = let rest = count_users us in if u.is_user_process then suc rest else rest

-- What the second loop stores in `names`; `blank` is what the memory of a name holds before.
unfoldable pub collect_names : Djb → Bytes → List Utmpx → Option (List NameT)
collect_names d blank [] = some []
collect_names d blank (u ∷ us) =
    let rest = collect_names d blank us in
    if u.is_user_process
    then elim (store_all blank (d.byte_copy (d.str_len u.ut_user) u.ut_user)) [
      | none ↦ none
      | some s ↦ elim rest [
        | none ↦ none
        | some names ↦ some (record { len = d.str_len u.ut_user; s = s } ∷ names)
      ]
    ]
    else rest

-- The length that `name_t_cmp` compares: the shorter one.
abbrev pub compared : NameT → NameT → ℕ
compared a b = if ltb a.len b.len then a.len else b.len

-- `name_t_cmp(a, b) == 0`
unfoldable pub name_t_cmp : Djb → NameT → NameT → Bool
name_t_cmp d a b = d.str_equaln a.s b.s (compared a b)

-- `name_t_cmp(a, b) <= 0`, which qsort(3) looks at.
unfoldable pub name_t_cmp_at_most : Djb → NameT → NameT → Bool
name_t_cmp_at_most d a b = d.str_at_mostn a.s b.s (compared a b)

-- The loop over the sorted names: one more for each that differs from the one before it.
unfoldable pub count_runs : Djb → ℕ → NameT → List NameT → ℕ
count_runs d name_len name [] = 0
count_runs d name_len name (next ∷ names) =
    let rest = count_runs d name_len next names in
    if d.str_equaln name.s next.s name_len then rest else suc rest

-- `nusers = 1` and the loop.
unfoldable pub count_names : Djb → ℕ → List NameT → ℕ
count_names d name_len [] = 1
count_names d name_len (name ∷ names) = suc (count_runs d name_len name names)

-- `nusers_init`, with `qsort`, and `-1` for a number that is not known yet.
unfoldable pub nusers_init : Djb → (List NameT → List NameT) → Bytes → List Utmpx → ℤ → Option ℤ
nusers_init d qsort blank us (pos n) = some (pos n)
nusers_init d qsort blank us (negsuc n) =
    if leb (count_users us) 1
    then some (pos (count_users us))
    else elim (collect_names d blank us) [
      | none ↦ none
      | some names ↦ some (pos (count_names d (length blank) (qsort names)))
    ]

-- `nusers_print`: to the standard output, whatever `fd` is.
unfoldable pub nusers_print : Djb → ℤ → Emits ℕ
nusers_print d nusers = do
  (buf, n) ←
      from (fmt_into d (char_array 6) (elim nusers [ pos n ↦ n | negsuc n ↦ u64_mod - suc n ]))
  write 1 buf n
  return 1
