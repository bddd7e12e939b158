-- ===== src/Tests/UserTests.antt =====
-- The users of a system of which one is logged in twice.

use mathlib.Core.List.Permᴰ.{swap}
use ustat.Base.{
  Bool, true, false, Bytes, List, [], ◌∷◌, some, ◌≡◌, refl, if◌then◌else◌, arith, codes, map,
  replicate, All,
}
use ustat.Users.Distinct.{member, distinct}
use ustat.Users.Count.{names, Login, utmpx_of}
use ustat.Program.LoggedIn.{main-distinct}
use ustat.Program.World.{System, handlers}
use ustat.Program.{main}
use ustat.Djb.{cstr}
use ustat.Io.{said, stdout}
use ustat.Fmt.Digits.{decimal}
use ustat.Tests.ProgramTests.{no_system, first_state}
use ustat.Users.Names.{Fits, name_of}
use ustat.Users.Sorted.{IsOrdered, IsPrefixFree}
use ustat.Users.{NameT, compared, name_t_cmp_at_most}
use ustat.Tests.Instances.{djb, fractions, front_at_most}

abbrev at_most : NameT → NameT → Bool
at_most a b = front_at_most a.s b.s (compared a b)

abbrev insert : NameT → List NameT → List NameT
insert a [] = a ∷ []
insert a (b ∷ xs) = let rest = insert a xs in if at_most a b then a ∷ b ∷ xs else b ∷ rest

abbrev insertion_sort : List NameT → List NameT
insertion_sort [] = []
insertion_sort (a ∷ xs) = insert a (insertion_sort xs)

abbrev login : Bool → Bytes → Login
login active name = record { active = active; name = name; behind = [] }

abbrev logins : List Login
logins =
    login true (codes "bob")
    ∷ login false (codes "LOGIN")
    ∷ login true (codes "alice")
    ∷ login true (codes "bob")
    ∷ []

logins-Fits : All (λ l. Fits 32 l.name) logins
unfolding Fits
logins-Fits = (
  (ground arith, omega arith),
  ((ground arith, omega arith), ((ground arith, omega arith), ((ground arith, omega arith), tt))),
)

logins-IsOrdered :
    IsOrdered (name_t_cmp_at_most djb) (insertion_sort (map (name_of 32) (names logins)))
unfolding IsOrdered name_t_cmp_at_most
logins-IsOrdered = ((refl, (refl, tt)), ((refl, tt), (tt, tt)))

logins-IsPrefixFree : IsPrefixFree (names logins)
unfolding IsPrefixFree
logins-IsPrefixFree = (
  (λ h. refl, (λ h. ground arith, (λ h. refl, tt))),
  (
    (λ h. ground arith, (λ h. refl, (λ h. ground arith, tt))),
    ((λ h. refl, (λ h. ground arith, (λ h. refl, tt))), tt),
  ),
)

abbrev with_users : System
with_users = record no_system {
  utmpx = map utmpx_of logins;
  qsort = insertion_sort;
  blank_name = replicate 32 0;
}

main-distinct_example :
    said stdout
      (main djb (handlers djb fractions with_users) first_state (cstr (codes "nusers") ∷ []))
    ≡ some (0, decimal 2)
unfolding distinct member
main-distinct_example =
    main-distinct djb fractions with_users 32 logins first_state refl refl logins-Fits
      (swap refl refl) logins-IsOrdered logins-IsPrefixFree (omega arith) refl refl
