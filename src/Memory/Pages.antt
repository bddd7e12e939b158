-- ===== src/Memory/Pages.antt =====
-- The memory that the three systems give, in bytes.
use ustat.Base.{
  [], ◌∷◌, ℕ, ◌+◌, ◌*◌, ◌%◌, ◌<◌, ◌≡◌, ◌⊎◌, refl, ap, arith, inl, inr, Bool, true, false, ◌&&◌,
  Option, none, some, ltb, u64_mod,
}
use ustat.Memory.{
  Memory, Sysinfo, VmStatistics, get_total_free, get_total_free_bsd, get_total_free_osx, mem_init,
  mem_print, mem_total_print, mem_free_print,
}
use ustat.Djb.{Djb}
use ustat.Double.{Double}
use ustat.Fmt.Digits.{decimal}
use ustat.Fmt.Writes.{fmt_len-le, fmt_uint64_lem, write-decimal}
use ustat.Io.{wrote, char_array}

-- What the system of a build gives.
pub data Source : Type 0 where
  of_linux : Option Sysinfo → Source
  of_bsd : Option ℕ → Option ℕ → Option ℕ → Source
  of_osx : Option VmStatistics → ℕ → Source

abbrev pub ask : Source → Memory → Memory
ask (of_linux si) m = get_total_free si m
ask (of_bsd total ps t_free) m = get_total_free_bsd total ps t_free m
ask (of_osx vm ps) m = get_total_free_osx vm ps m

-- All the bytes and the free ones, as natural numbers, where the system gives them.
abbrev pub measured : Source → Option Memory
measured (of_linux none) = none
measured (of_linux (some si)) =
    some (record { mem_total = si.totalram * si.mem_unit; mem_free = si.freeram * si.mem_unit })
measured (of_bsd (some total) (some ps) (some t_free)) =
    some (record { mem_total = total * ps; mem_free = t_free * ps })
measured (of_bsd _ _ _) = none
measured (of_osx none ps) = none
measured (of_osx (some vm) ps) = some (record {
  mem_total = (vm.free_count + vm.active_count + vm.inactive_count + vm.wire_count) * ps;
  mem_free = vm.free_count * ps;
})

-- The pages of macOS are fewer than 2 ^ 64.
abbrev pub HasFewPages : Source → Type 0
HasFewPages (of_osx (some vm) ps) =
    vm.free_count + vm.active_count + vm.inactive_count + vm.wire_count < u64_mod
HasFewPages _ = Unit

exact :
    (total free_part : ℕ) (now : Memory)
    → record { mem_total = total; mem_free = free_part } ≡ now
    → now.mem_total < u64_mod
    → now.mem_free < u64_mod
    → record { mem_total = total % u64_mod; mem_free = free_part % u64_mod } ≡ now
exact total free_part now e small small' =
    let t : total ≡ now.mem_total = ap (λ m. m.mem_total) e in
    let f : free_part ≡ now.mem_free = ap (λ m. m.mem_free) e in
    let t' : total % u64_mod ≡ total = omega arith in
    let f' : free_part % u64_mod ≡ free_part = omega arith in rw (t', f') e

ask-measured :
    (s : Source) (m now : Memory)
    → HasFewPages s
    → measured s ≡ some now
    → now.mem_total < u64_mod
    → now.mem_free < u64_mod
    → ask s m ≡ now
unfolding get_total_free get_total_free_bsd get_total_free_osx
ask-measured (of_linux none) m now few e small small' = cc
ask-measured (of_linux (some si)) m now few e small small' =
    exact (si.totalram * si.mem_unit) (si.freeram * si.mem_unit) now (cc) small small'
ask-measured (of_bsd none ps t_free) m now few e small small' = cc
ask-measured (of_bsd (some total) none t_free) m now few e small small' = cc
ask-measured (of_bsd (some total) (some ps) none) m now few e small small' = cc
ask-measured (of_bsd (some total) (some ps) (some t_free)) m now few e small small' =
    exact (total * ps) (t_free * ps) now (cc) small small'
ask-measured (of_osx none ps) m now few e small small' = cc
ask-measured (of_osx (some vm) ps) m now few e small small' =
    let pages = vm.free_count + vm.active_count + vm.inactive_count + vm.wire_count in
    let whole : pages % u64_mod ≡ pages = omega arith in
    rw whole (exact (pages * ps) (vm.free_count * ps) now (cc) small small')

-- Nothing is known where one of the two numbers is 0. The system is asked then, whatever it gave
-- before, and what it gives is kept as it is.
pub mem_init-measured :
    (s : Source) (m now : Memory) (ready : Bool)
    → (m.mem_total ≡ 0) ⊎ (m.mem_free ≡ 0)
    → HasFewPages s
    → measured s ≡ some now
    → now.mem_total < u64_mod
    → now.mem_free < u64_mod
    → mem_init (ask s) m ready ≡ (now, true)
unfolding mem_init
mem_init-measured s m now ready unknown few e small small' =
    let asks : (ltb 0 m.mem_total && ltb 0 m.mem_free) ≡ false = elim unknown [
      | inl zero_is ↦ rw zero_is refl
      | inr zero_is ↦ rw zero_is (ground arith)
    ] in
    rw (asks, ask-measured s m now few e small small', mem_init) refl

module _ (d : Djb) {D : Type 0} (f : Double D) (fd : ℕ) (m : Memory) where
  mem_print-decimal :
      (n : ℕ) → n < u64_mod → mem_print d f fd m n ≡ some (1, wrote fd (decimal n) ∷ [])
  unfolding mem_print
  mem_print-decimal n small =
      rw (fmt_uint64_lem (char_array 40) n (omega (arith, fmt_len-le n small))) (rw write-decimal)

  pub mem_total_print-decimal :
      m.mem_total < u64_mod
      → mem_total_print d f fd m ≡ some (1, wrote fd (decimal m.mem_total) ∷ [])
  unfolding mem_total_print
  mem_total_print-decimal small = mem_print-decimal m.mem_total small

  pub mem_free_print-decimal :
      m.mem_free < u64_mod → mem_free_print d f fd m ≡ some (1, wrote fd (decimal m.mem_free) ∷ [])
  unfolding mem_free_print
  mem_free_print-decimal small = mem_print-decimal m.mem_free small
