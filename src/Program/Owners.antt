-- ===== src/Program/Owners.antt =====
-- The part of the static variables that each kind of print reads, and that the table starts it.
use ustat.Base.{
  ℕ, zero, suc, Bool, true, Bytes, List, [], ◌∷◌, ◌≡◌, refl, sym, ◌∙◌, ap, ◌==◌, get_or, All, arith,
}
use ustat.Djb.{Djb}
use ustat.Double.{Double}
use ustat.Program.Order.{all_of, all_of-All}
use ustat.Program.Views.{view, put}
use ustat.Program.World.{World, System, run_print}
use ustat.Program.{
  Init, Print, UstatModule, pass, modules, module_at, no_init, load_init, uptime_init, nusers_init,
  bat_init, mem_init, fs_init, tcp_init, pass_print, nl_print, load_print, uptime_print_human,
  uptime_print, date_print, uid_print, user_print, nusers_print, nproc_print, ncpus_print,
  bat_level_print, bat_charging_human_print, bat_charging_print, mem_free_human_print,
  mem_free_print, mem_ratio_print, mem_total_human_print, mem_total_print, fs_total_human_print,
  fs_total_print, fs_ratio_print, fs_free_human_print, fs_free_print, fs_used_human_print,
  fs_used_print, ntcp6_established_print, ntcp6_listen_print, ntcp6_closing_print, ntcp6_all_print,
  ntcp4_established_print, ntcp4_listen_print, ntcp4_closing_print, ntcp4_all_print, ntcp_print,
  ntcp_established_print, ntcp_listen_print, ntcp_closing_print, ntcp_all_print, color_off,
  color8_fg_normal_print, color8_fg_bright_print, color8_bg_normal_print, color8_bg_bright_print,
  xterm256_fg_print, xterm256_bg_print, rgb_fg_print, rgb_bg_print,
}

-- The kind of start whose part a print reads.
abbrev pub owner : Print → Init
owner load_print = load_init
owner uptime_print_human = uptime_init
owner uptime_print = uptime_init
owner nusers_print = nusers_init
owner bat_level_print = bat_init
owner bat_charging_human_print = bat_init
owner bat_charging_print = bat_init
owner mem_free_human_print = mem_init
owner mem_free_print = mem_init
owner mem_ratio_print = mem_init
owner mem_total_human_print = mem_init
owner mem_total_print = mem_init
owner fs_total_human_print = fs_init
owner fs_total_print = fs_init
owner fs_ratio_print = fs_init
owner fs_free_human_print = fs_init
owner fs_free_print = fs_init
owner fs_used_human_print = fs_init
owner fs_used_print = fs_init
owner ntcp6_established_print = tcp_init
owner ntcp6_listen_print = tcp_init
owner ntcp6_closing_print = tcp_init
owner ntcp6_all_print = tcp_init
owner ntcp4_established_print = tcp_init
owner ntcp4_listen_print = tcp_init
owner ntcp4_closing_print = tcp_init
owner ntcp4_all_print = tcp_init
owner ntcp_print = tcp_init
owner ntcp_established_print = tcp_init
owner ntcp_listen_print = tcp_init
owner ntcp_closing_print = tcp_init
owner ntcp_all_print = tcp_init
owner _ = no_init

abbrev number_of : Init → ℕ
number_of no_init = 0
number_of load_init = 1
number_of uptime_init = 2
number_of nusers_init = 3
number_of bat_init = 4
number_of mem_init = 5
number_of fs_init = 6
number_of tcp_init = 7

abbrev init_of : ℕ → Init
init_of n =
    get_or
      (no_init ∷ load_init ∷ uptime_init ∷ nusers_init ∷ bat_init ∷ mem_init ∷ fs_init ∷ tcp_init
        ∷ [])
      n no_init

init_of-number_of : (i : Init) → init_of (number_of i) ≡ i
init_of-number_of no_init = refl
init_of-number_of load_init = refl
init_of-number_of uptime_init = refl
init_of-number_of nusers_init = refl
init_of-number_of bat_init = refl
init_of-number_of mem_init = refl
init_of-number_of fs_init = refl
init_of-number_of tcp_init = refl

is_owned : UstatModule → Bool
is_owned m = number_of (owner m.print) == number_of m.init

owned : (m : UstatModule) → is_owned m ≡ true → owner m.print ≡ m.init
unfolding is_owned
owned m h =
    let same : number_of (owner m.print) ≡ number_of m.init = ground arith in
    sym (init_of-number_of (owner m.print)) ∙ ap init_of same ∙ init_of-number_of m.init

owned_at :
    (ms : List UstatModule) (j : ℕ)
    → All (λ m. is_owned m ≡ true) ms
    → owner (get_or ms j pass).print ≡ (get_or ms j pass).init
owned_at [] j hs = refl
owned_at (m ∷ ms) zero (now, hs) = owned m now
owned_at (m ∷ ms) (suc j) (now, hs) = owned_at ms j hs

table_owned : all_of is_owned modules ≡ true
unfolding all_of is_owned
table_owned = refl

-- Every entry of the table starts the part that its print reads.
pub owner-module_at : (j : ℕ) → owner (module_at j).print ≡ (module_at j).init
owner-module_at j = owned_at modules j (all_of-All is_owned modules table_owned)

put-view : {D : Type 0} (i : Init) (w : World D) → put D i (view D i w) w ≡ w
put-view no_init w = refl
put-view load_init w = refl
put-view uptime_init w = refl
put-view nusers_init w = refl
put-view bat_init w = refl
put-view mem_init w = refl
put-view fs_init w = refl
put-view tcp_init w = refl

module _ (d : Djb) {D : Type 0} (f : Double D) (sys : System) where
  -- A print with its part put into other static variables.
  reads_owner :
      (k : Print) (fd : ℕ) (w w' : World D) (m : UstatModule) (s : Bytes) (l : ℕ)
      → run_print d f sys k fd w m s l
        ≡ run_print d f sys k fd (put D (owner k) (view D (owner k) w) w') m s l
  unfolding run_print
  reads_owner pass_print fd w w' m s l = refl
  reads_owner nl_print fd w w' m s l = refl
  reads_owner load_print fd w w' m s l = refl
  reads_owner uptime_print_human fd w w' m s l = refl
  reads_owner uptime_print fd w w' m s l = refl
  reads_owner date_print fd w w' m s l = refl
  reads_owner uid_print fd w w' m s l = refl
  reads_owner user_print fd w w' m s l = refl
  reads_owner nusers_print fd w w' m s l = refl
  reads_owner nproc_print fd w w' m s l = refl
  reads_owner ncpus_print fd w w' m s l = refl
  reads_owner bat_level_print fd w w' m s l = refl
  reads_owner bat_charging_human_print fd w w' m s l = refl
  reads_owner bat_charging_print fd w w' m s l = refl
  reads_owner mem_free_human_print fd w w' m s l = refl
  reads_owner mem_free_print fd w w' m s l = refl
  reads_owner mem_ratio_print fd w w' m s l = refl
  reads_owner mem_total_human_print fd w w' m s l = refl
  reads_owner mem_total_print fd w w' m s l = refl
  reads_owner fs_total_human_print fd w w' m s l = refl
  reads_owner fs_total_print fd w w' m s l = refl
  reads_owner fs_ratio_print fd w w' m s l = refl
  reads_owner fs_free_human_print fd w w' m s l = refl
  reads_owner fs_free_print fd w w' m s l = refl
  reads_owner fs_used_human_print fd w w' m s l = refl
  reads_owner fs_used_print fd w w' m s l = refl
  reads_owner ntcp6_established_print fd w w' m s l = refl
  reads_owner ntcp6_listen_print fd w w' m s l = refl
  reads_owner ntcp6_closing_print fd w w' m s l = refl
  reads_owner ntcp6_all_print fd w w' m s l = refl
  reads_owner ntcp4_established_print fd w w' m s l = refl
  reads_owner ntcp4_listen_print fd w w' m s l = refl
  reads_owner ntcp4_closing_print fd w w' m s l = refl
  reads_owner ntcp4_all_print fd w w' m s l = refl
  reads_owner ntcp_print fd w w' m s l = refl
  reads_owner ntcp_established_print fd w w' m s l = refl
  reads_owner ntcp_listen_print fd w w' m s l = refl
  reads_owner ntcp_closing_print fd w w' m s l = refl
  reads_owner ntcp_all_print fd w w' m s l = refl
  reads_owner color_off fd w w' m s l = refl
  reads_owner color8_fg_normal_print fd w w' m s l = refl
  reads_owner color8_fg_bright_print fd w w' m s l = refl
  reads_owner color8_bg_normal_print fd w w' m s l = refl
  reads_owner color8_bg_bright_print fd w w' m s l = refl
  reads_owner xterm256_fg_print fd w w' m s l = refl
  reads_owner xterm256_bg_print fd w w' m s l = refl
  reads_owner rgb_fg_print fd w w' m s l = refl
  reads_owner rgb_bg_print fd w w' m s l = refl

  -- What a print does depends on nothing but its part.
  pub run_print-owner :
      (k : Print) (fd : ℕ) (w w' : World D) (m : UstatModule) (s : Bytes) (l : ℕ)
      → view D (owner k) w ≡ view D (owner k) w'
      → run_print d f sys k fd w m s l ≡ run_print d f sys k fd w' m s l
  run_print-owner k fd w w' m s l same =
      reads_owner k fd w w' m s l
      ∙ ap (λ v. run_print d f sys k fd (put D (owner k) v w') m s l) same
      ∙ ap (λ x. run_print d f sys k fd x m s l) (put-view (owner k) w')
