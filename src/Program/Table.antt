-- ===== src/Program/Table.antt =====
-- The table `modules` of ustat.c, and `struct ustat_module` of ustat.h.
use ustat.Base.{ℕ, Bytes, List, [], ◌∷◌, codes, length, get_or}
use ustat.Djb.{cstr}

-- The functions that the table names: `init` and `print`.
pub data Init : Type 0 where
  no_init : Init
  load_init : Init
  uptime_init : Init
  nusers_init : Init
  bat_init : Init
  mem_init : Init
  fs_init : Init
  tcp_init : Init

pub data Print : Type 0 where
  pass_print : Print
  nl_print : Print
  load_print : Print
  uptime_print_human : Print
  uptime_print : Print
  date_print : Print
  uid_print : Print
  user_print : Print
  nusers_print : Print
  nproc_print : Print
  ncpus_print : Print
  bat_level_print : Print
  bat_charging_human_print : Print
  bat_charging_print : Print
  mem_free_human_print : Print
  mem_free_print : Print
  mem_ratio_print : Print
  mem_total_human_print : Print
  mem_total_print : Print
  fs_total_human_print : Print
  fs_total_print : Print
  fs_ratio_print : Print
  fs_free_human_print : Print
  fs_free_print : Print
  fs_used_human_print : Print
  fs_used_print : Print
  ntcp6_established_print : Print
  ntcp6_listen_print : Print
  ntcp6_closing_print : Print
  ntcp6_all_print : Print
  ntcp4_established_print : Print
  ntcp4_listen_print : Print
  ntcp4_closing_print : Print
  ntcp4_all_print : Print
  ntcp_print : Print
  ntcp_established_print : Print
  ntcp_listen_print : Print
  ntcp_closing_print : Print
  ntcp_all_print : Print
  color_off : Print
  color8_fg_normal_print : Print
  color8_fg_bright_print : Print
  color8_bg_normal_print : Print
  color8_bg_bright_print : Print
  xterm256_fg_print : Print
  xterm256_bg_print : Print
  rgb_fg_print : Print
  rgb_bg_print : Print

-- `struct ustat_module`, without `ready`, which changes.
pub record UstatModule : Type 0 where
  pub name : Bytes
  pub descr : Bytes
  pub init : Init
  pub print : Print

abbrev module_of : Bytes → Bytes → Init → Print → UstatModule
module_of name descr init print = record {
  name = cstr name;
  descr = cstr descr;
  init = init;
  print = print;
}

-- The first entry, `pass`, which takes what no other takes.
abbrev pub pass : UstatModule
pass = module_of [] [] no_init pass_print

-- The table `modules` behind its first entry.
abbrev pub named_modules : List UstatModule
named_modules =
    module_of (codes "%") (codes "pass through") no_init pass_print
    ∷ module_of (codes "nl") (codes "newline") no_init nl_print
    ∷ module_of (codes "load") (codes "system load") load_init load_print
    ∷ module_of (codes "ut+h") (codes "uptime, human") uptime_init uptime_print_human
    ∷ module_of (codes "ut") (codes "uptime") uptime_init uptime_print
    ∷ module_of (codes "date") (codes "date, strftime") no_init date_print
    ∷ module_of (codes "uid") (codes "render user id") no_init uid_print
    ∷ module_of (codes "user") (codes "render user name") no_init user_print
    ∷ module_of (codes "nusers") (codes "number of active users") nusers_init nusers_print
    ∷ module_of (codes "nproc") (codes "number of processes") no_init nproc_print
    ∷ module_of (codes "ncpus") (codes "number of cpus") no_init ncpus_print
    ∷ module_of (codes "bat%") (codes "battery level") bat_init bat_level_print
    ∷ module_of (codes "bat+h") (codes "battery charging, human") bat_init bat_charging_human_print
    ∷ module_of (codes "bat+") (codes "battery charging") bat_init bat_charging_print
    ∷ module_of (codes "memfh") (codes "memory free, human") mem_init mem_free_human_print
    ∷ module_of (codes "memf") (codes "memory free") mem_init mem_free_print
    ∷ module_of (codes "memr") (codes "memory free, ratio") mem_init mem_ratio_print
    ∷ module_of (codes "memh") (codes "memory total, human") mem_init mem_total_human_print
    ∷ module_of (codes "mem") (codes "memory total") mem_init mem_total_print
    ∷ module_of (codes "fsth") (codes "filesystem total, human") fs_init fs_total_human_print
    ∷ module_of (codes "fst") (codes "filesystem total") fs_init fs_total_print
    ∷ module_of (codes "fsr") (codes "filesystem ratio") fs_init fs_ratio_print
    ∷ module_of (codes "fsfh") (codes "filesystem free, human") fs_init fs_free_human_print
    ∷ module_of (codes "fsf") (codes "filesystem free") fs_init fs_free_print
    ∷ module_of (codes "fsuh") (codes "filesystem used, human") fs_init fs_used_human_print
    ∷ module_of (codes "fsu") (codes "filesystem used") fs_init fs_used_print
    ∷ module_of (codes "tcp6.e") (codes "tcp6 established") tcp_init ntcp6_established_print
    ∷ module_of (codes "tcp6.l") (codes "tcp6 listening") tcp_init ntcp6_listen_print
    ∷ module_of (codes "tcp6.c") (codes "tcp6 closing") tcp_init ntcp6_closing_print
    ∷ module_of (codes "tcp6") (codes "tcp6 total") tcp_init ntcp6_all_print
    ∷ module_of (codes "tcp4.e") (codes "tcp4 established") tcp_init ntcp4_established_print
    ∷ module_of (codes "tcp4.l") (codes "tcp4 listening") tcp_init ntcp4_listen_print
    ∷ module_of (codes "tcp4.c") (codes "tcp4 closing") tcp_init ntcp4_closing_print
    ∷ module_of (codes "tcp4") (codes "tcp4 total") tcp_init ntcp4_all_print
    ∷ module_of (codes "tcpdump") (codes "tcpdump") tcp_init ntcp_print
    ∷ module_of (codes "tcp.e") (codes "tcp established") tcp_init ntcp_established_print
    ∷ module_of (codes "tcp.l") (codes "tcp listening") tcp_init ntcp_listen_print
    ∷ module_of (codes "tcp.c") (codes "tcp closing") tcp_init ntcp_closing_print
    ∷ module_of (codes "tcp") (codes "tcp total") tcp_init ntcp_all_print
    ∷ module_of (codes "coff") (codes "color off") no_init color_off
    ∷ module_of (codes "8#") (codes "fg-color, normal") no_init color8_fg_normal_print
    ∷ module_of (codes "8*") (codes "fg-color, bright") no_init color8_fg_bright_print
    ∷ module_of (codes "B#") (codes "bg-color, normal") no_init color8_bg_normal_print
    ∷ module_of (codes "B*") (codes "bg-color, bright") no_init color8_bg_bright_print
    ∷ module_of (codes "256#") (codes "fg-color, 256colors") no_init xterm256_fg_print
    ∷ module_of (codes "256*") (codes "bg-color, 256colors") no_init xterm256_bg_print
    ∷ module_of (codes "rgb#") (codes "fg-color, rgb") no_init rgb_fg_print
    ∷ module_of (codes "rgb*") (codes "bg-color, rgb") no_init rgb_bg_print
    ∷ []

abbrev pub modules : List UstatModule
modules = pass ∷ named_modules

abbrev pub nmodules : ℕ
nmodules = length modules

-- `&modules[j]`
abbrev pub module_at : ℕ → UstatModule
module_at j = get_or modules j pass
