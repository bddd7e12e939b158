-- ===== src/Tests/ProgramTests.antt =====
-- The theorems about the main function, at concrete inputs.
use ustat.Base.{
  none, ℕ, suc, ◌<◌, Bytes, List, [], ◌∷◌, some, ◌≡◌, ◌⊎◌, refl, arith, All, codes, true, false,
  replicate,
}
use ustat.Base.{pos, negsuc}
use ustat.Battery.{full}
use ustat.Tcp.Stats.{zeros}
use ustat.Program.Silence.{PassesThrough, main-concat}
use ustat.Program.World.{World, System, handlers}
use ustat.Tests.Instances.{Fraction, fractions}
use ustat.Djb.{text, cstr, starts_with}
use ustat.Io.{said, puts, return, output, output-nil, stdout}
use ustat.Program.Choice.{select_module-title}
use ustat.Program.Order.{title, titles, NotLonger}
use ustat.Program.Begin.{Quiet, begin}
use ustat.Program.Runs.{begin_all, printed, outcome, main-outcome}
use ustat.Program.{
  Handlers, State, nmodules, module_at, select_module, wants_usage, main, find_module,
}
use ustat.Tests.Instances.{djb}

select_module-title_example :
    let j = select_module djb (text (codes "tcp.e") []) in
    ((j ≡ 0) × All (λ n. starts_with (codes "tcp.e") n ≡ false) titles)
    ⊎ ((0 < j)
        × (j < nmodules)
        × (starts_with (codes "tcp.e") (title (module_at j)) ≡ true)
        × All (NotLonger (codes "tcp.e") (title (module_at j))) titles)
select_module-title_example = select_module-title djb (codes "tcp.e") [] (ground arith)

-- Modules that print their names, with a count of the starts as the state.
abbrev name_tags : Handlers ℕ
name_tags = record {
  init = λ i w r s l. return (record { rc = 1; world = suc w; is_ready = true });
  print = λ p fd w m s l. puts fd (title m);
}

name_tags-Quiet : Quiet name_tags
unfolding Quiet
name_tags-Quiet i w r s l started ws e = let empty : ws ≡ [] = cc in rw empty (output-nil stdout)

abbrev unstarted : State ℕ
unstarted = record { world = 0; ready = replicate nmodules false }

abbrev arguments : List Bytes
arguments = cstr (codes "load") ∷ cstr (codes "ut") ∷ cstr (codes "load") ∷ []

main-outcome_example :
    said stdout (main djb name_tags unstarted arguments) ≡ some (0, codes "loadutload")
unfolding outcome begin_all begin printed select_module find_module wants_usage output
main-outcome_example = main-outcome djb name_tags name_tags-Quiet arguments unstarted refl

-- A system of which every call fails.
abbrev pub no_system : System
no_system = record {
  loads = none;
  si_load_shift = 16;
  proc_uptime = none;
  bat_status = none;
  bat_capacity = none;
  getenv = λ s. none;
  sysinfo = none;
  mountinfo = none;
  mounted = record { statvfs = λ p. none; statvfs-text = λ p rest h. refl };
  tcp4 = none;
  tcp6 = none;
  qsort = λ names. names;
  blank_name = [];
  utmpx = [];
  uid = 0;
  pw_name = none;
  ncpus = pos 1;
  proc = none;
  strftime = λ s. none;
  rgb_layout = record { behind_r = none; behind_g = none; behind_b = none };
}

abbrev pub first_state : State (World Fraction)
first_state = record {
  world = record {
    load = record { one = (1, 1); five = (1, 1); fifteen = (1, 1) };
    uptime = 0;
    nusers = negsuc 0;
    battery = full;
    memory = record { mem_total = 0; mem_free = 0 };
    fs = [];
    tcp = record { inited = false; stats = record { all = zeros; v4 = zeros; v6 = zeros } };
  };
  ready = replicate nmodules false;
}

main-concat_example :
    said stdout (
      main djb
        (handlers djb fractions no_system)
        first_state
        (cstr (codes "Up: ") ∷ cstr (codes ", ") ∷ []))
    ≡ some (0, codes "Up: , ")
unfolding PassesThrough select_module find_module wants_usage
main-concat_example =
    main-concat djb fractions no_system (codes "Up: " ∷ codes ", " ∷ []) first_state
      ((refl, ground arith, omega arith), ((refl, ground arith, omega arith), tt)) refl
