-- ===== src/Program/Sockets.antt =====
-- A run that asks for a number of sockets: from the files of /proc to the standard output.
use ustat.Base.{
  replicate, ◌<◌, get_or-replicate, ap, sym, ◌∙◌, u64_mod, ◌%◌, ◌≤◌, arith, ◌∷◌, append-nil, true,
  false, some, ℕ, suc, ◌+◌, ◌≡◌, refl, Bytes, List, [], ◌++◌, codes, get_or, length,
}
use ustat.Djb.{Djb, cstr}
use ustat.Double.{Double}
use ustat.Io.{return, said, output-wrote, output-nil, Fd, stdout}
use ustat.Program.Order.{title}
use ustat.Program.Choice.{select_module-module_at}
use ustat.Program.Silence.{handlers-Quiet}
use ustat.Program.Single.{main-Runs}
use ustat.Program.World.{handlers, run_init, World, System, run_print, done}
use ustat.Program.{Started, State, nmodules, select_module, main, wants_usage, module_at, tcp_init}
use ustat.Tcp.Print.{
  print-decimal, ntcp_all_print, ntcp_established_print, ntcp_listen_print, ntcp_closing_print,
  ntcp4_all_print, ntcp4_established_print, ntcp4_listen_print, ntcp4_closing_print,
  ntcp6_all_print, ntcp6_established_print, ntcp6_listen_print, ntcp6_closing_print, print,
}
use ustat.Tcp.Scan.Rows.{Row}
use ustat.Fmt.Digits.{decimal}
use ustat.Tcp.Stats.Init.{Counts, Ends, Ends-at, Ends-some, IsFile, init_via_proc_net_tcp-Counts}
use ustat.Tcp.Scan.Tally.{sockets_in}
use ustat.Tcp.Scan.{Counters}
use ustat.Tcp.Stats.{Stats, init_via_proc_net_tcp}
use ustat.Tcp

-- The modules on sockets but for `tcpdump`: of both families or of one, and in which state.
pub data Family : Type 0 where
  both : Family
  four : Family
  six : Family

pub data Which : Type 0 where
  all : Which
  established : Which
  listening : Which
  closing : Which

abbrev family_name : Family → Bytes
family_name both = []
family_name four = codes "4"
family_name six = codes "6"

abbrev which_name : Which → Bytes
which_name all = []
which_name established = codes ".e"
which_name listening = codes ".l"
which_name closing = codes ".c"

-- The name of the module in the table.
abbrev pub name : Family → Which → Bytes
name f w = codes "tcp" ++ (family_name f ++ which_name w)

-- The modules in front of it.
abbrev before : Family → Which → ℕ
before f w =
    elim f [ both ↦ 35 | four ↦ 30 | six ↦ 26 ]
    + elim w [ all ↦ 3 | established ↦ 0 | listening ↦ 1 | closing ↦ 2 ]

-- The state of the sockets in /proc/net/tcp, with no state for all of them.
abbrev state : Which → ℕ
state w = elim w [ all ↦ 0 | established ↦ 1 | listening ↦ 10 | closing ↦ 11 ]

-- The rows that are asked for.
abbrev pub asked : Which → List Row → ℕ
asked all rs = length rs
asked established rs = sockets_in 1 rs
asked listening rs = sockets_in 10 rs
asked closing rs = sockets_in 11 rs

abbrev pub asked_of : Family → Which → List Row → List Row → ℕ
asked_of both w rs4 rs6 = asked w rs4 + asked w rs6
asked_of four w rs4 rs6 = asked w rs4
asked_of six w rs4 rs6 = asked w rs6

abbrev counters : Family → Stats → Counters
counters both s = s.all
counters four s = s.v4
counters six s = s.v6

module _ (d : Djb) {D : Type 0} (double : Double D) (sys : System) where
  -- The entry of the table: its name, its start, and its print.
  abbrev IsEntry : Family → Which → Type 0
  IsEntry f w =
      (title (module_at (suc (before f w))) ≡ name f w)
      × ((module_at (suc (before f w))).init ≡ tcp_init)
      × (suc (before f w) < nmodules)
      × ((world : World D) (s : Bytes) (l : ℕ)
          → run_print d double sys (module_at (suc (before f w))).print stdout world
              (module_at (suc (before f w))) s l
            ≡ done d double sys (print stdout (get_or (counters f world.tcp.stats) (state w) 0)))

  table_has-IsEntry : (f : Family) (w : Which) → IsEntry f w
  unfolding run_print ntcp_all_print ntcp_established_print ntcp_listen_print ntcp_closing_print
      ntcp4_all_print ntcp4_established_print ntcp4_listen_print ntcp4_closing_print ntcp6_all_print
      ntcp6_established_print ntcp6_listen_print ntcp6_closing_print
  table_has-IsEntry both all = (refl, refl, omega arith, λ world s l. refl)
  table_has-IsEntry both established = (refl, refl, omega arith, λ world s l. refl)
  table_has-IsEntry both listening = (refl, refl, omega arith, λ world s l. refl)
  table_has-IsEntry both closing = (refl, refl, omega arith, λ world s l. refl)
  table_has-IsEntry four all = (refl, refl, omega arith, λ world s l. refl)
  table_has-IsEntry four established = (refl, refl, omega arith, λ world s l. refl)
  table_has-IsEntry four listening = (refl, refl, omega arith, λ world s l. refl)
  table_has-IsEntry four closing = (refl, refl, omega arith, λ world s l. refl)
  table_has-IsEntry six all = (refl, refl, omega arith, λ world s l. refl)
  table_has-IsEntry six established = (refl, refl, omega arith, λ world s l. refl)
  table_has-IsEntry six listening = (refl, refl, omega arith, λ world s l. refl)
  table_has-IsEntry six closing = (refl, refl, omega arith, λ world s l. refl)

  said-print : (n : ℕ) → said stdout (done d double sys (print stdout n)) ≡ some (tt, decimal n)
  said-print n = rw print-decimal (rw (output-wrote, output-nil, append-nil) refl)

  starts_tcp :
      (fd4 fd6 : ℕ) (file4 file6 : Fd) (t : Stats) (world : World D) (s : Bytes) (l : ℕ)
      → sys.tcp4 ≡ some (fd4, file4)
      → sys.tcp6 ≡ some (fd6, file6)
      → world.tcp.inited ≡ false
      → init_via_proc_net_tcp (some (fd4, file4)) (some (fd6, file6)) world.tcp.stats ≡ some (t, 1)
      → run_init d double sys tcp_init world false s l
        ≡ return (record {
          rc = 1;
          world = record world { tcp = record { inited = true; stats = t } };
          is_ready = true;
        })
  unfolding run_init Tcp.Stats.tcp_init
  starts_tcp fd4 fd6 file4 file6 t world s l e4 e6 new counted =
      rw (e4, e6, new, counted, Tcp.Stats.tcp_init, run_init) refl

  Counts-asked :
      (f : Family) (w : Which) (t : Stats) (rs4 rs6 : List Row)
      → ((v : ℕ) → 1 ≤ v → v ≤ 11 → Counts t rs4 rs6 v)
      → get_or (counters f t) (state w) 0 ≡ asked_of f w rs4 rs6 % u64_mod
  Counts-asked both all t rs4 rs6 c = (c 1 (omega arith) (omega arith)).all_total
  Counts-asked both established t rs4 rs6 c = (c 1 (omega arith) (omega arith)).all_is
  Counts-asked both listening t rs4 rs6 c = (c 10 (omega arith) (omega arith)).all_is
  Counts-asked both closing t rs4 rs6 c = (c 11 (omega arith) (omega arith)).all_is
  Counts-asked four all t rs4 rs6 c = (c 1 (omega arith) (omega arith)).v4_total
  Counts-asked four established t rs4 rs6 c = (c 1 (omega arith) (omega arith)).v4_is
  Counts-asked four listening t rs4 rs6 c = (c 10 (omega arith) (omega arith)).v4_is
  Counts-asked four closing t rs4 rs6 c = (c 11 (omega arith) (omega arith)).v4_is
  Counts-asked six all t rs4 rs6 c = (c 1 (omega arith) (omega arith)).v6_total
  Counts-asked six established t rs4 rs6 c = (c 1 (omega arith) (omega arith)).v6_is
  Counts-asked six listening t rs4 rs6 c = (c 10 (omega arith) (omega arith)).v6_is
  Counts-asked six closing t rs4 rs6 c = (c 11 (omega arith) (omega arith)).v6_is

  not_usage : (f : Family) (w : Which) → wants_usage d (cstr (name f w) ∷ []) ≡ false
  unfolding wants_usage
  not_usage f w =
      d.str_equaln-append (codes "tc") (codes "-h")
        (b'p' ∷ (family_name f ++ which_name w) ++ 0 ∷ []) (0 ∷ []) 2 (ground arith) (ground arith)
        refl refl

  pub main-asked_of :
      (f : Family) (w : Which) (fd4 fd6 : ℕ) (file4 file6 : Fd) (h4 h6 : Bytes) (rs4 rs6 : List Row)
      (st : State (World D))
      → sys.tcp4 ≡ some (fd4, file4)
      → sys.tcp6 ≡ some (fd6, file6)
      → 0 < fd6
      → IsFile file4 h4 rs4
      → IsFile file6 h6 rs6
      → st.world.tcp.inited ≡ false
      → st.ready ≡ replicate nmodules false
      → said stdout (main d (handlers d double sys) st (cstr (name f w) ∷ []))
        ≡ some (0, decimal (asked_of f w rs4 rs6 % u64_mod))
  main-asked_of f w fd4 fd6 file4 file6 h4 h6 rs4 rs6 st e4 e6 opened f4 f6 new idle =
      let (title_is, init_is, small, print_is) = table_has-IsEntry f w in
      let j = suc (before f w) in
      let arg = cstr (name f w) in
      let files =
        init_via_proc_net_tcp (some (fd4, file4)) (some (fd6, file6)) st.world.tcp.stats in
      let counted : (v : ℕ) → 1 ≤ v → v ≤ 11 → Ends files 1 (λ t. Counts t rs4 rs6 v) = λ v lo hi.
        init_via_proc_net_tcp-Counts fd4 fd6 file4 file6 h4 h6 rs4 rs6 st.world.tcp.stats v f4 f6
          opened lo hi in
      let (t, some_is, _) =
        Ends-some files 1 (λ t. Counts t rs4 rs6 1) (counted 1 (omega arith) (omega arith)) in
      let value =
        Counts-asked f w t rs4 rs6
          (λ v lo hi. Ends-at files 1 (λ t. Counts t rs4 rs6 v) t (counted v lo hi) some_is) in
      let started =
        starts_tcp fd4 fd6 file4 file6 t st.world arg (d.str_len arg) e4 e6 new some_is in
      let world' : World D = record st.world { tcp = record { inited = true; stats = t } } in
      let started_is : Started (World D) = record { rc = 1; world = world'; is_ready = true } in
      main-Runs d (handlers d double sys) (handlers-Quiet d double sys) arg st j started_is
        (decimal (asked_of f w rs4 rs6 % u64_mod)) (not_usage f w)
        (record {
          selected =
              ap (λ n. select_module d (cstr n)) (sym title_is)
              ∙ select_module-module_at d (before f w) [] small;
          named = ground arith;
          not_ready = rw idle (get_or-replicate nmodules j false);
          init_logs = [];
          starts = rw init_is started;
          succeeds = refl;
          prints =
              ap (said stdout) (
                print_is world' arg (d.str_len arg)
                ∙ ap (λ n. done d double sys (print stdout n)) value)
              ∙ said-print (asked_of f w rs4 rs6 % u64_mod);
        })
