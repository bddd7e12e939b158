-- ===== src/Program/World.antt =====
-- The functions behind the table of ustat.c on Linux: each entry calls the function of its module.
use ustat.Base.{ℕ, Bool, true, ◌||◌, ◌^◌, Bytes, List, Option, ℤ}
use ustat.Battery
use ustat.Color
use ustat.Djb.{Djb}
use ustat.Double.{Double}
use ustat.Fs
use ustat.Fs.Mounts
use ustat.Helpers
use ustat.Io.{Emits, Fd, ◌>>=◌, from, return}
use ustat.Load
use ustat.Memory
use ustat.Program.{
  Init, Print, UstatModule, Started, Handlers, no_init, load_init, uptime_init, nusers_init,
  bat_init, mem_init, fs_init, tcp_init, pass_print, nl_print, load_print, uptime_print_human,
  uptime_print, date_print, uid_print, user_print, nusers_print, nproc_print, ncpus_print,
  bat_level_print, bat_charging_human_print, bat_charging_print, mem_free_human_print,
  mem_free_print, mem_ratio_print, mem_total_human_print, mem_total_print, fs_total_human_print,
  fs_total_print, fs_ratio_print, fs_free_human_print, fs_free_print, fs_used_human_print,
  fs_used_print, ntcp6_established_print, ntcp6_listen_print, ntcp6_closing_print, ntcp6_all_print,
  ntcp4_established_print, ntcp4_listen_print, ntcp4_closing_print, ntcp4_all_print, ntcp_print,
  ntcp_established_print, ntcp_listen_print, ntcp_closing_print, ntcp_all_print, color_off,
  color8_fg_normal_print, color8_fg_bright_print, color8_bg_normal_print, color8_bg_bright_print,
  xterm256_fg_print, xterm256_bg_print, rgb_fg_print, rgb_bg_print,
}
use ustat.Tcp
use ustat.Uptime
use ustat.Users

-- The static variables of all modules.
pub record World (D : Type 0) : Type 0 where
  pub load : Load.Load D
  pub uptime : ℕ
  pub nusers : ℤ
  pub battery : Battery.UstatBattery
  pub memory : Memory.Memory
  pub fs : List Fs.UstatFs
  pub tcp : Tcp.Stats.Tcp

-- What the system gives to the calls of the modules, the same whenever they are made.
pub record System : Type 0 where
  pub loads : Option (ℕ × ℕ × ℕ)
  pub si_load_shift : ℕ
  pub proc_uptime : Option Fd
  pub bat_status : Option Fd
  pub bat_capacity : Option Fd
  pub getenv : Bytes → Option Bytes
  pub sysinfo : Option Memory.Sysinfo
  pub mountinfo : Option (Fd × Fd)
  pub mounted : Mounts.Mounted
  pub tcp4 : Tcp.Stats.Opened
  pub tcp6 : Tcp.Stats.Opened
  pub qsort : List Users.NameT → List Users.NameT
  pub blank_name : Bytes
  pub utmpx : List Users.Utmpx
  pub uid : ℕ
  pub pw_name : Option Bytes
  pub ncpus : ℤ
  pub proc : Option (List Bytes)
  pub strftime : Bytes → Option Bytes
  -- how the compiler places the variables of `rgb_print`
  pub rgb_layout : Color.Layout

module _ (d : Djb) {D : Type 0} (f : Double D) (sys : System) where
  abbrev pub started : World D → Bool → Emits (Started (World D))
  started w ready = return (record { rc = 1; world = w; is_ready = ready })

  -- `init` of each kind.
  unfoldable pub run_init : Init → World D → Bool → Bytes → ℕ → Emits (Started (World D))
  run_init no_init w r s l = started w true
  run_init load_init w r s l =
      let (load, ready) = Load.load_init f sys.loads (2 ^ sys.si_load_shift) w.load in
      started (record w { load = load }) ready
  run_init uptime_init w r s l = do
    (ut, ready) ← from (Uptime.uptime_init d sys.proc_uptime w.uptime)
    started (record w { uptime = ut }) ready
  run_init nusers_init w r s l = do
    n ← from (Users.nusers_init d sys.qsort sys.blank_name sys.utmpx w.nusers)
    started (record w { nusers = n }) true
  run_init bat_init w r s l = do
    (bi, ready) ← from (Battery.bat_init d sys.bat_status sys.bat_capacity w.battery r)
    started (record w { battery = bi }) ready
  run_init mem_init w r s l =
      let (m, ready) = Memory.mem_init (Memory.get_total_free sys.sysinfo) w.memory r in
      started (record w { memory = m }) ready
  run_init fs_init w r s l = do
    i ← Fs.fs_init (Mounts.fs_init_platform d sys.mounted sys.mountinfo) w.fs r
    return (record { rc = i.rc; world = record w { fs = i.fs }; is_ready = i.ready })
  run_init tcp_init w r s l = do
    i ← from (Tcp.Stats.tcp_init sys.tcp4 sys.tcp6 w.tcp)
    return (record { rc = i.rc; world = record w { tcp = i.state }; is_ready = r || i.ready })

  abbrev pub done : Emits ℕ → Emits (Unit {0})
  done m = do r ← m; return tt

  -- `print` of each kind.
  unfoldable pub run_print : Print → ℕ → World D → UstatModule → Bytes → ℕ → Emits (Unit {0})
  run_print pass_print fd w m s l = done (Helpers.pass_print d m.name s l)
  run_print nl_print fd w m s l = done (Helpers.nl_print)
  run_print load_print fd w m s l = done (Load.load_print f d fd w.load)
  run_print uptime_print_human fd w m s l = done (Uptime.uptime_print_human fd w.uptime)
  run_print uptime_print fd w m s l = done (Uptime.uptime_print fd w.uptime)
  run_print date_print fd w m s l = done (Helpers.date_print d sys.strftime fd m.name s)
  run_print uid_print fd w m s l = done (Users.uid_print d fd sys.uid)
  run_print user_print fd w m s l = done (Users.user_print d sys.pw_name)
  run_print nusers_print fd w m s l = done (Users.nusers_print d w.nusers)
  run_print nproc_print fd w m s l = done (Helpers.nproc_print d fd sys.proc)
  run_print ncpus_print fd w m s l = done (Helpers.ncpus_print d fd sys.ncpus)
  run_print bat_level_print fd w m s l = done (Battery.bat_level_print d w.battery fd)
  run_print bat_charging_human_print fd w m s l =
      done (Battery.bat_charging_human_print d w.battery fd sys.getenv)
  run_print bat_charging_print fd w m s l = done (Battery.bat_charging_print d w.battery fd)
  run_print mem_free_human_print fd w m s l = done (Memory.mem_free_human_print d f fd w.memory)
  run_print mem_free_print fd w m s l = done (Memory.mem_free_print d f fd w.memory)
  run_print mem_ratio_print fd w m s l = done (Memory.mem_ratio_print d f fd w.memory)
  run_print mem_total_human_print fd w m s l = done (Memory.mem_total_human_print d f fd w.memory)
  run_print mem_total_print fd w m s l = done (Memory.mem_total_print d f fd w.memory)
  run_print fs_total_human_print fd w m s l = done (Fs.fs_total_human_print d f fd m.name w.fs s l)
  run_print fs_total_print fd w m s l = done (Fs.fs_total_print d f fd m.name w.fs s l)
  run_print fs_ratio_print fd w m s l = done (Fs.fs_ratio_print d f fd m.name w.fs s l)
  run_print fs_free_human_print fd w m s l = done (Fs.fs_free_human_print d f fd m.name w.fs s l)
  run_print fs_free_print fd w m s l = done (Fs.fs_free_print d f fd m.name w.fs s l)
  run_print fs_used_human_print fd w m s l = done (Fs.fs_used_human_print d f fd m.name w.fs s l)
  run_print fs_used_print fd w m s l = done (Fs.fs_used_print d f fd m.name w.fs s l)
  run_print ntcp6_established_print fd w m s l =
      done (Tcp.Print.ntcp6_established_print Tcp.Stats.linux w.tcp.stats fd)
  run_print ntcp6_listen_print fd w m s l =
      done (Tcp.Print.ntcp6_listen_print Tcp.Stats.linux w.tcp.stats fd)
  run_print ntcp6_closing_print fd w m s l =
      done (Tcp.Print.ntcp6_closing_print Tcp.Stats.linux w.tcp.stats fd)
  run_print ntcp6_all_print fd w m s l =
      done (Tcp.Print.ntcp6_all_print Tcp.Stats.linux w.tcp.stats fd)
  run_print ntcp4_established_print fd w m s l =
      done (Tcp.Print.ntcp4_established_print Tcp.Stats.linux w.tcp.stats fd)
  run_print ntcp4_listen_print fd w m s l =
      done (Tcp.Print.ntcp4_listen_print Tcp.Stats.linux w.tcp.stats fd)
  run_print ntcp4_closing_print fd w m s l =
      done (Tcp.Print.ntcp4_closing_print Tcp.Stats.linux w.tcp.stats fd)
  run_print ntcp4_all_print fd w m s l =
      done (Tcp.Print.ntcp4_all_print Tcp.Stats.linux w.tcp.stats fd)
  run_print ntcp_print fd w m s l = done (Tcp.Print.ntcp_print Tcp.Stats.linux w.tcp.stats fd)
  run_print ntcp_established_print fd w m s l =
      done (Tcp.Print.ntcp_established_print Tcp.Stats.linux w.tcp.stats fd)
  run_print ntcp_listen_print fd w m s l =
      done (Tcp.Print.ntcp_listen_print Tcp.Stats.linux w.tcp.stats fd)
  run_print ntcp_closing_print fd w m s l =
      done (Tcp.Print.ntcp_closing_print Tcp.Stats.linux w.tcp.stats fd)
  run_print ntcp_all_print fd w m s l =
      done (Tcp.Print.ntcp_all_print Tcp.Stats.linux w.tcp.stats fd)
  run_print color_off fd w m s l = done (Color.color_off fd)
  run_print color8_fg_normal_print fd w m s l = done (Color.color8_fg_normal_print d fd s l)
  run_print color8_fg_bright_print fd w m s l = done (Color.color8_fg_bright_print d fd s l)
  run_print color8_bg_normal_print fd w m s l = done (Color.color8_bg_normal_print d fd s l)
  run_print color8_bg_bright_print fd w m s l = done (Color.color8_bg_bright_print d fd s l)
  run_print xterm256_fg_print fd w m s l = done (Color.xterm256_fg_print d m.name fd s)
  run_print xterm256_bg_print fd w m s l = done (Color.xterm256_bg_print d m.name fd s)
  run_print rgb_fg_print fd w m s l = done (Color.rgb_fg_print d sys.rgb_layout m.name fd s l)
  run_print rgb_bg_print fd w m s l = done (Color.rgb_bg_print d sys.rgb_layout m.name fd s l)

  abbrev pub handlers : Handlers (World D)
  handlers = record { init = run_init; print = run_print }
