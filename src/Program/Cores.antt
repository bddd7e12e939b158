-- ===== src/Program/Cores.antt =====
-- What the start of each kind does to its part of the static variables.
use ustat.Base.{append-nil, ℕ, ◌^◌, Bool, true, false, Bytes, ◌≡◌, refl, inl, inr, Option-cases}
use ustat.Battery
use ustat.Djb.{Djb}
use ustat.Double.{Double}
use ustat.Fs
use ustat.Fs.Mounts
use ustat.Io.{Emits, ◌>>=◌, from, return}
use ustat.Load
use ustat.Memory
use ustat.Program.Views.{View, view, put}
use ustat.Program.World.{World, System, run_init}
use ustat.Program.{
  Init, Started, no_init, load_init, uptime_init, nusers_init, bat_init, mem_init, fs_init,
  tcp_init,
}
use ustat.Tcp
use ustat.Uptime
use ustat.Users

-- What a start leaves: its result, its part, and `m->ready`.
pub record Part (V : Type 0) : Type 0 where
  pub rc : ℕ
  pub part : V
  pub is_ready : Bool

module _ (d : Djb) {D : Type 0} (f : Double D) (sys : System) where
  abbrev pub core : (i : Init) → View D i → Emits (Part (View D i))
  core no_init v = return (record { rc = 1; part = tt; is_ready = true })
  core load_init v =
      let (load, ready) = Load.load_init f sys.loads (2 ^ sys.si_load_shift) v in
      return (record { rc = 1; part = load; is_ready = ready })
  core uptime_init v = do
    (ut, ready) ← from (Uptime.uptime_init d sys.proc_uptime v)
    return (record { rc = 1; part = ut; is_ready = ready })
  core nusers_init v = do
    n ← from (Users.nusers_init d sys.qsort sys.blank_name sys.utmpx v)
    return (record { rc = 1; part = n; is_ready = true })
  core bat_init v = do
    (bi, ready) ← from (Battery.bat_init d sys.bat_status sys.bat_capacity v false)
    return (record { rc = 1; part = bi; is_ready = ready })
  core mem_init v =
      let (m, ready) = Memory.mem_init (Memory.get_total_free sys.sysinfo) v false in
      return (record { rc = 1; part = m; is_ready = ready })
  core fs_init v = do
    i ← Fs.fs_init (Mounts.fs_init_platform d sys.mounted sys.mountinfo) v false
    return (record { rc = i.rc; part = i.fs; is_ready = i.ready })
  core tcp_init v = do
    i ← from (Tcp.Stats.tcp_init sys.tcp4 sys.tcp6 v)
    return (record { rc = i.rc; part = i.state; is_ready = i.ready })

  -- The state behind a start that left `p`.
  abbrev pub started_with : (i : Init) → World D → Part (View D i) → Started (World D)
  started_with i w p = record { rc = p.rc; world = put D i p.part w; is_ready = p.is_ready }

  -- A start is that of its part.
  abbrev IsCore : Emits (Started (World D)) → (i : Init) → World D → Type 0
  IsCore m i w = m ≡ (core i (view D i w) >>= λ p. return (started_with i w p))

  pub run_init-IsCore :
      (i : Init) (w : World D) (s : Bytes) (l : ℕ) → IsCore (run_init d f sys i w false s l) i w
  unfolding run_init
  run_init-IsCore no_init w s l = refl
  run_init-IsCore load_init w s l = refl
  run_init-IsCore uptime_init w s l =
      elim (Option-cases (Uptime.uptime_init d sys.proc_uptime w.uptime)) [
        | inl e ↦ rw e refl
        | inr (a, e) ↦ rw e refl
      ]
  run_init-IsCore nusers_init w s l =
      elim (Option-cases (Users.nusers_init d sys.qsort sys.blank_name sys.utmpx w.nusers)) [
        | inl e ↦ rw e refl
        | inr (a, e) ↦ rw e refl
      ]
  run_init-IsCore bat_init w s l =
      elim (Option-cases (Battery.bat_init d sys.bat_status sys.bat_capacity w.battery false)) [
        | inl e ↦ rw e refl
        | inr (a, e) ↦ rw e refl
      ]
  run_init-IsCore mem_init w s l = refl
  run_init-IsCore fs_init w s l =
      elim (Option-cases
        (Fs.fs_init (Mounts.fs_init_platform d sys.mounted sys.mountinfo) w.fs false)) [
          | inl e ↦ rw e refl
          | inr ((a, ws), e) ↦ rw e (rw (append-nil ws, append-nil ws) refl)
        ]
  run_init-IsCore tcp_init w s l =
      elim (Option-cases (Tcp.Stats.tcp_init sys.tcp4 sys.tcp6 w.tcp)) [
        | inl e ↦ rw e refl
        | inr (a, e) ↦ rw e refl
      ]
