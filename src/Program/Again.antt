-- ===== src/Program/Again.antt =====
-- A start that succeeded, once more: its part stays.
use ustat.Base.{
  ◌^◌, Bool, true, false, some, ◌≡◌, refl, sym, ◌∙◌, ap, inl, inr, Option-cases, ◌==◌, List, [],
  arith,
}
use ustat.Battery
use ustat.Djb.{Djb}
use ustat.Double.{Double}
use ustat.Fs
use ustat.Fs.Mounts
use ustat.Io.{Write}
use ustat.Load
use ustat.Memory
use ustat.Program.Cores.{Part, core}
use ustat.Program.Views.{View}
use ustat.Program.World.{System}
use ustat.Program.{
  Init, no_init, load_init, uptime_init, nusers_init, bat_init, mem_init, fs_init, tcp_init,
}
use ustat.Tcp
use ustat.Tcp.Stats.Init.{tcp_init_once}
use ustat.Uptime
use ustat.Users
use ustat.Program.Twice.{
  get_loadavg-again, uptime_init-again, nusers_init-again, mem_init-again, bat_init-again,
  fs_init-again,
}

module _ (d : Djb) {D : Type 0} (f : Double D) (sys : System) where
  -- A start of a part that a start has left changes neither the part nor the result, and it writes
  -- nothing.
  abbrev pub IsSettled : (i : Init) → Part (View D i) → Type 0
  IsSettled i p = (r : Bool) × (core d f sys i p.part ≡ some (record p { is_ready = r }, []))

  pub core-IsSettled :
      (i : Init) (v : View D i) (p : Part (View D i)) (ws : List Write)
      → core d f sys i v ≡ some (p, ws)
      → (p.rc == 0) ≡ false
      → IsSettled i p
  unfolding Load.load_init
  core-IsSettled no_init v p ws e ok =
      let p_is : record { rc = 1; part = tt; is_ready = true } ≡ p = cc in (true, rw (← p_is) refl)
  core-IsSettled load_init v p ws e ok =
      let l = Load.load_init f sys.loads (2 ^ sys.si_load_shift) v in
      let p_is : record { rc = 1; part = l.0; is_ready = l.1 } ≡ p = cc in
      (true, rw (← p_is) (rw (get_loadavg-again f sys.loads (2 ^ sys.si_load_shift) v) refl))
  core-IsSettled uptime_init v p ws e ok =
      elim (Option-cases (Uptime.uptime_init d sys.proc_uptime v)) [
        | inl q ↦ let e' = rw q at e in cc
        | inr ((ut, r), q) ↦
            let e' = rw q at e in
            let p_is : record { rc = 1; part = ut; is_ready = r } ≡ p = cc in
            (r, rw (← p_is) (rw (uptime_init-again d sys.proc_uptime v ut r q) refl))
      ]
  core-IsSettled nusers_init v p ws e ok =
      elim (Option-cases (Users.nusers_init d sys.qsort sys.blank_name sys.utmpx v)) [
        | inl q ↦ let e' = rw q at e in cc
        | inr (n, q) ↦
            let e' = rw q at e in
            let p_is : record { rc = 1; part = n; is_ready = true } ≡ p = cc in
            (
              true,
              rw (← p_is) (rw (nusers_init-again d sys.qsort sys.blank_name sys.utmpx v n q) refl),
            )
      ]
  core-IsSettled bat_init v p ws e ok =
      elim (Option-cases (Battery.bat_init d sys.bat_status sys.bat_capacity v false)) [
        | inl q ↦ let e' = rw q at e in cc
        | inr ((bi, r), q) ↦
            let e' = rw q at e in
            let p_is : record { rc = 1; part = bi; is_ready = r } ≡ p = cc in
            (r, rw (← p_is) (rw (bat_init-again d sys.bat_status sys.bat_capacity v bi r q) refl))
      ]
  core-IsSettled mem_init v p ws e ok =
      let m = Memory.mem_init (Memory.get_total_free sys.sysinfo) v false in
      let p_is : record { rc = 1; part = m.0; is_ready = m.1 } ≡ p = cc in
      (
        (Memory.mem_init (Memory.get_total_free sys.sysinfo) m.0 false).1,
        rw (← p_is) (
            ap
              (λ x. some (
                record {
                  rc = 1;
                  part = x;
                  is_ready = (Memory.mem_init (Memory.get_total_free sys.sysinfo) m.0 false).1;
                },
                [],
              ))
              (mem_init-again sys.sysinfo v)),
      )
  core-IsSettled fs_init v p ws e ok =
      let platform = Mounts.fs_init_platform d sys.mounted sys.mountinfo in
      elim (Option-cases (Fs.fs_init platform v false)) [
        | inl q ↦ let e' = rw q at e in cc
        | inr ((i, ws'), q) ↦
            let e' = rw q at e in
            let p_is : record { rc = i.rc; part = i.fs; is_ready = i.ready } ≡ p = cc in
            let rc_is : i.rc ≡ p.rc = ap (λ x. x.rc) p_is in
            let again = fs_init-again platform v i ws' q (rw rc_is ok) in
            (false, rw (← p_is) (rw again refl))
      ]
  core-IsSettled tcp_init v p ws e ok =
      elim (Option-cases (Tcp.Stats.tcp_init sys.tcp4 sys.tcp6 v)) [
        | inl q ↦ let e' = rw q at e in cc
        | inr (i, q) ↦
            let e' = rw q at e in
            let p_is : record { rc = i.rc; part = i.state; is_ready = i.ready } ≡ p = cc in
            elim (tcp_init_once sys.tcp4 sys.tcp6 sys.tcp4 sys.tcp6 v i q) [
              | inl (failed, _, _, _, _) ↦
                  let rc_is : i.rc ≡ p.rc = ap (λ x. x.rc) p_is in
                  let wrong : (0 == 0) ≡ false = ap (λ x. x == 0) (sym failed ∙ rc_is) ∙ ok in
                  ground arith
              | inr (one, is_ready, again) ↦ (true, rw (← p_is) (rw (again, one) refl))
            ]
      ]
