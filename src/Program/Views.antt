-- ===== src/Program/Views.antt =====
-- The part of the static variables that each kind of start works on.
use ustat.Base.{ℕ, ℤ, List, ◌≡◌, refl, ◌⊎◌, inl, inr}
use ustat.Battery
use ustat.Fs
use ustat.Load
use ustat.Memory
use ustat.Program.World.{World}
use ustat.Program.{
  Init, no_init, load_init, uptime_init, nusers_init, bat_init, mem_init, fs_init, tcp_init,
}
use ustat.Tcp

module _ (D : Type 0) where
  abbrev pub View : Init → Type 0
  View no_init = Unit
  View load_init = Load.Load D
  View uptime_init = ℕ
  View nusers_init = ℤ
  View bat_init = Battery.UstatBattery
  View mem_init = Memory.Memory
  View fs_init = List Fs.UstatFs
  View tcp_init = Tcp.Stats.Tcp

  abbrev pub view : (i : Init) → World D → View i
  view no_init w = tt
  view load_init w = w.load
  view uptime_init w = w.uptime
  view nusers_init w = w.nusers
  view bat_init w = w.battery
  view mem_init w = w.memory
  view fs_init w = w.fs
  view tcp_init w = w.tcp

  abbrev pub put : (i : Init) → View i → World D → World D
  put no_init v w = w
  put load_init v w = record w { load = v }
  put uptime_init v w = record w { uptime = v }
  put nusers_init v w = record w { nusers = v }
  put bat_init v w = record w { battery = v }
  put mem_init v w = record w { memory = v }
  put fs_init v w = record w { fs = v }
  put tcp_init v w = record w { tcp = v }

  pub view-put : (i : Init) (v : View i) (w : World D) → view i (put i v w) ≡ v
  view-put no_init v w = refl
  view-put load_init v w = refl
  view-put uptime_init v w = refl
  view-put nusers_init v w = refl
  view-put bat_init v w = refl
  view-put mem_init v w = refl
  view-put fs_init v w = refl
  view-put tcp_init v w = refl

  -- A start of one kind leaves the part of every other kind.
  pub view-put_other :
      (i k : Init) (v : View i) (w : World D) → (k ≡ i) ⊎ (view k (put i v w) ≡ view k w)
  view-put_other i no_init v w = inr refl
  view-put_other no_init k v w = inr refl
  view-put_other load_init load_init v w = inl refl
  view-put_other load_init uptime_init v w = inr refl
  view-put_other load_init nusers_init v w = inr refl
  view-put_other load_init bat_init v w = inr refl
  view-put_other load_init mem_init v w = inr refl
  view-put_other load_init fs_init v w = inr refl
  view-put_other load_init tcp_init v w = inr refl
  view-put_other uptime_init load_init v w = inr refl
  view-put_other uptime_init uptime_init v w = inl refl
  view-put_other uptime_init nusers_init v w = inr refl
  view-put_other uptime_init bat_init v w = inr refl
  view-put_other uptime_init mem_init v w = inr refl
  view-put_other uptime_init fs_init v w = inr refl
  view-put_other uptime_init tcp_init v w = inr refl
  view-put_other nusers_init load_init v w = inr refl
  view-put_other nusers_init uptime_init v w = inr refl
  view-put_other nusers_init nusers_init v w = inl refl
  view-put_other nusers_init bat_init v w = inr refl
  view-put_other nusers_init mem_init v w = inr refl
  view-put_other nusers_init fs_init v w = inr refl
  view-put_other nusers_init tcp_init v w = inr refl
  view-put_other bat_init load_init v w = inr refl
  view-put_other bat_init uptime_init v w = inr refl
  view-put_other bat_init nusers_init v w = inr refl
  view-put_other bat_init bat_init v w = inl refl
  view-put_other bat_init mem_init v w = inr refl
  view-put_other bat_init fs_init v w = inr refl
  view-put_other bat_init tcp_init v w = inr refl
  view-put_other mem_init load_init v w = inr refl
  view-put_other mem_init uptime_init v w = inr refl
  view-put_other mem_init nusers_init v w = inr refl
  view-put_other mem_init bat_init v w = inr refl
  view-put_other mem_init mem_init v w = inl refl
  view-put_other mem_init fs_init v w = inr refl
  view-put_other mem_init tcp_init v w = inr refl
  view-put_other fs_init load_init v w = inr refl
  view-put_other fs_init uptime_init v w = inr refl
  view-put_other fs_init nusers_init v w = inr refl
  view-put_other fs_init bat_init v w = inr refl
  view-put_other fs_init mem_init v w = inr refl
  view-put_other fs_init fs_init v w = inl refl
  view-put_other fs_init tcp_init v w = inr refl
  view-put_other tcp_init load_init v w = inr refl
  view-put_other tcp_init uptime_init v w = inr refl
  view-put_other tcp_init nusers_init v w = inr refl
  view-put_other tcp_init bat_init v w = inr refl
  view-put_other tcp_init mem_init v w = inr refl
  view-put_other tcp_init fs_init v w = inr refl
  view-put_other tcp_init tcp_init v w = inl refl
