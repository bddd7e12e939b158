-- ===== src/Program/Twice.antt =====
-- The starts of single modules, once more on what they left.
use ustat.Base.{
  length, ℕ, ◌^◌, ◌%◌, Bool, true, false, Bytes, Option, none, some, ◌≡◌, refl, ◌∙◌, ap, inl, inr,
  Option-cases, Bool-cases, ◌==◌, if◌then◌else◌, List, [], ◌∷◌, pos, negsuc, ℤ, arith, leb, codes,
  ltb, ◌&&◌,
}
use ustat.Battery
use ustat.Djb.{Djb, cstr}
use ustat.Double.{Double}
use ustat.Fs
use ustat.Io.{Write, Fd, char_array, ◌>>=◌, from}
use ustat.Load
use ustat.Memory
use ustat.Uptime
use ustat.Users

pub get_loadavg-again :
    {D : Type 0} (f : Double D) (loads : Option (ℕ × ℕ × ℕ)) (scale : ℕ) (v : Load.Load D)
    → Load.get_loadavg f loads scale (Load.get_loadavg f loads scale v)
      ≡ Load.get_loadavg f loads scale v
unfolding Load.get_loadavg
get_loadavg-again f none scale v = refl
get_loadavg-again f (some (a, b, c)) scale v = refl

pub uptime_init-again :
    (d : Djb) (file : Option Fd) (v ut : ℕ) (r : Bool)
    → Uptime.uptime_init d file v ≡ some (ut, r)
    → Uptime.uptime_init d file ut ≡ some (ut, r)
unfolding Uptime.uptime_init Uptime.get_boottime
uptime_init-again d none v ut r e = cc
uptime_init-again d (some fd) v ut r e = e

pub nusers_init-again :
    (d : Djb) (qsort : List Users.NameT → List Users.NameT) (blank : Bytes) (us : List Users.Utmpx)
    (v n : ℤ)
    → Users.nusers_init d qsort blank us v ≡ some n
    → Users.nusers_init d qsort blank us n ≡ some n
unfolding Users.nusers_init
nusers_init-again d qsort blank us (pos k) n e = let same : pos k ≡ n = cc in rw (← same) refl
nusers_init-again d qsort blank us (negsuc k) n e =
    elim (Bool-cases (leb (Users.count_users us) 1)) [
      | inl few ↦
          let e' = rw (few, Users.nusers_init) at e in
          let same : pos (Users.count_users us) ≡ n = cc in rw (← same) refl
      | inr many ↦ elim (Option-cases (Users.collect_names d blank us)) [
        | inl q ↦ let e' = rw (many, q, Users.nusers_init) at e in cc
        | inr (names, q) ↦
            let e' = rw (many, q, Users.nusers_init) at e in
            let same : pos (Users.count_names d (length blank) (qsort names)) ≡ n = cc in
            rw (← same) refl
      ]
    ]

get_total_free-again :
    (si : Option Memory.Sysinfo) (m : Memory.Memory)
    → Memory.get_total_free si (Memory.get_total_free si m) ≡ Memory.get_total_free si m
unfolding Memory.get_total_free
get_total_free-again none m = refl
get_total_free-again (some si) m = refl

pub mem_init-again :
    (si : Option Memory.Sysinfo) (m : Memory.Memory)
    → let now = (Memory.mem_init (Memory.get_total_free si) m false).0 in
      (Memory.mem_init (Memory.get_total_free si) now false).0 ≡ now
unfolding Memory.mem_init
mem_init-again si m = elim (Bool-cases (ltb 0 m.mem_total && ltb 0 m.mem_free)) [
  | inl e ↦ rw (e, Memory.mem_init) (rw (e, Memory.mem_init) refl)
  | inr e ↦
      let now = Memory.get_total_free si m in
      rw (e, Memory.mem_init)
        (elim (Bool-cases (ltb 0 now.mem_total && ltb 0 now.mem_free)) [
          | inl e' ↦ rw (e', Memory.mem_init) refl
          | inr e' ↦ rw (e', Memory.mem_init) (get_total_free-again si m)
        ])
]

-- The battery behind the status, which does not depend on the level.
abbrev status_of : Djb → Bytes → Battery.UstatBattery → Battery.UstatBattery
status_of d buf bi =
    if d.str_start buf (cstr (codes "Charging"))
    then record { level = bi.level; is_charging = 1 }
    else bi

read_capacity-again :
    (d : Djb) (status buf : Bytes) (capacity : Option Fd) (bi now : Battery.UstatBattery)
    → Battery.read_capacity d buf capacity (status_of d status bi) ≡ some now
    → Battery.read_capacity d buf capacity (status_of d status now) ≡ some now
unfolding Battery.read_capacity
read_capacity-again d status buf none bi now e =
    elim (Bool-cases (d.str_start status (cstr (codes "Charging")))) [
      | inl q ↦
          let e' = rw q at e in
          let same : record { level = bi.level; is_charging = 1 } ≡ now = cc in rw (q, ← same) refl
      | inr q ↦ rw q refl
    ]
read_capacity-again d status buf (some fd) bi now e =
    elim (Option-cases (Uptime.read_text buf fd)) [
      | inl q ↦ let e' = rw (q, Battery.read_capacity) at e in cc
      | inr (buf', q) ↦
          let e' = rw (q, Battery.read_capacity) at e in
          elim (Bool-cases (d.str_start status (cstr (codes "Charging")))) [
            | inl c ↦ let e'' = rw c at e' in rw (q, c, Battery.read_capacity) e''
            | inr c ↦
                let e'' = rw c at e' in
                let level_is : (d.scan_ulong buf').result % 2 ^ 32 ≡ now.level = cc in
                let charging_is : bi.is_charging ≡ now.is_charging = cc in
                rw (q, c, level_is, Battery.read_capacity) refl
          ]
    ]

pub bat_init-again :
    (d : Djb) (status capacity : Option Fd) (bi now : Battery.UstatBattery) (r : Bool)
    → Battery.bat_init d status capacity bi false ≡ some (now, r)
    → Battery.bat_init d status capacity now false ≡ some (now, r)
unfolding Battery.bat_init Battery.get_battery_info
bat_init-again d none capacity bi now r e = let r_is : true ≡ r = cc in rw r_is refl
bat_init-again d (some fd) capacity bi now r e =
    elim (Option-cases (Uptime.read_text (char_array Battery.max_bytes) fd)) [
      | inl q ↦ let e' = rw (q, Battery.bat_init) at e in cc
      | inr (buf, q) ↦
          let e' = rw (q, Battery.bat_init) at e in
          elim (Option-cases (Battery.read_capacity d buf capacity (status_of d buf bi))) [
            | inl p ↦ let e'' = rw p at e' in cc
            | inr (now', p) ↦
                let e'' = rw p at e' in
                let now_is : now' ≡ now = cc in
                let r_is : true ≡ r = cc in
                let again =
                  read_capacity-again d buf buf capacity bi now (p ∙ ap (λ x. some x) now_is) in
                rw (q, again, r_is, Battery.bat_init) refl
          ]
    ]

fs_found-again :
    (platform : List Fs.UstatFs → Option (List Fs.UstatFs)) (fs : List Fs.UstatFs) (i : Fs.FsInit)
    (ws : List Write)
    → (from (some fs) >>= λ found. Fs.fs_found found) ≡ some (i, ws)
    → (i.rc == 0) ≡ false
    → Fs.fs_init platform i.fs false ≡ some (Fs.fs_result i.rc i.fs false, [])
unfolding Fs.fs_init
fs_found-again platform [] i ws e ok =
    let i_is : Fs.fs_result 0 [] false ≡ i = cc in
    let rc_is : 0 ≡ i.rc = ap (λ x. x.rc) i_is in
    let wrong : (0 == 0) ≡ false = ap (λ x. x == 0) rc_is ∙ ok in ground arith
fs_found-again platform (f ∷ fs) i ws e ok =
    let i_is : Fs.fs_result 1 (f ∷ fs) true ≡ i = cc in rw (← i_is) refl

pub fs_init-again :
    (platform : List Fs.UstatFs → Option (List Fs.UstatFs)) (fs : List Fs.UstatFs) (i : Fs.FsInit)
    (ws : List Write)
    → Fs.fs_init platform fs false ≡ some (i, ws)
    → (i.rc == 0) ≡ false
    → Fs.fs_init platform i.fs false ≡ some (Fs.fs_result i.rc i.fs false, [])
unfolding Fs.fs_init
fs_init-again platform (f ∷ fs) i ws e ok =
    let i_is : Fs.fs_result 1 (f ∷ fs) false ≡ i = cc in rw (← i_is) refl
fs_init-again platform [] i ws e ok = elim (Option-cases (platform [])) [
  | inl q ↦ let e' = rw (q, Fs.fs_init) at e in cc
  | inr (fs, q) ↦ let e' = rw (q, Fs.fs_init) at e in fs_found-again platform fs i ws e' ok
]
