-- ===== src/Human.antt =====
-- ustat_helper/write_uint64_human.c.
pub mod Units
use ustat.Base.{
  ℕ, zero, suc, ◌+◌, ◌*◌, ◌/◌, ◌%◌, ◌&&◌, Bytes, Option, ltb, if◌then◌else◌, codes, u64_mod, [],
  ◌∷◌, ◌++◌, drop,
}
use ustat.Djb.{Djb, cstr}
use ustat.Double.{Double, write_double}
use ustat.Io.{Emits, ◌>>=◌, ◌>>◌, write, return}

-- `human_suf`, with its zero byte.
abbrev pub human_suf : Bytes
human_suf = cstr (codes "_kmgt")

-- `last_suf - human_suf`, which counts the zero byte.
abbrev pub last_suf : ℕ
last_suf = 6

-- `scale`, and the index of `suf`.
pub record Scale : Type 0 where
  pub scale : ℕ
  pub suf : ℕ

-- The loop, with fuel: the guard on `suf` allows seven rounds.
human_loop : ℕ → ℕ → ℕ → Scale → Scale
human_loop zero min v s = s
human_loop (suc f) min v s =
    let rest =
      human_loop f min (v / 1000) (record { scale = s.scale * 1000 % u64_mod; suf = s.suf + 1 }) in
    if ltb min (v / 1000) && ltb s.suf (last_suf + 1) then rest else s

pub human_scale : ℕ → ℕ → Scale
unfolding human_loop
human_scale min val = human_loop 8 min val (record { scale = 1; suf = 0 })

module _ (d : Djb) {D : Type 0} (f : Double D) where
  -- `if (suf > human_suf) write(fd, suf, 1);`
  pub write_suffix : ℕ → Scale → Emits ℕ
  write_suffix fd s =
      if ltb 0 s.suf then (do write fd (drop s.suf human_suf) 1; return 1) else return 1

  -- `write_uint64_human(fd, min, val)`
  pub write_uint64_human : ℕ → ℕ → ℕ → Emits ℕ
  unfolding write_suffix
  write_uint64_human fd min val = do
    let s = human_scale min val
    write_double d f fd (f.div (f.of_u64 val) (f.of_u64 s.scale)) 2
    write_suffix fd s
