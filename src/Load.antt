-- ===== src/Load.antt =====
-- ustat_load.c.
pub mod Text
use ustat.Base.{ℕ, Bool, true, List, [], ◌∷◌, Option, none, some, codes}
use ustat.Djb.{Djb}
use ustat.Double.{Double, write_double}
use ustat.Io.{Emits, ◌>>◌, puts, return}

-- `_load`
pub record Load (D : Type 0) : Type 0 where
  pub one : D
  pub five : D
  pub fifteen : D

module _ {D : Type 0} (f : Double D) where
  -- `_get_loadavg` for Linux: three fixed-point numbers, where the call succeeds, and their scale,
  -- `1 << SI_LOAD_SHIFT`.
  unfoldable pub get_loadavg : Option (ℕ × ℕ × ℕ) → ℕ → Load D → Load D
  get_loadavg none scale load = load
  get_loadavg (some (a, b, c)) scale load = record {
    one = f.div (f.of_u64 a) (f.of_u64 scale);
    five = f.div (f.of_u64 b) (f.of_u64 scale);
    fifteen = f.div (f.of_u64 c) (f.of_u64 scale);
  }

  -- `_get_loadavg` for BSD: the `struct loadavg` that sysctl gives has its own scale.
  unfoldable pub get_loadavg_bsd : Option ((ℕ × ℕ × ℕ) × ℕ) → Load D → Load D
  get_loadavg_bsd none load = load
  get_loadavg_bsd (some ((a, b, c), fscale)) load = record {
    one = f.div (f.of_u64 a) (f.of_u64 fscale);
    five = f.div (f.of_u64 b) (f.of_u64 fscale);
    fifteen = f.div (f.of_u64 c) (f.of_u64 fscale);
  }

  -- `load_init`: `_load`, and that the module is ready.
  unfoldable pub load_init : Option (ℕ × ℕ × ℕ) → ℕ → Load D → Load D × Bool
  load_init loads scale load = (get_loadavg loads scale load, true)

  -- The loop of `load_print`, over the items that are left: a blank behind all but the last.
  unfoldable pub print_loop : Djb → ℕ → List D → Emits ℕ
  print_loop d fd [] = return 1
  print_loop d fd (x ∷ []) = do write_double d f fd x 2; return 1
  print_loop d fd (x ∷ y ∷ xs) = do
    write_double d f fd x 2
    puts fd (codes " ")
    print_loop d fd (y ∷ xs)

  unfoldable pub load_print : Djb → ℕ → Load D → Emits ℕ
  load_print d fd load = print_loop d fd (load.one ∷ load.five ∷ load.fifteen ∷ [])
