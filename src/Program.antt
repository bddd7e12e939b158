-- ===== src/Program.antt =====
-- ustat.c: the table of modules, the choice of a module for an argument, and the main function.
pub use Table.*
use ustat.Base.{
  ℕ, zero, suc, ◌+◌, ◌%◌, ◌^◌, Bool, true, false, not, ◌&&◌, Bytes, List, [], ◌∷◌, ◌++◌, Option,
  none, some, ltb, ◌==◌, if◌then◌else◌, codes, length, get_or, set,
}
use ustat.Djb.{Djb, cstr}
use ustat.Io.{Emits, ◌>>=◌, ◌>>◌, write, puts, return, stdout, stderr}
mod Table
pub mod Order
pub mod Choice
pub mod Begin
pub mod Runs
pub mod World
pub mod Silence
pub mod Single
pub mod Sockets
pub mod RoundTrip
pub mod FileSystems
pub mod Numbers
pub mod LoggedIn
pub mod MemorySize
pub mod Views
pub mod Cores
pub mod Twice
pub mod Again
pub mod Owners
pub mod Begun
pub mod Steps
pub mod Separate
pub mod Failing
pub mod Usage

-- What the program keeps: the states of the modules, and `ready` of each entry.
pub record State (W : Type 0) : Type 0 where
  pub world : W
  pub ready : List Bool

-- What `init` returns, and what it leaves behind.
pub record Started (W : Type 0) : Type 0 where
  pub rc : ℕ
  pub world : W
  pub is_ready : Bool

-- The functions behind the pointers of the table. The argument is its memory and its length.
pub record Handlers (W : Type 0) : Type 0 where
  pub init : Init → W → Bool → Bytes → ℕ → Emits (Started W)
  pub print : Print → ℕ → W → UstatModule → Bytes → ℕ → Emits (Unit {0})

-- What the first loop of `main` ends with: `exit(code)`, or the entries for the arguments.
pub data Scanned (W : Type 0) : Type 0 where
  exits : ℕ → Scanned W
  chosen : List ℕ → State W → Scanned W

-- The rest of an argument list behind one choice.
abbrev pub with_choice : {W : Type 0} → ℕ → Scanned W → Scanned W
with_choice j (exits code) = exits code
with_choice j (chosen js st) = chosen (j ∷ js) st

module _ (d : Djb) where
  -- The inner loop: the index of the first entry, from `j` on, whose name starts the argument, or
  -- the number of entries.
  unfoldable pub find_module : List UstatModule → ℕ → Bytes → ℕ
  find_module [] j arg = j
  find_module (m ∷ ms) j arg =
      let rest = find_module ms (suc j) arg in if d.str_start arg m.name then j else rest

  -- `j % nmodules`
  unfoldable pub select_module : Bytes → ℕ
  unfolding find_module
  select_module arg = find_module named_modules 1 arg % nmodules

  -- `os_exit(code, msg)`, before the exit
  unfoldable pub os_exit : Bytes → Emits (Unit {0})
  os_exit msg = do write stderr msg (d.str_len msg); puts stderr (codes "\n")

  -- The messages of a failed start. `sizeof` counts the zero byte of the first one.
  unfoldable pub cant_init_module : UstatModule → Emits (Unit {0})
  cant_init_module m = do
    puts stderr (cstr (codes "\nerror init module \""))
    write stderr m.name (d.str_len m.name)
    os_exit (cstr (codes "\""))

  module _ {W : Type 0} (h : Handlers W) where
    -- The body of the inner loop for the entry `j` that was found.
    unfoldable pub start_module : ℕ → Bytes → State W → Emits (Option (State W))
    start_module j arg st = do
      let m = module_at j
      (if get_or st.ready j false then return (some st) else (do
        started ← h.init m.init st.world false arg (d.str_len arg)
        (if started.rc == 0
            then (do cant_init_module m; return none)
            else return (
                some (record { world = started.world; ready = set st.ready j started.is_ready })))))

    -- The first loop of `main`.
    unfoldable pub scan_args : List Bytes → State W → Emits (Scanned W)
    scan_args [] st = return (chosen [] st)
    scan_args (arg ∷ args) st = do
      let j = select_module arg
      let start = if j == 0 then return (some st) else start_module j arg st
      next ← start
      elim next [
        | none ↦ return (exits 1)
        | some st' ↦ (do rest ← scan_args args st'; return (with_choice j rest))
      ]

    -- The second loop of `main`.
    unfoldable pub print_args : List ℕ → List Bytes → W → Emits (Unit {0})
    print_args (j ∷ js) (arg ∷ args) w = do
      let m = module_at j
      h.print m.print stdout w m arg (d.str_len arg)
      print_args js args w
    print_args _ _ w = return tt

  -- The loop of `usage`.
  unfoldable pub usage_loop : List UstatModule → Emits (Unit {0})
  usage_loop [] = return tt
  usage_loop (m ∷ ms) = do
    write stdout m.name (d.str_len m.name)
    puts stdout (codes "\t")
    write stdout m.descr (d.str_len m.descr)
    puts stdout (codes "\n")
    usage_loop ms

  unfoldable pub usage : Emits ℕ
  usage = do usage_loop named_modules; return 0

  -- `argc == 2 && str_diffn(argv[1], "-h", 2) == 0`
  unfoldable pub wants_usage : List Bytes → Bool
  wants_usage (arg ∷ []) = d.str_equaln arg (cstr (codes "-h")) 2
  wants_usage _ = false

  -- `main`, on the arguments behind the program's name: the exit code.
  unfoldable pub main : {W : Type 0} → Handlers W → State W → List Bytes → Emits ℕ
  main h st args = if wants_usage args then usage else (do
    scanned ← scan_args h args st
    elim scanned [
      | exits code ↦ return code
      | chosen js st' ↦ (do print_args h js args st'.world; return 0)
    ])
