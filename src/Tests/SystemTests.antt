-- ===== src/Tests/SystemTests.antt =====
-- The theorems about files and the system, at concrete inputs.
use ustat.Base.{ℕ, Bytes, List, [], ◌∷◌, ◌++◌, none, some, ◌≡◌, refl, arith, length, codes, false}
use ustat.Battery.Info.{bat_init_full}
use ustat.Battery.{full, bat_init}
use ustat.Djb.{cstr}
use ustat.Fs.Mounts.Lines.{Line, IsLine, file_text, analyze_buf-entries}
use ustat.Fs.Mounts.{Mounted, analyze_buf, get_total_free}
use ustat.Fs.{UstatFs}
use ustat.Helpers.Endless.{read_double_from_fd_endless}
use ustat.Helpers.Fields.{first_n_fields-first_fields}
use ustat.Helpers.{first_n_fields, read_double_from_fd}
use ustat.Io.{chunk, said}
use ustat.Tests.Instances.{djb, fractions}

-- Every mount has 1000 blocks of 4096 bytes.
abbrev pub mounts : Mounted
mounts = record {
  statvfs = λ p. some (record { f_blocks = 1000; f_bfree = 250; f_frsize = 4096 });
  statvfs-text = λ p rest h. refl;
}

abbrev pub line : ℕ → Bytes → Line
line c others = record {
  mount_id = codes "36";
  parent_id = codes "35";
  device = codes "98:0";
  root = codes "/";
  first = c;
  others = others;
  options = codes "rw,noatime - ext3 /dev/root rw";
}

abbrev pub table : List Line
table = line b'/' (codes "home") ∷ line b'/' (codes "proc") ∷ []

pub home_IsLine : IsLine (line b'/' (codes "home"))
home_IsLine = record {
  mount_id = ground arith;
  parent_id = ground arith;
  device = ground arith;
  root = ground arith;
  first = ground arith;
  others = ground arith;
  options = ground arith;
  clean = ground arith;
}

pub proc_IsLine : IsLine (line b'/' (codes "proc"))
proc_IsLine = record {
  mount_id = ground arith;
  parent_id = ground arith;
  device = ground arith;
  root = ground arith;
  first = ground arith;
  others = ground arith;
  options = ground arith;
  clean = ground arith;
}

abbrev pub home : UstatFs
home = record { id = cstr (codes "/home"); id_l = 5; n_free = 1024000; n_total = 4096000 }

abbrev base : UstatFs
base = record { id = cstr (codes "/"); id_l = 1; n_free = 5; n_total = 9 }

analyze_buf-entries_example :
    analyze_buf djb mounts (file_text table ++ codes "xyz") (length (file_text table)) []
    ≡ some (home ∷ [])
unfolding get_total_free
analyze_buf-entries_example =
    analyze_buf-entries djb mounts (codes "xyz") table [] (home_IsLine, (proc_IsLine, tt))

bat_init_full_example :
    bat_init djb (some (chunk (codes "Charging, and this is a long status") ∷ [])) none full false
    ≡ none
bat_init_full_example =
    bat_init_full djb (codes "Charging, and this is a long status") [] none full (omega arith)

first_n_fields-first_fields_example :
    said 1 (first_n_fields 1 (chunk (codes "0.20 0") ∷ chunk (codes ".18 0.12") ∷ []) 32 2)
    ≡ some (1, codes "0.20 0.18")
first_n_fields-first_fields_example =
    first_n_fields-first_fields 1 32 2 (chunk (codes "0.20 0") ∷ chunk (codes ".18 0.12") ∷ [])

read_double_from_fd_endless_example :
    read_double_from_fd fractions 1000 (chunk (codes "12") ∷ []) ≡ none
read_double_from_fd_endless_example =
    read_double_from_fd_endless fractions 1000 b'1' (codes "2") (ground arith) (ground arith)
