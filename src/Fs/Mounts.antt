-- ===== src/Fs/Mounts.antt =====
-- ustat_fs_linux.c: the mounts, from /proc/self/mountinfo.
pub mod Table
pub mod Lines
pub mod Phases
pub mod Made
use ustat.Base.{
  ℕ, zero, suc, ◌+◌, ◌-◌, ◌*◌, ◌%◌, Bool, true, false, ◌||◌, Bytes, List, [], ◌∷◌, ◌++◌, Option,
  none, some, ltb, ◌==◌, if◌then◌else◌, codes, u64_mod, drop, get_elem?, set, length, replicate, ℤ,
  pos, negsuc, ◌≡◌, Lacks,
}
use ustat.Djb.{Djb, cstr, text}
use ustat.Io.{content, Fd, Read, sys_read, store_all, char_array}
use ustat.Fs.{UstatFs}

-- The parts of `struct statvfs` that are used.
pub record Statvfs : Type 0 where
  pub f_blocks : ℕ
  pub f_bfree : ℕ
  pub f_frsize : ℕ

-- `statvfs`, of the text at a pointer; it reads no byte behind the zero byte.
pub record Mounted : Type 0 where
  pub statvfs : Bytes → Option Statvfs
  pub statvfs-text : (p rest : Bytes) → Lacks 0 p → statvfs (text p rest) ≡ statvfs (cstr p)

-- `_get_total_free`: `n_total` and `n_free`, which are zeros before the call.
unfoldable pub get_total_free : Option Statvfs → ℕ × ℕ
get_total_free none = (0, 0)
get_total_free (some buf) =
    (buf.f_blocks * buf.f_frsize % u64_mod, buf.f_bfree * buf.f_frsize % u64_mod)

-- The variables of phase 3: `mnt` is an index into `buf`, or null.
pub record Analysis : Type 0 where
  pub buf : Bytes
  pub mnt : Option ℕ
  pub field : ℕ
  pub fs : List UstatFs

-- `b == ' ' || b == '\t'`
abbrev pub is_blank : ℕ → Bool
is_blank b = b == 32 || b == 9

-- `if (mnt == 0x0) mnt = &buf[i];`
abbrev pub first_index : ℕ → Option ℕ → Option ℕ
first_index i none = some i
first_index i (some m) = some m

-- Phase 1, with fuel: the size of the file. A failing read is `some none`.
unfoldable pub file_size : ℕ → ℕ → ℕ → Fd → Option (Option ℕ)
file_size zero i n fd = none
file_size (suc f) i n fd =
    let g = sys_read i fd in
    elim g.ret [
      | pos zero ↦ some (some n)
      | pos (suc r) ↦ file_size f (i * 2) (n + suc r) g.left
      | negsuc r ↦ some none
    ]

module _ (d : Djb) (v : Mounted) where
  -- `_add_mount_entry(fs, fs_n, mnt, l)`, for memory that does not run out
  unfoldable pub add_mount_entry : List UstatFs → Bytes → ℕ → List UstatFs
  add_mount_entry fs mnt l =
      if d.str_start mnt (cstr (codes "/proc"))
      then fs
      else if d.str_start mnt (cstr (codes "/sys"))
      then fs
      else if d.str_start mnt (cstr (codes "/dev"))
      then fs
      else let (n_total, n_free) = get_total_free (v.statvfs mnt) in
        if n_total == 0
        then fs
        else fs
          ++ record { id = d.byte_copy (l + 1) mnt; id_l = l; n_free = n_free; n_total = n_total }
            ∷ []

  -- The call of `_add_mount_entry`; `none` is a read through a null pointer.
  unfoldable pub end_of_point : ℕ → Analysis → Option Analysis
  end_of_point i a = elim a.mnt [
    | none ↦ none
    | some m ↦ some (record {
      buf = a.buf;
      mnt = some m;
      field = a.field;
      fs = add_mount_entry a.fs (drop m a.buf) (i - m);
    })
  ]

  -- A blank at index `i`, with the field that it begins.
  unfoldable pub at_blank : ℕ → ℕ → Analysis → Option Analysis
  at_blank i field a =
      if field == 4
      then some (record { buf = a.buf; mnt = a.mnt; field = field; fs = a.fs })
      else let a' : Analysis = record {
        buf = set a.buf i 0;
        mnt = a.mnt;
        field = field;
        fs = a.fs;
      } in
        if field == 5 then end_of_point i a' else some a'

  -- The loop's body for the byte `b` at index `i`.
  unfoldable pub analyze_byte : ℕ → ℕ → Analysis → Option Analysis
  analyze_byte i b a =
      if is_blank b
      then at_blank i (a.field + 1) a
      else if b == 10
      then some (record { buf = a.buf; mnt = none; field = 0; fs = a.fs })
      else if a.field == 4
      then some (record { buf = a.buf; mnt = first_index i a.mnt; field = a.field; fs = a.fs })
      else some a

  -- The loop, with the rounds that are left.
  unfoldable pub analyze : ℕ → ℕ → Analysis → Option Analysis
  analyze zero i a = some a
  analyze (suc k) i a = elim (get_elem? a.buf i) [
    | none ↦ none
    | some b ↦ elim (analyze_byte i b a) [ none ↦ none | some a' ↦ analyze k (suc i) a' ]
  ]

  -- Phase 3 on the buffer with `n` bytes of the file.
  unfoldable pub analyze_buf : Bytes → ℕ → List UstatFs → Option (List UstatFs)
  analyze_buf buf n fs = elim (analyze n 0 (record { buf = buf; mnt = none; field = 0; fs = fs })) [
    | none ↦ none
    | some a ↦ some a.fs
  ]

  -- Phase 2 and 3: an array of no bytes has no behaviour, and neither has a loop up to `(size_t)-1`.
  unfoldable pub read_and_analyze : ℕ → Fd → List UstatFs → Option (List UstatFs)
  read_and_analyze zero fd fs = none
  read_and_analyze (suc m) fd fs =
      let g = sys_read (2 * suc m) fd in
      elim g.ret [
        | pos n ↦ elim (store_all (char_array (2 * suc m)) g.bytes) [
          | none ↦ none
          | some buf ↦ analyze_buf buf n fs
        ]
        | negsuc r ↦ none
      ]

  -- `_fs_init_platform`: the file, if it opens, as phase 1 reads it and as it is behind `lseek`.
  unfoldable pub fs_init_platform : Option (Fd × Fd) → List UstatFs → Option (List UstatFs)
  fs_init_platform none fs = some fs
  fs_init_platform (some (first, second)) fs =
      elim (file_size (suc (length (content first))) 1024 0 first) [
        | none ↦ none
        | some none ↦ some fs
        | some (some n) ↦ read_and_analyze n second fs
      ]
