-- ===== src/Fs/Mounts/Phases.antt =====
-- The three phases of ustat_fs_linux.c together: the size of the file, the file in one read, and
-- its lines.
use ustat.Base.{
  ℕ, zero, suc, ◌+◌, ◌*◌, ◌<◌, Bytes, List, [], ◌∷◌, ◌++◌, some, ◌≡◌, refl, ◌∙◌, ap, All, arith,
  length, drop, length-append, length-drop, length-replicate, leb, le→leb, Bool-cases, inl, inr,
  pos,
}
use ustat.Djb.{Djb}
use ustat.Fs.Mounts.Lines.{Line, IsLine, file_text, entries, analyze_buf-entries}
use ustat.Fs.Mounts.{Mounted, file_size, read_and_analyze, fs_init_platform}
use ustat.Fs.{UstatFs}
use ustat.Io.{Fd, chunk, fails, content, sys_read, store_all_in, char_array}
use ustat.Uptime.File.{drop-item, short_read}

-- No read fails in front of the end of the file.
abbrev pub IsHealthy : Fd → Type 0
IsHealthy [] = Unit
IsHealthy (fails ∷ fd) = ⊥
IsHealthy (chunk [] ∷ fd) = Unit
IsHealthy (chunk (c ∷ b) ∷ fd) = IsHealthy fd

-- A read that gives at least one byte, and what it leaves.
Reads : ℕ → Fd → Type 0
Reads i fd =
    (r : ℕ) × ((sys_read i fd).ret ≡ pos (suc r))
    × (length (content (sys_read i fd).left) + suc r ≡ length (content fd))
    × IsHealthy (sys_read i fd).left

read_some : (i c : ℕ) (b : Bytes) (fd : Fd) → IsHealthy fd → Reads (suc i) (chunk (c ∷ b) ∷ fd)
unfolding Reads sys_read
read_some i c b fd h = elim (Bool-cases (leb (length (c ∷ b)) (suc i))) [
  | inl e ↦ rw (e, sys_read) (length b, refl, omega (arith, length-append b (content fd)), h)
  | inr e ↦
      let small : i < length b = ground arith in
      let (x, item) = drop-item i b small in
      let rest = drop (suc i) b in
      rw (e, sys_read, item)
        (
          i,
          refl,
          omega (
            arith,
            length-drop (suc i) b,
            length-append rest (content fd),
            length-append b (content fd),
          ),
          h,
        )
]

file_size-step :
    (k i n r : ℕ) (fd : Fd)
    → (sys_read i fd).ret ≡ pos (suc r)
    → file_size (suc k) i n fd ≡ file_size k (i * 2) (n + suc r) (sys_read i fd).left
unfolding file_size
file_size-step k i n r fd e = rw (e, file_size) refl

-- Phase 1 finds the size of a file that can be read, in as many reads as the file has bytes, and
-- one more.
pub file_size-content :
    (k i n : ℕ) (fd : Fd)
    → IsHealthy fd
    → 0 < i
    → length (content fd) < k
    → file_size k i n fd ≡ some (some (n + length (content fd)))
unfolding file_size sys_read Reads
file_size-content zero i n fd h pos_i fuel = absurd (omega arith)
file_size-content (suc k) i n [] h pos_i fuel = ap (λ m. some (some m)) (omega arith)
file_size-content (suc k) i n (fails ∷ fd) h pos_i fuel = absurd h
file_size-content (suc k) i n (chunk [] ∷ fd) h pos_i fuel =
    rw (le→leb 0 i (omega arith), sys_read, file_size) (ap (λ m. some (some m)) (omega arith))
file_size-content (suc k) zero n (chunk (c ∷ b) ∷ fd) h pos_i fuel = absurd (omega arith)
file_size-content (suc k) (suc i) n (chunk (c ∷ b) ∷ fd) h pos_i fuel =
    let (r, ret_is, long, healthy) = read_some i c b fd h in
    let left = (sys_read (suc i) (chunk (c ∷ b) ∷ fd)).left in
    let total : n + suc r + length (content left) ≡ n + length (content (chunk (c ∷ b) ∷ fd)) =
      omega (arith, long) in
    file_size-step k (suc i) n r (chunk (c ∷ b) ∷ fd) ret_is
    ∙ file_size-content k (suc i * 2) (n + suc r) left healthy (omega arith) (omega (arith, long))
    ∙ ap (λ m. some (some m)) total

has_item : (a b : Bytes) (c : ℕ) → (m : ℕ) × (length (a ++ c ∷ b) ≡ suc m)
has_item a b c = (length a + length b, omega (arith, length-append a (c ∷ b)))

module _ (d : Djb) (v : Mounted) where
  read_and_analyze-entries :
      (m : ℕ) (ls : List Line) (fd : Fd) (fs : List UstatFs)
      → All IsLine ls
      → length (file_text ls) ≡ suc m
      → read_and_analyze d v (suc m) (chunk (file_text ls) ∷ fd) fs ≡ some (fs ++ entries v ls)
  unfolding read_and_analyze
  read_and_analyze-entries m ls fd fs h size =
      let t = file_text ls in
      let buf = char_array (2 * suc m) in
      let room : length buf ≡ 2 * suc m = length-replicate {A = ℕ} (2 * suc m) 0 in
      let (ret_is, bytes_is) = short_read (2 * suc m) t fd (omega arith) in
      rw
        (
          ret_is,
          bytes_is,
          store_all_in buf t (omega (arith, room)),
          analyze_buf-entries d v (drop (length t) buf) ls fs h,
          read_and_analyze,
        )
        refl

  -- A file of the form of mountinfo with at least one line, which phase 1 reads in any pieces, and
  -- which the one read of phase 2 gives in full: the list gets one entry per line, in order, but for
  -- the mount points below /proc, /sys and /dev and for file systems without blocks.
  pub fs_init_platform-entries :
      (ls : List Line) (l : Line) (first fd : Fd) (fs : List UstatFs)
      → All IsLine (l ∷ ls)
      → IsHealthy first
      → content first ≡ file_text (l ∷ ls)
      → fs_init_platform d v (some (first, chunk (file_text (l ∷ ls)) ∷ fd)) fs
        ≡ some (fs ++ entries v (l ∷ ls))
  unfolding fs_init_platform
  fs_init_platform-entries ls l first fd fs h healthy same =
      let t = file_text (l ∷ ls) in
      let some_bytes : (m : ℕ) × (length t ≡ suc m) = has_item l.mount_id _ 32 in
      let (m, size) = some_bytes in
      let zero_add : 0 + length (content first) ≡ length (content first) = omega arith in
      let found : file_size (suc (length (content first))) 1024 0 first ≡ some (some (suc m)) =
        file_size-content (suc (length (content first))) 1024 0 first healthy (omega arith)
          (omega arith)
        ∙ ap (λ k. some (some k)) (zero_add ∙ ap length same ∙ size) in
      rw (found, fs_init_platform) (read_and_analyze-entries m (l ∷ ls) fd fs h size)
