-- ===== src/Fs/Mounts/Lines.antt =====
-- Phase 3 on a file of the form of /proc/self/mountinfo: the list of file systems that it gives.
use ustat.Base.{
  ℕ, ◌+◌, false, ◌||◌, Bytes, List, [], ◌∷◌, ◌++◌, none, some, ◌==◌, if◌then◌else◌, codes, length,
  ◌≡◌, refl, sym, ◌∙◌, ap, All, Lacks, arith, length-append, append_assoc, append-nil,
  take-append_length, Bool-cases, inl, inr,
}
use ustat.Djb.{Djb, cstr, text, starts_with}
use ustat.Fs.{UstatFs}
use ustat.Fs.Mounts.{Mounted, get_total_free, add_mount_entry, Analysis, analyze, analyze_buf}
use ustat.Fs.Mounts.Table.{IsPlain, run, word, blank, blank_4, point, blank_5, newline, tail}

-- A line of the file: four words, the mount point, and the rest behind a blank.
pub record Line : Type 0 where
  pub mount_id : Bytes
  pub parent_id : Bytes
  pub device : Bytes
  pub root : Bytes
  pub first : ℕ
  pub others : Bytes
  pub options : Bytes

-- The mount point has at least one byte.
abbrev pub mount_point : Line → Bytes
mount_point l = l.first ∷ l.others

-- The words hold no blank and no end of a line, the mount point no zero byte.
pub record IsLine (l : Line) : Type 0 where
  pub mount_id : All IsPlain l.mount_id
  pub parent_id : All IsPlain l.parent_id
  pub device : All IsPlain l.device
  pub root : All IsPlain l.root
  pub first : IsPlain l.first
  pub others : All IsPlain l.others
  pub options : All (λ b. (b == 10) ≡ false) l.options
  pub clean : Lacks 0 (mount_point l)

-- A line in the file, with what stands behind it.
abbrev pub line_text : Line → Bytes → Bytes
line_text l rest =
    l.mount_id
    ++ 32
      ∷ (l.parent_id
          ++ 32
            ∷ (l.device ++ 32 ∷ (l.root ++ 32 ∷ (mount_point l ++ 32 ∷ (l.options ++ 10 ∷ rest)))))

abbrev pub file_text : List Line → Bytes
file_text [] = []
file_text (l ∷ ls) = line_text l (file_text ls)

-- The entry for a mount point: none if its text starts with /proc, /sys or /dev, and none for an
-- empty file system.
abbrev pub entries_of : Mounted → Bytes → List UstatFs
entries_of v p =
    if starts_with p (codes "/proc")
      || (starts_with p (codes "/sys") || starts_with p (codes "/dev"))
    then []
    else let (n_total, n_free) = get_total_free (v.statvfs (cstr p)) in
      if n_total == 0
      then []
      else record { id = cstr p; id_l = length p; n_free = n_free; n_total = n_total } ∷ []

abbrev pub entries : Mounted → List Line → List UstatFs
entries v [] = []
entries v (l ∷ ls) = entries_of v (mount_point l) ++ entries v ls

module _ (d : Djb) (v : Mounted) where
  copied : (p rest : Bytes) → d.byte_copy (length p + 1) (text p rest) ≡ cstr p
  copied p rest =
      let long : length (p ++ 0 ∷ []) ≡ length p + 1 = omega (arith, length-append p (0 ∷ [])) in
      let whole : (p ++ 0 ∷ []) ++ rest ≡ text p rest = append_assoc p (0 ∷ []) rest in
      d.byte_copy-take (length p + 1) (text p rest) (omega (arith, length-append p (0 ∷ rest)))
      ∙ rw (sym long, sym whole) (take-append_length (p ++ 0 ∷ []) rest)

  add_mount_entry-entries_of :
      (fs : List UstatFs) (p rest : Bytes)
      → Lacks 0 p
      → add_mount_entry d v fs (text p rest) (length p) ≡ fs ++ entries_of v p
  unfolding add_mount_entry
  add_mount_entry-entries_of fs p rest h =
      let entry = v.statvfs-text p rest h in
      let proc = d.str_start-text p (codes "/proc") rest [] h (ground arith) in
      let sys = d.str_start-text p (codes "/sys") rest [] h (ground arith) in
      let dev = d.str_start-text p (codes "/dev") rest [] h (ground arith) in
      rw (proc, sys, dev, entry, copied p rest)
        (elim (Bool-cases (starts_with p (codes "/proc"))) [
          | inl e ↦ rw (e, append-nil fs) refl
          | inr e ↦ elim (Bool-cases (starts_with p (codes "/sys"))) [
            | inl e' ↦ rw (e, e', append-nil fs) refl
            | inr e' ↦ elim (Bool-cases (starts_with p (codes "/dev"))) [
              | inl e'' ↦ rw (e, e', e'', append-nil fs) refl
              | inr e'' ↦ elim (Bool-cases ((get_total_free (v.statvfs (cstr p))).0 == 0)) [
                | inl z ↦ rw (e, e', e'', z, append-nil fs) refl
                | inr z ↦ rw (e, e', e'', z) refl
              ]
            ]
          ]
        ])

  module _ (spare : Bytes) where
    line_lem :
        (l : Line) (pre rest : Bytes) (fs : List UstatFs)
        → IsLine l
        → (pre' : Bytes) × (run d v spare pre (line_text l rest) none 0 fs
            ≡ run d v spare pre' rest none 0 (fs ++ entries_of v (mount_point l)))
    line_lem l pre rest fs h =
        let p = mount_point l in
        let p1 = (pre ++ l.mount_id) ++ 0 ∷ [] in
        let p2 = (p1 ++ l.parent_id) ++ 0 ∷ [] in
        let p3 = (p2 ++ l.device) ++ 0 ∷ [] in
        let p4 = (p3 ++ l.root) ++ 32 ∷ [] in
        let p5 = (p4 ++ p) ++ 0 ∷ [] in
        let r1 =
          l.parent_id
          ++ 32 ∷ (l.device ++ 32 ∷ (l.root ++ 32 ∷ (p ++ 32 ∷ (l.options ++ 10 ∷ rest)))) in
        let r2 = l.device ++ 32 ∷ (l.root ++ 32 ∷ (p ++ 32 ∷ (l.options ++ 10 ∷ rest))) in
        let r3 = l.root ++ 32 ∷ (p ++ 32 ∷ (l.options ++ 10 ∷ rest)) in
        let r5 = l.options ++ 10 ∷ rest in
        let fs' = add_mount_entry d v fs (text p (r5 ++ spare)) (length p) in
        let (pre', f', ends) =
          tail d v spare l.options p5 (10 ∷ rest) (some (length p4)) 5 fs' h.options
            (omega arith) in
        (
          pre' ++ 10 ∷ [],
          word d v spare l.mount_id pre (32 ∷ r1) none 0 fs h.mount_id refl
              ∙ blank d v spare (pre ++ l.mount_id) r1 32 none 0 fs refl refl refl
              ∙ word d v spare l.parent_id p1 (32 ∷ r2) none 1 fs h.parent_id refl
              ∙ blank d v spare (p1 ++ l.parent_id) r2 32 none 1 fs refl refl refl
              ∙ word d v spare l.device p2 (32 ∷ r3) none 2 fs h.device refl
              ∙ blank d v spare (p2 ++ l.device) r3 32 none 2 fs refl refl refl
              ∙ word d v spare l.root p3 (32 ∷ (p ++ 32 ∷ r5)) none 3 fs h.root refl
              ∙ blank_4 d v spare (p3 ++ l.root) (p ++ 32 ∷ r5) fs
              ∙ point d v spare l.first l.others p4 (32 ∷ r5) fs h.first h.others
              ∙ blank_5 d v spare p4 p r5 fs
              ∙ ends
              ∙ newline d v spare pre' rest (some (length p4)) f' fs'
              ∙ ap (run d v spare (pre' ++ 10 ∷ []) rest none 0)
                  (add_mount_entry-entries_of fs p (r5 ++ spare) h.clean),
        )

    lines_lem :
        (ls : List Line) (pre : Bytes) (fs : List UstatFs)
        → All IsLine ls
        → (a : Analysis) × (run d v spare pre (file_text ls) none 0 fs ≡ some a)
          × (a.fs ≡ fs ++ entries v ls)
    unfolding run analyze
    lines_lem [] pre fs h = (_, refl, sym (append-nil fs))
    lines_lem (l ∷ ls) pre fs (hl, h) =
        let (pre', here) = line_lem l pre (file_text ls) fs hl in
        let (a, there, gives) = lines_lem ls pre' (fs ++ entries_of v (mount_point l)) h in
        (a, here ∙ there, gives ∙ append_assoc fs (entries_of v (mount_point l)) (entries v ls))

    -- Of a buffer that begins with a file of the form of mountinfo, whatever stands behind it, the
    -- loop makes one entry per line, in the order of the lines: the mount point as a string, its
    -- length, and the sizes that statvfs gives for it. The mount points whose text starts with
    -- /proc, /sys or /dev have none (also /sysroot, say), and neither have those whose file system has
    -- no blocks. It meets no fault.
    pub analyze_buf-entries :
        (ls : List Line) (fs : List UstatFs)
        → All IsLine ls
        → analyze_buf d v (file_text ls ++ spare) (length (file_text ls)) fs
          ≡ some (fs ++ entries v ls)
    unfolding analyze_buf run
    analyze_buf-entries ls fs h =
        let (a, there, gives) = lines_lem ls [] fs h in rw (there, gives, analyze_buf) refl
