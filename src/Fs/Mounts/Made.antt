-- ===== src/Fs/Mounts/Made.antt =====
-- The entries that the loops over mountinfo make, and the one that an argument names.
use ustat.Base.{
  ◌<◌, ◌≡◌, refl, arith, Bytes, List, [], ◌∷◌, ◌==◌, ◌||◌, codes, length, u64_mod, All, Lacks, take,
  take-append_length, Bool-cases, Option-cases, inl, inr, All-append,
}
use ustat.Djb.{cstr, starts_with, same_bytes}
use ustat.Fs.Mounts.Lines.{Line, IsLine, mount_point, entries_of, entries}
use ustat.Fs.Mounts.{Mounted, get_total_free}
use ustat.Fs.Select.{IsEntry, path, find_entry, named_entry}
use ustat.Fs.{UstatFs}

-- An entry as the start makes it.
abbrev pub IsMade : UstatFs → Type 0
IsMade f = IsEntry f × (f.n_free < u64_mod) × (f.n_total < u64_mod)

get_total_free-lt :
    (v : Mounted) (p : Bytes)
    → let (n_total, n_free) = get_total_free (v.statvfs p) in
      (n_total < u64_mod) × (n_free < u64_mod)
unfolding get_total_free
get_total_free-lt v p = elim (Option-cases (v.statvfs p)) [
  | inl e ↦ rw (e, get_total_free) (omega arith, omega arith)
  | inr (buf, e) ↦ rw (e, get_total_free) (omega arith, omega arith)
]

entries_of-IsMade : (v : Mounted) (p : Bytes) → Lacks 0 p → All IsMade (entries_of v p)
entries_of-IsMade v p clean =
    let (total_lt, free_lt) = get_total_free-lt v (cstr p) in
    elim (Bool-cases (
      starts_with p (codes "/proc")
      || (starts_with p (codes "/sys") || starts_with p (codes "/dev")))) [
        | inl e ↦ rw e tt
        | inr e ↦ elim (Bool-cases ((get_total_free (v.statvfs (cstr p))).0 == 0)) [
          | inl e' ↦ rw (e, e') tt
          | inr e' ↦
              let whole : take (length p) (cstr p) ≡ p = take-append_length p (0 ∷ []) in
              rw (e, e')
                (
                  (
                    record { id = rw whole refl; id_l = rw whole refl; clean = rw whole clean },
                    free_lt,
                    total_lt,
                  ),
                  tt,
                )
        ]
      ]

pub entries-IsMade : (v : Mounted) (ls : List Line) → All IsLine ls → All IsMade (entries v ls)
entries-IsMade v [] h = tt
entries-IsMade v (l ∷ ls) (hl, h) =
    All-append IsMade (entries_of v (mount_point l)) (entries v ls)
      (entries_of-IsMade v (mount_point l) hl.clean) (entries-IsMade v ls h)

pub made-entries : (fs : List UstatFs) → All IsMade fs → All IsEntry fs
made-entries [] h = tt
made-entries (f ∷ fs) (hf, h) = (hf.0, made-entries fs h)

find_entry-IsMade :
    (p : Bytes) (f : UstatFs) (fs : List UstatFs)
    → IsMade f
    → All IsMade fs
    → IsMade (find_entry p f fs)
find_entry-IsMade p f [] hf h = hf
find_entry-IsMade p f (g ∷ fs) hf (hg, h) = elim (Bool-cases (same_bytes p (path g))) [
  | inl e ↦ rw e hg
  | inr e ↦ rw e (find_entry-IsMade p f fs hf h)
]

pub named_entry-IsMade :
    (p : Bytes) (f : UstatFs) (fs : List UstatFs)
    → All IsMade (f ∷ fs)
    → IsMade (named_entry p f fs)
named_entry-IsMade [] f fs (hf, h) = hf
named_entry-IsMade (c ∷ p) f fs (hf, h) = find_entry-IsMade (c ∷ p) f (f ∷ fs) hf (hf, h)
