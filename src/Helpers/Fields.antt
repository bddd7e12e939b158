-- ===== src/Helpers/Fields.antt =====
-- What `first_n_fields` copies, however the file is read.
use ustat.Base.{
  ℕ, zero, suc, ◌-◌, ◌<◌, Bytes, [], ◌∷◌, ◌++◌, some, ◌==◌, if◌then◌else◌, ◌≡◌, refl, ◌∙◌, arith,
  pos, length, Bool-cases, inl, inr,
}
use ustat.Helpers.{fields_loop, first_n_fields}
use ustat.Io.{
  Fd, chunk, fails, content, sys_read, said, said-prepend, wrote, output-wrote, output-nil,
}

-- The bytes in front of the separator number `n`.
abbrev pub first_fields : ℕ → ℕ → Bytes → Bytes
first_fields n sep [] = []
first_fields n sep (c ∷ s) =
    let n' = if c == sep then n - 1 else n in
    let rest = first_fields n' sep s in if n' == 0 then [] else c ∷ rest

pub one_byte :
    (c : ℕ) (b : Bytes) (fd : Fd)
    → (left : Fd) × ((sys_read 1 (chunk (c ∷ b) ∷ fd)).ret ≡ pos 1)
      × ((sys_read 1 (chunk (c ∷ b) ∷ fd)).bytes ≡ c ∷ [])
      × ((sys_read 1 (chunk (c ∷ b) ∷ fd)).left ≡ left)
      × (content left ≡ b ++ content fd)
unfolding sys_read
one_byte c [] fd = (fd, refl, refl, refl, refl)
one_byte c (x ∷ b) fd = (chunk (x ∷ b) ∷ fd, ground arith, ground arith, ground arith, refl)

module _ (out_fd sep : ℕ) where
  loop_step :
      (k n c : ℕ) (fd left : Fd) (t : Bytes)
      → (sys_read 1 fd).ret ≡ pos 1
      → (sys_read 1 fd).bytes ≡ c ∷ []
      → (sys_read 1 fd).left ≡ left
      → ((m : ℕ) → said out_fd (fields_loop k out_fd left sep m) ≡ some (1, first_fields m sep t))
      → said out_fd (fields_loop (suc k) out_fd fd sep n) ≡ some (1, first_fields n sep (c ∷ t))
  unfolding fields_loop
  loop_step k n c fd left t ret_is bytes_is left_is ih =
      let n' = if c == sep then n - 1 else n in
      elim (Bool-cases (n' == 0)) [
        | inl e ↦ rw (ret_is, bytes_is, e, fields_loop, output-nil) refl
        | inr e ↦
            rw (ret_is, bytes_is, e, bytes_is, left_is, fields_loop)
              (said-prepend out_fd (wrote out_fd (c ∷ []) ∷ []) (fields_loop k out_fd left sep n')
                ∙ rw (ih n', output-wrote, output-nil) refl)
      ]

  fields_loop-first_fields :
      (k n : ℕ) (fd : Fd)
      → length (content fd) < k
      → said out_fd (fields_loop k out_fd fd sep n) ≡ some (1, first_fields n sep (content fd))
  unfolding fields_loop sys_read
  fields_loop-first_fields zero n fd h = absurd (omega arith)
  fields_loop-first_fields (suc k) n [] h = rw output-nil refl
  fields_loop-first_fields (suc k) n (fails ∷ fd) h = rw output-nil refl
  fields_loop-first_fields (suc k) n (chunk [] ∷ fd) h = rw output-nil refl
  fields_loop-first_fields (suc k) n (chunk (c ∷ b) ∷ fd) h =
      let (left, ret_is, bytes_is, left_is, same) = one_byte c b fd in
      loop_step k n c (chunk (c ∷ b) ∷ fd) left (b ++ content fd) ret_is bytes_is left_is
        (λ m. rw (fields_loop-first_fields k m left (rw same (omega arith)), same) refl)

  -- Byte by byte, whatever a read returns at once, the file is copied in front of the separator
  -- number `n`, or to its end where it has fewer; at the end of the file and at a failing read the
  -- function returns 1, after at most one read more than there are bytes.
  pub first_n_fields-first_fields :
      (n : ℕ) (fd : Fd)
      → said out_fd (first_n_fields out_fd fd sep n) ≡ some (1, first_fields n sep (content fd))
  unfolding first_n_fields
  first_n_fields-first_fields n fd =
      fields_loop-first_fields (suc (length (content fd))) n fd (omega arith)
