-- ===== src/Tcp/Scan/Stream.antt =====
-- The scan of /proc/net/tcp depends on the bytes of the file alone, and always ends.
use ustat.Base.{
  ◌≢◌, ℕ, zero, suc, ◌+◌, ◌<◌, Bytes, false, not, ◌&&◌, [], ◌∷◌, ◌≡◌, refl, sym, ◌∙◌, arith, ltb,
  ◌==◌, if◌then◌else◌, length, inl, inr, ◌⊎◌,
}
use ustat.Io.{Fd, content}
use ustat.Tcp.Reader.Stream.{
  ahead, IsReady, initial-IsReady, Yields, read_byte-Yields, read_byte_end,
}
use ustat.Tcp.Reader.{Reader, initial, read_byte}
use ustat.Tcp.Scan.{
  Counters, Outcome, returns, faults, Label, seek_to_eol, skip_leading_ws, field_loop, process,
  out_of_fuel, process_proc_tcp, enter_fields, advance, isspace, Counted, refused, outside, counted,
  count_state,
}

enter-IsReady : {r : Reader} → IsReady r → IsReady (enter_fields r)
enter-IsReady v = record {
  filled = v.filled;
  limit_is = v.limit_is;
  fits = v.fits;
  no_error = v.no_error;
  size = v.size;
}

advance-IsReady : {r : Reader} → IsReady r → IsReady (advance r)
advance-IsReady v = record {
  filled = v.filled;
  limit_is = v.limit_is;
  fits = v.fits;
  no_error = v.no_error;
  size = v.size;
}

Counted-cases : (x : Counted) → (x ≡ refused) ⊎ (x ≡ outside) ⊎ ((n : Counters) × (x ≡ counted n))
Counted-cases refused = inl refl
Counted-cases outside = inr (inl refl)
Counted-cases (counted n) = inr (inr (n, refl))

module _ (state_field lstore : ℕ) where
  -- The scan over a text, with no buffer and no fuel: `k` is the field, and `p` the byte before.
  unfoldable pub scan : Label → ℕ → ℕ → Bytes → Counters → ℕ → Outcome
  scan l k p [] store rc = returns rc store
  scan seek_to_eol k p (c ∷ s) store rc =
      scan (if c == b'\n' then skip_leading_ws else seek_to_eol) k p s store rc
  scan skip_leading_ws k p (c ∷ s) store rc =
      let space = scan skip_leading_ws k p s store rc in
      let word = scan field_loop 0 c s store rc in if isspace c then space else word
  scan field_loop k p (c ∷ s) store rc =
      let on = scan field_loop (if isspace p && not (isspace c) then k + 1 else k) c s store rc in
      if ltb k state_field
      then on
      else if not (k == state_field)
      then returns rc store
      else elim (count_state lstore p c store) [
        | refused ↦ returns rc store
        | outside ↦ faults
        | counted store' ↦ scan seek_to_eol k p s store' 1
      ]

  scan-nil :
      (l : Label) (k p : ℕ) (store : Counters) (rc : ℕ) → scan l k p [] store rc ≡ returns rc store
  unfolding scan
  scan-nil seek_to_eol k p store rc = refl
  scan-nil _ k p store rc = refl

  process-nil :
      (f : ℕ) (l : Label) (r : Reader) (store : Counters) (rc : ℕ)
      → (read_byte r).1 ≡ false
      → process state_field lstore (suc f) l r store rc ≡ returns rc store
  unfolding process
  process-nil f seek_to_eol r store rc e = rw e
  process-nil f skip_leading_ws r store rc e = rw e
  process-nil f field_loop r store rc e = ground arith

  -- What the induction hands to a round: the claim for the fuel that is left.
  abbrev Agrees : ℕ → Type 0
  Agrees f =
      (l : Label) (r : Reader) (store : Counters) (rc : ℕ) (s : Bytes)
      → IsReady r
      → ahead r ≡ s
      → length s < f
      → process state_field lstore f l r store rc ≡ scan l r.field r.prev s store rc

  module _ (f : ℕ) (ih : Agrees f) (r : Reader) (c : ℕ) (s : Bytes) (y : Yields r c s)
      (h : length s < f) where
    seek_round :
        (store : Counters) (rc : ℕ)
        → process state_field lstore (suc f) seek_to_eol r store rc
          ≡ scan seek_to_eol r.field r.prev (c ∷ s) store rc
    unfolding process scan
    seek_round store rc =
        let (more, g) = y in
        let ok = g.ready.no_error in
        let l = if c == b'\n' then skip_leading_ws else seek_to_eol in
        let on = ih l (read_byte r).0 store rc s g.ready g.ahead_is h in ground (arith, on)

    skip_round :
        (store : Counters) (rc : ℕ)
        → process state_field lstore (suc f) skip_leading_ws r store rc
          ≡ scan skip_leading_ws r.field r.prev (c ∷ s) store rc
    unfolding process scan
    skip_round store rc =
        let (more, g) = y in
        let r' = (read_byte r).0 in
        let ok = g.ready.no_error in
        let space = ih skip_leading_ws r' store rc s g.ready g.ahead_is h in
        let word =
          ih field_loop (enter_fields r') store rc s (enter-IsReady g.ready) g.ahead_is h in
        ground (arith, space, word)

    field_round :
        (store : Counters) (rc : ℕ)
        → process state_field lstore (suc f) field_loop r store rc
          ≡ scan field_loop r.field r.prev (c ∷ s) store rc
    unfolding process scan
    field_round store rc =
        let (more, g) = y in
        let r' = (read_byte r).0 in
        let ok = g.ready.no_error in
        let on = ih field_loop (advance r') store rc s (advance-IsReady g.ready) g.ahead_is h in
        elim (Counted-cases (count_state lstore r.prev c store)) [
          | inl e ↦ ground (arith, on)
          | inr (inl e) ↦ ground (arith, on)
          | inr (inr (n, e)) ↦ ground (arith, on, ih seek_to_eol r' n 1 s g.ready g.ahead_is h)
        ]

  process-scan : (f : ℕ) → Agrees f
  process-scan zero l r store rc s v e h = absurd (omega arith)
  process-scan (suc f) l r store rc [] v e h =
      process-nil f l r store rc (read_byte_end r v e) ∙ sym (scan-nil l r.field r.prev store rc)
  process-scan (suc f) seek_to_eol r store rc (c ∷ s) v e h =
      seek_round f (process-scan f) r c s (read_byte-Yields r c s v e) (omega arith) store rc
  process-scan (suc f) skip_leading_ws r store rc (c ∷ s) v e h =
      skip_round f (process-scan f) r c s (read_byte-Yields r c s v e) (omega arith) store rc
  process-scan (suc f) field_loop r store rc (c ∷ s) v e h =
      field_round f (process-scan f) r c s (read_byte-Yields r c s v e) (omega arith) store rc

-- Whatever the file holds and wherever its reads cut it, `_process_proc_tcp` comes to an end, and
-- does what the scan over the bytes of the file does.
pub process_proc_tcp-scan :
    (fd : Fd) (state_field : ℕ) (store : Counters) (lstore : ℕ)
    → process_proc_tcp fd state_field store lstore
      ≡ scan state_field lstore seek_to_eol 0 0 (content fd) store 0
unfolding process_proc_tcp
process_proc_tcp-scan fd k store l =
    process-scan k l (suc (length (content fd))) seek_to_eol (initial fd) store 0 (content fd)
      (initial-IsReady fd) refl (omega arith)

-- The scan over a text ends by itself.
scan_ends :
    (k l : ℕ) (s : Bytes) (m : Label) (f p : ℕ) (store : Counters) (rc : ℕ)
    → scan k l m f p s store rc ≢ out_of_fuel
unfolding scan
scan_ends k l [] seek_to_eol f p store rc e = cc
scan_ends k l [] skip_leading_ws f p store rc e = cc
scan_ends k l [] field_loop f p store rc e = cc
scan_ends k l (c ∷ s) seek_to_eol f p store rc e =
    scan_ends k l s (if c == b'\n' then skip_leading_ws else seek_to_eol) f p store rc e
scan_ends k l (c ∷ s) skip_leading_ws f p store rc e =
    ground
      (arith, scan_ends k l s skip_leading_ws f p store rc, scan_ends k l s field_loop 0 c store rc)
scan_ends k l (c ∷ s) field_loop f p store rc e =
    let on =
      scan_ends k l s field_loop (if isspace p && not (isspace c) then f + 1 else f) c store rc in
    elim (Counted-cases (count_state l p c store)) [
      | inl q ↦ ground (arith, on)
      | inr (inl q) ↦ ground (arith, on)
      | inr (inr (n, q)) ↦ ground (arith, on, scan_ends k l s seek_to_eol f p n 1)
    ]

-- Two files with the same bytes give the same counters and the same result, wherever their reads
-- cut them and whatever stands behind the end or the failure; and the scan comes to an end.
pub process_proc_tcp-content :
    (a b : Fd) (state_field : ℕ) (store : Counters) (lstore : ℕ)
    → content a ≡ content b
    → (process_proc_tcp a state_field store lstore ≡ process_proc_tcp b state_field store lstore)
      × (process_proc_tcp a state_field store lstore ≢ out_of_fuel)
process_proc_tcp-content a b k store l e =
    let left = process_proc_tcp-scan a k store l in
    let right = process_proc_tcp-scan b k store l in
    (rw (left, right, e), rw left (scan_ends k l (content a) seek_to_eol 0 0 store 0))
