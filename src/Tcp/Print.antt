-- ===== src/Tcp/Print.antt =====
-- The print handlers of ustat_tcp.c.
use ustat.Base.{
  ℕ, zero, suc, ◌+◌, List, [], ◌∷◌, some, ◌≡◌, refl, arith, codes, get_or, length-replicate,
}
use ustat.Fmt.Digits.{decimal}
use ustat.Fmt.Writes.{fmt_uint64_lem, write-decimal}
use ustat.Fmt.{fmt_len, fmt_uint64}
use ustat.Io.{Emits, Write, ◌>>=◌, ◌>>◌, from, write, puts, return, wrote, char_array}
use ustat.Tcp.Stats.{Platform, Stats, n_tcp_states}

-- `_print(fd, val)`: asks for the length, and formats into an array of just that length.
pub print : ℕ → ℕ → Emits ℕ
print fd val = do
  (buf, n) ← from (fmt_uint64 (char_array (fmt_len val)) val)
  write fd buf (fmt_len val)
  return 1

module _ (m : Platform) (s : Stats) (fd : ℕ) where
  unfoldable pub ntcp_established_print : Emits ℕ
  ntcp_established_print = print fd (get_or s.all m.established 0)

  unfoldable pub ntcp_all_print : Emits ℕ
  ntcp_all_print = print fd (get_or s.all m.index_total 0)

  unfoldable pub ntcp_closing_print : Emits ℕ
  ntcp_closing_print = print fd (get_or s.all m.closing 0)

  unfoldable pub ntcp_listen_print : Emits ℕ
  ntcp_listen_print = print fd (get_or s.all m.listen 0)

  unfoldable pub ntcp6_established_print : Emits ℕ
  ntcp6_established_print = print fd (get_or s.v6 m.established 0)

  unfoldable pub ntcp6_all_print : Emits ℕ
  ntcp6_all_print = print fd (get_or s.v6 m.index_total 0)

  unfoldable pub ntcp6_closing_print : Emits ℕ
  ntcp6_closing_print = print fd (get_or s.v6 m.closing 0)

  unfoldable pub ntcp6_listen_print : Emits ℕ
  ntcp6_listen_print = print fd (get_or s.v6 m.listen 0)

  unfoldable pub ntcp4_established_print : Emits ℕ
  ntcp4_established_print = print fd (get_or s.v4 m.established 0)

  unfoldable pub ntcp4_all_print : Emits ℕ
  ntcp4_all_print = print fd (get_or s.v4 m.index_total 0)

  unfoldable pub ntcp4_closing_print : Emits ℕ
  ntcp4_closing_print = print fd (get_or s.v4 m.closing 0)

  unfoldable pub ntcp4_listen_print : Emits ℕ
  ntcp4_listen_print = print fd (get_or s.v4 m.listen 0)

  -- The loop of `ntcp_print`, by the rounds that are left.
  dump_loop : ℕ → ℕ → Emits ℕ
  dump_loop zero i = return 1
  dump_loop (suc n) i = do
    print fd (get_or s.all i 0)
    puts fd (codes ".")
    print fd (get_or s.v4 i 0)
    puts fd (codes ".")
    print fd (get_or s.v6 i 0)
    puts fd (codes " ")
    dump_loop n (i + 1)

  pub ntcp_print : Emits ℕ
  ntcp_print = do print fd m.index_total; puts fd (codes ":"); dump_loop n_tcp_states 0

-- `_print` writes the decimal print of the value, and its array is just large enough.
pub print-decimal : (fd val : ℕ) → print fd val ≡ some (1, wrote fd (decimal val) ∷ [])
unfolding print
print-decimal fd val =
    let n = fmt_len val in
    let room = fmt_uint64_lem (char_array n) val (omega (arith, length-replicate {A = ℕ} n 0)) in
    rw room (rw write-decimal)

-- What the dump writes for `n` states from `i` on: the counter of both families, that of IPv4, and
-- that of IPv6.
abbrev pub cells : Stats → ℕ → ℕ → ℕ → List Write
cells s fd zero i = []
cells s fd (suc n) i =
    wrote fd (decimal (get_or s.all i 0))
    ∷ wrote fd (codes ".")
    ∷ wrote fd (decimal (get_or s.v4 i 0))
    ∷ wrote fd (codes ".")
    ∷ wrote fd (decimal (get_or s.v6 i 0))
    ∷ wrote fd (codes " ")
    ∷ cells s fd n (i + 1)

dump_loop-cells :
    (m : Platform) (s : Stats) (fd n i : ℕ) → dump_loop m s fd n i ≡ some (1, cells s fd n i)
unfolding dump_loop
dump_loop-cells m s fd zero i = refl
dump_loop-cells m s fd (suc n) i = rw (
  print-decimal fd (get_or s.all i 0),
  print-decimal fd (get_or s.v4 i 0),
  print-decimal fd (get_or s.v6 i 0),
  dump_loop-cells m s fd n (i + 1),
)

-- The dump writes the cells of the twelve states. In front of them it writes the index of the
-- total, whatever was counted.
pub ntcp_print-cells :
    (m : Platform) (s : Stats) (fd : ℕ)
    → ntcp_print m s fd
      ≡ some (1, wrote fd (decimal m.index_total) ∷ wrote fd (codes ":") ∷ cells s fd 12 0)
unfolding ntcp_print
ntcp_print-cells m s fd = rw (print-decimal fd m.index_total, dump_loop-cells m s fd 12 0)
