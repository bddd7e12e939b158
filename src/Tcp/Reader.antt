-- ===== src/Tcp/Reader.antt =====
-- ustat_tcp_linux.c: `struct buffered_byte_reader` and `_read_byte`.
pub mod Reads
pub mod Stream
use ustat.Base.{
  ℕ, suc, ◌+◌, ◌*◌, ◌-◌, ◌≤◌, ◌<◌, Bytes, Bool, true, false, ℤ, pos, negsuc, geb_ℤ, is_pos, is_set,
  [], ◌∷◌, ◌++◌, ◌≡◌, refl, arith, if◌then◌else◌, length, drop, take, get_or,
}
use ustat.Io.{Fd, Read, chunk, fails, Got, sys_read, content, char_array}

abbrev pub buf_size : ℕ
buf_size = 16 * 1024

-- `fd` is the file behind the descriptor that each call is given.
pub record Reader : Type 0 where
  pub prev : ℕ
  pub cur : ℕ
  pub field : ℕ
  pub position : ℕ
  pub limit : ℤ
  pub consumed : ℕ
  pub err : ℤ
  pub buf : Bytes
  pub fd : Fd

-- `struct buffered_byte_reader r = {.pos = 0, .end = 0}`; `position` is `pos`, and `limit` is `end`.
abbrev pub initial : Fd → Reader
initial fd = record {
  prev = 0;
  cur = 0;
  field = 0;
  position = 0;
  limit = pos 0;
  consumed = 0;
  err = pos 0;
  buf = char_array buf_size;
  fd = fd;
}

-- The file refills the buffer from its start.
pub fill : Reader → Reader
unfolding sys_read
fill r =
    let g = sys_read buf_size r.fd in
    record r {
      position = 0;
      limit = g.ret;
      buf = g.bytes ++ drop (length g.bytes) r.buf;
      fd = g.left;
    }

-- The byte read, or the end.
pub take_byte : Reader → Reader × Bool
take_byte r =
    if is_pos r.limit
    then (record r { consumed = r.consumed + 1; cur = get_or r.buf r.position 0 }, true)
    else (record r { err = r.limit }, false)

unfoldable pub read_byte : Reader → Reader × Bool
unfolding fill take_byte
read_byte r =
    let moved = record r { position = suc r.position } in
    take_byte (if geb_ℤ moved.position moved.limit then fill moved else moved)
