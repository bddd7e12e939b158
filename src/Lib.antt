-- ===== src/Lib.antt =====
-- ustat, a status line for tmux: models of its modules, and proofs about them.
--
-- The program (ustat.c) takes each argument to one entry of a table of modules, by the name at the
-- front of the argument. In a first loop it starts the module of each argument that is not ready,
-- and ends where a start fails; in a second loop it calls the print functions, in the order of the
-- arguments. A module keeps its state in static variables, which its start fills from the system
-- and its print function writes to the standard output.
--
-- Shared parts.
--   Base           lists, tests and numbers, with the names of the libraries that are used.
--   Io             memory as lists of bytes, where a store or a read outside is `none`; write(2) as
--                  a list of the writes that were made; a file behind a descriptor as the list of
--                  what its next reads return, in pieces of any size, with failures.
--   Djb            the routines of djb/ that are called, as an interface of operations and laws.
--   Decimal        what a decimal number is: digits, no leading zero, and a value.
-- Helpers.
--   Fmt            ustat_helper/fmt_uint64.c and write_uint64.c: both loops, with the stores.
--   Hex            ustat_helper/scan_hex.c, for an `unsigned long` of 64 bits. Its callers pass the
--                  address of a `uint32_t`, as ustat.h declares it: they see the lower half, on a
--                  machine that stores it first.
--   Double         ustat_helper/write_double.c. The type double is an interface, where a
--                  conversion that C does not define is `none`.
--   Human          ustat_helper/write_uint64_human.c.
--   Helpers        ustat_helper/copy_first_n_fields.c and read_double_from_fd.c, and the modules
--                  ustat_pass.c, ustat_spec.c, ustat_cpu.c, ustat_procs.c and ustat_date.c.
-- Modules.
--   Tcp            ustat_tcp.c and ustat_tcp_linux.c: the buffered reader (Tcp.Reader), the scan of
--                  /proc/net/tcp by the labels of its gotos (Tcp.Scan), the sums and the starts
--                  (Tcp.Stats), and the thirteen print functions (Tcp.Print). Tcp.Netlink is the part
--                  behind USTAT_NETLINK, and Tcp.Bsd is ustat_tcp_bsd.c; Tcp.Count has what they share.
--   Fs             ustat_fs.c (the start, the selection and the prints) and, in Fs.Mounts,
--                  ustat_fs_linux.c with its three phases; the loop of phase 3 is an index into the
--                  buffer, which it changes. Fs.Other is ustat_fs_other.c.
--   Color          ustat_color.c.
--   Uptime         ustat_uptime.c, ustat_uptime_linux.c and ustat_uptime_bsd.c.
--   Battery        ustat_battery.c, ustat_battery_linux.c, ustat_battery_osx.c and
--                  ustat_helper/os_getenv_def.c.
--   Users          ustat_user.c, with qsort(3) as a parameter. Users.Names, Users.Sorted and
--                  Users.Count compare its count with the number of different names
--                  (Users.Distinct).
--   Memory         ustat_mem.c, ustat_mem_linux.c, ustat_mem_bsd.c and ustat_mem_osx.c.
--   Load           ustat_load.c.
--   Program        ustat.c and ustat_helper/os_exit.c: the table in full (Program.Table), the choice
--                  of an entry, `main` and `usage`. The functions that the table points to are
--                  an interface (`Handlers`), which
--                  Program.World fills with the functions of the modules above, for Linux, over one
--                  state of all static variables. What the system answers is fixed for a run.
--                  Program.Single is a run with one argument, and Program.Sockets,
--                  Program.FileSystems, Program.RoundTrip, Program.Numbers, Program.LoggedIn
--                  and Program.MemorySize follow such runs from the files to the standard output. Program.Separate and
--                  Program.Failing take a run with several arguments apart: Program.Views and
--                  Program.Cores split the state into the parts of the modules, Program.Twice and
--                  Program.Again start a part twice, Program.Owners says which part a print reads, and
--                  Program.Begun and Program.Steps follow the first loop.
-- Tests            concrete runs, and instances of the interfaces.
--
-- Conventions. A function of the C code keeps its name without leading underscores; where its body
-- is split, the pieces are named for what they do. A byte is a number below 256, and a `char` from
-- 128 on is negative where the code looks at its sign. Unsigned arithmetic wraps around by `%`. A
-- signed 64-bit number is held by its bits. Behaviour that C does not define, such as an access
-- outside of an array or through a null pointer, is `none`. The result of write(2) is not looked at
-- by the code; here each write is complete.
--
-- Fuel. The scan of /proc/net/tcp has one round per byte of the file and one more, and
-- `first_n_fields` one read per byte and one more. The loop of `write_uint64_human` has eight
-- rounds, and its guard allows seven. Phase 1 of the mounts has one read per byte and one more. `read_double_from_fd` has its fuel as an argument. The loop
-- over the structures of BSD has one round per byte of the buffer and one more, and that over the
-- messages of a datagram one per byte that was received and one more. The loop over the datagrams
-- goes through the list of what recv(2) returns, and waits at its end.
--
-- The layout of the stack. `scan_hex` stores eight bytes at variables of four. For the three of
-- `rgb_print` the layout is a parameter (`Color.Layout`); behind `val` of `_process_proc_tcp`, and behind
-- any of the three that has none of them there, nothing is taken to stand that is read afterwards.
--
-- Systems. What the kernel or a library of a system gives is a parameter: the structures of
-- sysctl(3) by their fields at a place of the buffer (`Layout`), the messages of netlink by the macros
-- of its header (`Netlink`), and the answers of the other calls as options. `_sum_counters` is called
-- with its two arguments in the part of netlink, where the code writes a third.
--
-- Not modelled: strftime(3) (a parameter of `date_print`), malloc(3) and realloc(3) that fail, the
-- closing of descriptors, and the build files.
pub mod Base
pub mod Io
pub mod Decimal
pub mod Djb
pub mod Fmt
pub mod Hex
pub mod Double
pub mod Human
pub mod Tcp
pub mod Fs
pub mod Color
pub mod Uptime
pub mod Battery
pub mod Users
pub mod Memory
pub mod Load
pub mod Helpers
pub mod Program
pub mod Tests
