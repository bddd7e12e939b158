-- ===== src/Tcp.antt =====
-- ustat_tcp.c and ustat_tcp_linux.c: the sockets that /proc/net/tcp and /proc/net/tcp6 list.
pub mod Reader
pub mod Scan
pub mod Count
pub mod Stats
pub mod Print
pub mod Bsd
pub mod Netlink
