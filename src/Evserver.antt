-- ===== src/Evserver.antt =====
-- evserver/: the TCP echo server. The kernel interface and the counters are shared by the backends.
pub mod Kernel
pub mod Stats
pub mod Exec
pub mod Server
pub mod Echo
pub mod Options
pub mod Socket
pub mod Setup
pub mod Epoll
pub mod Program
pub mod Loadgen
pub mod Uring
pub mod Threads
