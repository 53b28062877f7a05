-- ===== src/Evserver/Setup/Start.antt =====
-- start() of evserver/src/server_epoll.cpp, server_threads.cpp and server_uring.cpp, on a new object.
-- io_uring_queue_init is a request whose answer is -rc; what start() then queues in the ring is start of
-- Evserver.Uring.
pub mod Started
pub mod EpollStarted
pub mod UringStarted
use linux_internals.Evserver.Server.{ServerClass, thread_server, epoll_server, uring_server}
use linux_internals.Prelude.{ℕ, Bool, true, false, none, some, ℤ, pos, negsuc, codes}
use linux_internals.Evserver.Setup.{
  new_epoll, init_ring, epoll_ctl_add, fd, failed, Net, Setup, set_error, invalid, errno_message,
  open_new, ask, listen_tcp, set_nonblocking, signal_fd,
}

-- The members that are Sockets; the threads server has no epoll_.
pub record Members : Type 0 where
  pub listener : ℤ
  pub signal : ℤ
  pub epoll : ℤ

abbrev pub Starting : Type 0
Starting = Setup → Bool × Members × Setup

abbrev pub new_members : Members
new_members = record { listener = invalid; signal = invalid; epoll = invalid }

abbrev pub epollin : ℕ
epollin = 1

-- kQueueDepth of server_uring.cpp.
abbrev pub queue_depth : ℕ
queue_depth = 256

module _ (net : Net) where
  pub add_to_epoll : ℕ → ℕ → ℕ → Setup → Bool × Setup
  add_to_epoll ep n events s =
      let (a, s') = ask net (epoll_ctl_add ep n events) s in
      elim a [
        | none ↦ (true, s')
        | some e ↦ (false, set_error (errno_message net (codes "epoll_ctl(ADD)") e) s')
      ]

  -- if (!listener_.valid()) return false;
  pub with_listener : ℕ → (ℕ → Starting) → Starting
  with_listener port next s =
      let (l, s') = listen_tcp net port 1024 s in
      elim l [
        | pos n ↦ next n s'
        | negsuc m ↦ (false, record new_members { listener = negsuc m }, s')
      ]

  -- The part of start() past the valid signal_: epoll_create1 and the two registrations.
  pub with_epoll : ℕ → ℕ → Starting
  with_epoll listener signal s =
      let members : Members = record {
        listener = pos listener;
        signal = pos signal;
        epoll = invalid;
      } in
      let (a, s') = open_new net new_epoll s in
      elim a [
        | failed e ↦ (false, members, set_error (errno_message net (codes "epoll_create1") e) s')
        | fd ep ↦
            let (first, s2) = add_to_epoll ep listener epollin s' in
            let (second, s3) = add_to_epoll ep signal epollin s2 in
            let members' = record members { epoll = pos ep } in
            elim first [ false ↦ (false, members', s2) | true ↦ (second, members', s3) ]
      ]

  -- signal_ = signal_fd(error), and what follows it if it is valid.
  pub with_signal : ℕ → (ℕ → Starting) → Starting
  with_signal listener next s =
      let (g, s') = signal_fd net s in
      elim g [
        | pos n ↦ next n s'
        | negsuc m ↦ (false, record new_members { listener = pos listener; signal = negsuc m }, s')
      ]

  pub epoll_start : ℕ → Starting
  epoll_start port = with_listener port (λ n s.
      let (done, s') = set_nonblocking net n s in
      elim done [
        | false ↦ (
          false,
          record new_members { listener = pos n },
          set_error (codes "set_nonblocking(listener) failed") s',
        )
        | true ↦ with_signal n (with_epoll n) s'
      ])

  pub thread_start : ℕ → Starting
  thread_start port = with_listener port (λ n.
      with_signal n (λ g s. (true, record new_members { listener = pos n; signal = pos g }, s)))

  -- io_uring_queue_init and what follows it.
  pub with_ring : ℕ → ℕ → Starting
  with_ring listener signal s =
      let members : Members = record {
        listener = pos listener;
        signal = pos signal;
        epoll = invalid;
      } in
      let (a, s') = ask net (init_ring queue_depth) s in
      elim a [
        | none ↦ (true, members, s')
        | some e ↦
            (false, members, set_error (errno_message net (codes "io_uring_queue_init") e) s')
      ]

  pub uring_start : ℕ → Starting
  uring_start port = with_listener port (λ n. with_signal n (with_ring n))

-- start() of the server that make_server makes.
pub server_start : ServerClass → Net → ℕ → Starting
server_start thread_server net port = thread_start net port
server_start epoll_server net port = epoll_start net port
server_start uring_server net port = uring_start net port
