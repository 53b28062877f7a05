-- ===== src/Evserver/Epoll/Tests.antt =====
-- Runs of the epoll server, and its theorems at inputs that meet their hypotheses.

use linux_internals.Evserver.Epoll.Chunk.{IsSettled}
use linux_internals.Evserver.Epoll.Write.{Sent, write_all-Sent}
use linux_internals.Evserver.Epoll.Edge.{Drained, handle_connection-Drained}
use linux_internals.Prelude.{
  ℕ, zero, suc, ◌≤◌, ◌≡◌, refl, Bool, true, false, some, List, [], ◌∷◌, arith, ◌==◌, if◌then◌else◌,
  length, Text, codes,
}
use linux_internals.Evserver.Kernel.{
  eagain, other, ReadAnswer, got, read_failed, WriteAnswer, wrote, accepted_fd, accept_failed,
  EpollEvent, ready, read_call, accept_call, wait_call, signal_call, Trace, Kernel, received, sent,
  is_closed, Posix,
}
use linux_internals.Evserver.Stats.{zero_stats}
use linux_internals.Evserver.Server.{Backend, epoll_level, epoll_edge, default_config}
use linux_internals.Evserver.Epoll.{
  EpollServer, is_edge, edge_triggered, registered, after_write, write_once, write_loop, write_all,
  read_once, echo, read_loop, handle_connection, accept_one, register, accept_connections,
  drain_signal, dispatch, dispatch_all, wait_once, run_loop, run,
}
use linux_internals.Evserver.Epoll.Invariant.{EchoInv}
use linux_internals.Evserver.Epoll.Serve.{RunAfter, run-EchoAfter}
use linux_internals.Evserver.Epoll.Total.{Drains, write_all_returns}

-- A kernel for one client on descriptor 7, which sends "hi" and reads one byte at a time. The
-- listener is 3 and the signalfd 4; the signal comes after the client was served.
waits : Trace → ℕ
waits [] = 0
waits (wait_call a ∷ t) = suc (waits t)
waits (c ∷ t) = waits t

accepts : Trace → ℕ
accepts [] = 0
accepts (accept_call a ∷ t) = suc (accepts t)
accepts (c ∷ t) = accepts t

reads : Trace → ℕ
reads [] = 0
reads (read_call fd a ∷ t) = suc (reads t)
reads (c ∷ t) = reads t

signals : Trace → ℕ
signals [] = 0
signals (signal_call a ∷ t) = suc (signals t)
signals (c ∷ t) = signals t

abbrev event : ℕ → List EpollEvent
event fd = record { fd = fd; hup = false; err = false } ∷ []

client_write : Text → WriteAnswer
client_write [] = wrote 0
client_write (c ∷ s) = wrote 1

client_read : Bool → ℕ → ReadAnswer
client_read true n = read_failed (other 9)
client_read false zero = got (codes "hi")
client_read false (suc n) = read_failed eagain

client : Kernel
client = record {
  read = λ t fd n. client_read (is_closed fd t) (reads t);
  write = λ t fd bytes. client_write bytes;
  accept = λ t. if accepts t == 0 then accepted_fd 7 else accept_failed eagain;
  epoll_add = λ t fd edge. true;
  epoll_wait = λ t n.
      if waits t == 0
      then ready (event 3)
      else if waits t == 1
      then ready (event 7)
      else ready (event 4);
  read_signal = λ t. signals t == 0;
}

client-Posix : Posix client
unfolding client client_write client_read
client-Posix = record { write_bound = bound; read_closed = λ t fd n h. (9, rw h) }
  where
    bound :
        (t : Trace) (fd : ℕ) (bytes : Text) (n : ℕ)
        → client_write bytes ≡ wrote n
        → n ≤ length bytes
    bound t fd [] n h = ground arith
    bound t fd (c ∷ s) n h = ground arith

abbrev started : Backend → EpollServer
started b = record {
  cfg = record default_config { backend = b };
  listener = 3;
  signal = 4;
  stats = zero_stats;
  running = true;
  trace = [];
}

started-EchoInv : (b : Backend) → EchoInv (started b)
unfolding received sent is_closed
started-EchoInv b d = record { rest = []; prefix = refl; settled = λ h c. refl }

served_level : sent 7 (run client 9 (started epoll_level)).1.trace ≡ codes "hi"
unfolding run run_loop client client_write client_read wait_once waits accepts reads signals
    dispatch dispatch_all drain_signal accept_connections accept_one register registered
    edge_triggered is_edge handle_connection read_loop read_once echo write_all write_loop
    write_once after_write sent is_closed
served_level = refl

run-EchoAfter_example : RunAfter (run client 9 (started epoll_edge))
run-EchoAfter_example =
    run-EchoAfter client client-Posix 9 (started epoll_edge) (started-EchoInv epoll_edge)

client-Drains : Drains 0 client
unfolding client client_write
client-Drains t fd [] h = (λ e. cc, λ e. cc)
client-Drains t fd (c ∷ s) h = (λ e. cc, λ e. cc)

write_all_returns_example :
    (r : Bool) × ((write_all client 3 7 (codes "hi") (started epoll_level)).0 ≡ some r)
write_all_returns_example =
    write_all_returns client 0 7 (codes "hi") 3 (started epoll_level) client-Drains (omega arith)

-- A moment later: the client was accepted and has not been read yet.
abbrev joined : EpollServer
joined = record (started epoll_edge) { trace = accept_call (accepted_fd 7) ∷ [] }

joined-IsSettled : IsSettled 7 joined
unfolding received sent
joined-IsSettled = refl

abbrev readable : EpollEvent
readable = record { fd = 7; hup = false; err = false }

handle_connection-Drained_example : Drained 7 (handle_connection client 9 readable joined).1.trace
unfolding client client_write client_read reads edge_triggered is_edge handle_connection read_loop
    read_once echo write_all write_loop write_once after_write is_closed
handle_connection-Drained_example =
    handle_connection-Drained client 9 readable joined client-Posix refl joined-IsSettled refl refl

write_all-Sent_example :
    Sent 7 (codes "hi") [] (write_all client 9 7 (codes "hi") (started epoll_level))
unfolding sent
write_all-Sent_example =
    write_all-Sent client client-Posix 7 (codes "hi") [] 9 (started epoll_level) refl
