-- ===== src/Evserver/Setup/Tests.antt =====
-- Sockets and starts at concrete inputs.
use linux_internals.Evserver.Setup.Start.EpollStarted.{epoll_start-Started}
use linux_internals.Evserver.Setup.Start.Started.{
  Started, EpollReady, ThreadReady, thread_start-Started,
}
use linux_internals.Evserver.Setup.Start.{epoll_start, thread_start}
use linux_internals.Evserver.Socket.Histories.{History-Owned}
use linux_internals.Evserver.Socket.Owners.{Owned, start, adopted, moved, destroyed}
use linux_internals.Evserver.Socket.{
  empty_store, set_at, occurrences, set_fd, destroy, adopt, move_from,
}
use linux_internals.Evserver.Setup.{
  Request, tcp_socket, reuse_address, bind_to, fd, Event, opened_call, made, closed_call, Net,
  Setup, set_error, drop_socket, invalid, open_new, ask, attempt, with_socket, listen_tcp,
}
use linux_internals.Prelude.{
  ℕ, suc, ◌≡◌, refl, true, Option, none, some, List, [], ◌∷◌, arith, codes,
}

-- socket() gives 5 and later numbers; bind finds the port taken (EADDRINUSE is 98).
next_fd : List Event → ℕ
next_fd [] = 5
next_fd (e ∷ t) = suc (next_fd t)

refuse_bind : Request → Option ℕ
refuse_bind (bind_to n port) = some 98
refuse_bind _ = none

abbrev busy_net : Net
busy_net = record {
  opening = λ t r. fd (next_fd t);
  answer = λ t r. refuse_bind r;
  get_flags = λ t n. some 2;
  strerror = λ e. codes "Address already in use";
}

-- Every call succeeds.
abbrev good_net : Net
good_net = record busy_net { answer = λ t r. none }

abbrev fresh : Setup
fresh = record { wanted = true; error = none; trace = [] }

listen_tcp_busy : listen_tcp busy_net 9000 1024 fresh ≡ (
  invalid,
  record {
    wanted = true;
    error = some (codes "bind: Address already in use");
    trace =
        closed_call 5
        ∷ made (bind_to 5 9000) (some 98)
        ∷ made (reuse_address 5) none
        ∷ opened_call tcp_socket (fd 5)
        ∷ [];
  },
)
unfolding listen_tcp with_socket open_new attempt ask refuse_bind drop_socket set_error next_fd
listen_tcp_busy = refl

epoll_start-Started_example : Started EpollReady fresh (epoll_start good_net 9000 fresh)
epoll_start-Started_example = epoll_start-Started good_net 9000 fresh

thread_start-Started_example : Started ThreadReady fresh (thread_start busy_net 9000 fresh)
thread_start-Started_example = thread_start-Started busy_net 9000 fresh

-- A socket that is moved into a second object, which is then destroyed.
History-Owned_example : Owned (destroy 1 (move_from 0 (adopt 5 empty_store)))
unfolding adopt move_from occurrences set_fd set_at
History-Owned_example =
    History-Owned
      (destroyed 1 (omega arith) (moved 0 (omega arith) (adopted {s = empty_store} 5 refl start)))
