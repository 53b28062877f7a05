-- ===== src/Evserver/Threads/Tests.antt =====
-- The threads server at concrete inputs.

use linux_internals.Evserver.Epoll.Total.{Drains}
use linux_internals.Evserver.Threads.Returns.{answer_request_returns}
use linux_internals.Evserver.Threads.Serve.{Served, serve-Served}
use linux_internals.Evserver.Threads.Accepting.{accepted_fds, AfterRun, run-AfterRun}
use linux_internals.Evserver.Threads.{
  after_blocking, Worker, leave, blocking_write, write_back, blocking_read, answer_request, serve,
  PollAnswer, polled, poll_failed, MainCall, poll_call, set_nodelay_call, MainKernel, ThreadServer,
  spawn, drain_info, accept_new, run,
}
use linux_internals.Evserver.Stats.{zero_stats}
use linux_internals.Evserver.Kernel.{
  eagain, eintr, other, ReadAnswer, got, read_failed, WriteAnswer, wrote, write_failed,
  AcceptAnswer, accepted_fd, accept_failed, wait_failed, Trace, Kernel, received, sent, is_closed,
  Posix,
}
use linux_internals.Prelude.{
  ℕ, zero, suc, ◌≤◌, ◌≡◌, refl, Bool, true, false, some, List, [], ◌∷◌, arith, ltb, if◌then◌else◌,
  length, Text, codes,
}

-- The peer sends "hi", takes one byte of each write and then ends the stream; a first write is
-- interrupted.
calls_so_far : Trace → ℕ
calls_so_far [] = 0
calls_so_far (c ∷ t) = suc (calls_so_far t)

peer_read : ℕ → ReadAnswer
peer_read zero = got (codes "hi")
peer_read (suc n) = if ltb n 8 then got [] else read_failed (other 9)

peer_write : ℕ → Text → WriteAnswer
peer_write (suc zero) bytes = write_failed eintr
peer_write n [] = wrote 0
peer_write n (b ∷ bytes) = wrote 1

abbrev peer : Kernel
peer = record {
  read = λ t fd n. if is_closed fd t then read_failed (other 9) else peer_read (calls_so_far t);
  write = λ t fd bytes. peer_write (calls_so_far t) bytes;
  accept = λ t. accept_failed eagain;
  epoll_add = λ t fd edge. true;
  epoll_wait = λ t n. wait_failed eintr;
  read_signal = λ t. false;
}

peer_write-bound : (n : ℕ) (bytes : Text) (m : ℕ) → peer_write n bytes ≡ wrote m → m ≤ length bytes
unfolding peer_write
peer_write-bound zero [] m h = ground (arith, h)
peer_write-bound zero (b ∷ bytes) m h = ground (arith, h)
peer_write-bound (suc zero) bytes m h = cc h
peer_write-bound (suc (suc n)) [] m h = ground (arith, h)
peer_write-bound (suc (suc n)) (b ∷ bytes) m h = ground (arith, h)

peer-Posix : Posix peer
peer-Posix = record {
  write_bound = λ t fd bytes m h. peer_write-bound (calls_so_far t) bytes m h;
  read_closed = λ t fd n h. (9, rw h refl);
}

abbrev worker : Worker
worker = record { buffer_size = 4096; stats = zero_stats; trace = [] }

serve_hi : sent 7 (serve peer (λ t. true) 20 7 worker).1.trace ≡ codes "hi"
unfolding sent serve blocking_read is_closed peer_read calls_so_far answer_request write_back
    after_blocking blocking_write peer_write leave
serve_hi = refl

serve-Served_example : Served 7 (serve peer (λ t. true) 20 7 worker)
unfolding sent received
serve-Served_example = serve-Served peer peer-Posix (λ t. true) 7 20 worker refl

-- Two connections, an EINTR between them, then the signal.
scripted_poll : List MainCall → PollAnswer
scripted_poll [] = polled false true
scripted_poll (set_nodelay_call zero ∷ t) = poll_failed eintr
scripted_poll (poll_call a ∷ t) = polled false true
scripted_poll _ = polled true false

scripted_accept : List MainCall → AcceptAnswer
scripted_accept (poll_call a ∷ []) = accepted_fd 0
scripted_accept _ = accepted_fd 6

scripted_info : List MainCall → Bool
scripted_info (poll_call a ∷ t) = true
scripted_info _ = false

abbrev script : MainKernel
script = record { poll = scripted_poll; read_info = scripted_info; accept4 = scripted_accept }

abbrev started : ThreadServer
started = record { stats = zero_stats; running = true; workers = []; calls = [] }

two_workers : (run script 20 started).1.workers ≡ 0 ∷ 6 ∷ []
unfolding run scripted_poll accept_new scripted_accept spawn drain_info scripted_info
two_workers = refl

run-AfterRun_example : AfterRun (run script 20 started)
unfolding accepted_fds
run-AfterRun_example =
    run-AfterRun script 20 started refl (record { workers = refl; counted = refl })

-- A peer that takes one byte of each write.
abbrev steady_peer : Kernel
steady_peer = record peer { write = λ t fd bytes. peer_write 5 bytes }

steady_peer-Drains : Drains 0 steady_peer
unfolding peer_write
steady_peer-Drains t fd [] h = (λ e. cc e, λ e. cc e)
steady_peer-Drains t fd (c ∷ s) h = (λ e. cc e, λ e. cc e)

answer_request_returns_example :
    (r : Bool) × ((answer_request steady_peer 3 7 (codes "hi") worker).0 ≡ some r)
answer_request_returns_example =
    answer_request_returns steady_peer 0 7 (codes "hi") 3 worker steady_peer-Drains (omega arith)
