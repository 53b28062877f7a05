-- ===== src/Evserver/Threads.antt =====
-- evserver/src/server_threads.cpp: one blocking thread per connection, serve, and the accepting loop,
-- run. A worker's trace has the calls on its connection. The other threads appear in what the kernel
-- answers and in what running_ reads, which are any functions of the calls so far.
pub mod WriteBack
pub mod Serve
pub mod Returns
pub mod Accepting
mod Tests
use linux_internals.Evserver.Epoll.{WriteNext, go_on, give_up}
use linux_internals.Evserver.Exec.{Exec}
use linux_internals.Evserver.Stats.{
  Stats, bump, bump_accepted, bump_closed, bump_request, bump_read, bump_write, bump_wait,
}
use linux_internals.Evserver.Kernel.{
  Errno, eagain, eintr, other, ReadAnswer, got, read_failed, WriteAnswer, wrote, write_failed,
  AcceptAnswer, accepted_fd, accept_failed, read_call, write_call, close_call, Trace, Kernel,
}
use linux_internals.Prelude.{
  ℕ, zero, suc, ◌+◌, Bool, true, false, none, some, List, [], ◌∷◌, ◌++◌, ltb, if◌then◌else◌, length,
  drop, Text,
}

-- What a worker's loop does with the result of a blocking write.
pub after_blocking : WriteAnswer → WriteNext
after_blocking (wrote n) = if ltb 0 n then go_on n else give_up
after_blocking (write_failed eagain) = give_up
after_blocking (write_failed eintr) = go_on 0
after_blocking (write_failed (other e)) = give_up

-- The server's part of a worker's state and the calls made so far.
pub record Worker : Type 0 where
  pub buffer_size : ℕ
  pub stats : Stats
  pub trace : Trace

-- bump(closed), and the destructor of `conn`.
pub leave : ℕ → Exec Worker Unit
leave fd s = (some tt, record s { stats = bump_closed s.stats; trace = close_call fd ∷ s.trace })

module _ (k : Kernel) where
  -- ::write, with the counters that follow it.
  pub blocking_write : ℕ → Text → Worker → WriteAnswer × Worker
  blocking_write fd bytes s =
      let answer = k.write s.trace fd bytes in
      (
        answer,
        record s { stats = bump_write s.stats; trace = write_call fd bytes answer ∷ s.trace },
      )

  -- while (written < n) of serve; false is the return.
  pub write_back : ℕ → ℕ → Text → ℕ → Exec Worker Bool
  write_back zero fd bytes written s = (none, s)
  write_back (suc f) fd bytes written s =
      let (answer, s') = blocking_write fd (drop written bytes) s in
      elim (ltb written (length bytes)) [
        | false ↦ (some true, s)
        | true ↦ elim (after_blocking answer) [
          | go_on n ↦ write_back f fd bytes (written + n) s'
          | give_up ↦ (some false, s')
        ]
      ]

  -- ::read, with the counters that follow it.
  pub blocking_read : ℕ → Worker → ReadAnswer × Worker
  blocking_read fd s =
      let answer = k.read s.trace fd s.buffer_size in
      (answer, record s { stats = bump_read s.stats; trace = read_call fd answer ∷ s.trace })

  -- The loop of serve for n > 0.
  pub answer_request : ℕ → ℕ → Text → Exec Worker Bool
  answer_request f fd bytes s =
      write_back f fd bytes 0 (record s { stats = bump_request (length bytes) s.stats })

  -- serve; `running` is what running_ reads.
  pub serve : (Trace → Bool) → ℕ → ℕ → Exec Worker Unit
  serve running zero fd s = (none, s)
  serve running (suc f) fd s =
      let (answer, s') = blocking_read fd s in
      elim (running s.trace) [
        | false ↦ leave fd s
        | true ↦ elim answer [
          | got [] ↦ leave fd s'
          | got (b ∷ bs) ↦
              let (more, s'') = answer_request f fd (b ∷ bs) s' in
              elim more [
                | none ↦ (none, s'')
                | some false ↦ leave fd s''
                | some true ↦ serve running f fd s''
              ]
          | read_failed eintr ↦ serve running f fd s'
          | read_failed eagain ↦ leave fd s'
          | read_failed (other e) ↦ leave fd s'
        ]
      ]

-- What poll() reports: whether the signalfd and the listener are readable.
pub data PollAnswer : Type 0 where
  polled : Bool → Bool → PollAnswer
  poll_failed : Errno → PollAnswer

pub data MainCall : Type 0 where
  poll_call : PollAnswer → MainCall
  signal_read : Bool → MainCall
  accept4_call : AcceptAnswer → MainCall
  set_nodelay_call : ℕ → MainCall

pub record MainKernel : Type 0 where
  pub poll : List MainCall → PollAnswer
  -- whether reading the signalfd gives a whole signalfd_siginfo
  pub read_info : List MainCall → Bool
  pub accept4 : List MainCall → AcceptAnswer

-- The members that run changes; a worker is known by its descriptor.
pub record ThreadServer : Type 0 where
  pub stats : Stats
  pub running : Bool
  pub workers : List ℕ
  pub calls : List MainCall

pub bump_thread : Stats → Stats
bump_thread c =
    let accepted' = bump_accepted c in
    record accepted' { threads_spawned = bump accepted'.threads_spawned 1 }

-- serve is started on its descriptor.
pub spawn : ℕ → ThreadServer → ThreadServer
spawn fd s = record s {
  stats = bump_thread s.stats;
  workers = s.workers ++ (fd ∷ []);
  calls = set_nodelay_call fd ∷ s.calls;
}

module _ (k : MainKernel) where
  -- while (::read(...) == sizeof(info))
  pub drain_info : ℕ → Exec ThreadServer Unit
  drain_info zero s = (none, s)
  drain_info (suc f) s =
      let whole = k.read_info s.calls in
      let s' = record s { calls = signal_read whole ∷ s.calls } in
      elim whole [ true ↦ drain_info f (record s' { running = false }) | false ↦ (some tt, s') ]

  pub accept_new : ThreadServer → ThreadServer
  accept_new s =
      let answer = k.accept4 s.calls in
      let s' = record s { calls = accept4_call answer ∷ s.calls } in
      elim answer [ accepted_fd fd ↦ spawn fd s' | accept_failed e ↦ s' ]

  pub run : ℕ → Exec ThreadServer Unit
  run zero s = (none, s)
  run (suc f) s =
      let answer = k.poll s.calls in
      let s' = record s { stats = bump_wait s.stats; calls = poll_call answer ∷ s.calls } in
      elim s.running [
        | false ↦ (some tt, s)
        | true ↦ elim answer [
          | poll_failed eintr ↦ run f s'
          | poll_failed eagain ↦ (some tt, s')
          | poll_failed (other e) ↦ (some tt, s')
          | polled true listener ↦ drain_info f s'
          | polled false true ↦ run f (accept_new s')
          | polled false false ↦ run f s'
        ]
      ]
