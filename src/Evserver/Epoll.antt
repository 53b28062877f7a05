-- ===== src/Evserver/Epoll.antt =====
-- evserver/src/server_epoll.cpp: the single-threaded epoll echo server, level- or edge-triggered.
-- `buffer_` is not kept: each read overwrites it, and what follows uses the bytes just read.
-- Every loop takes fuel, the number of rounds that it may still make.
pub mod Write
pub mod Rounds
pub mod Local
pub mod Chunk
pub mod Echo
pub mod Invariant
pub mod Serve
pub mod Total
pub mod Edge
mod Tests
use linux_internals.Prelude.{
  ℕ, zero, suc, ◌+◌, ◌-◌, ◌/◌, ◌^◌, Bool, true, false, ◌||◌, none, some, List, [], ◌∷◌, ltb, ◌==◌,
  if◌then◌else◌, length, drop, Text,
}
use linux_internals.Evserver.Server.{Backend, epoll_edge, Config}
use linux_internals.Evserver.Kernel.{
  eagain, eintr, other, ReadAnswer, got, read_failed, WriteAnswer, wrote, write_failed,
  AcceptAnswer, accepted_fd, accept_failed, EpollEvent, WaitAnswer, ready, wait_failed, Call,
  read_call, write_call, accept_call, add_call, delete_call, close_call, nodelay_call, wait_call,
  signal_call, Trace, Kernel,
}
use linux_internals.Evserver.Stats.{
  Stats, bump_accepted, bump_closed, bump_request, bump_eagain, bump_read, bump_write, bump_wait,
}
use linux_internals.Evserver.Exec.{Exec, pure, ◌>>=◌, ◌>>◌}

-- The members of `EpollServer` after a successful start(), and the calls made so far.
pub record EpollServer : Type 0 where
  pub cfg : Config
  pub listener : ℕ
  pub signal : ℕ
  pub stats : Stats
  pub running : Bool
  pub trace : Trace

-- How run() ends, or that the fuel is spent; std::length_error of its vector is caught nowhere.
pub data RunEnd : Type 0 where
  returned : RunEnd
  out_of_fuel : RunEnd
  length_error : RunEnd

abbrev pub Action : Type 0 → Type 0
Action A = Exec EpollServer A

pub is_edge : Backend → Bool
is_edge epoll_edge = true
is_edge _ = false

pub edge_triggered : EpollServer → Bool
edge_triggered s = is_edge s.cfg.backend

abbrev pub log : Call → EpollServer → EpollServer
log c s = record s { trace = c ∷ s.trace }

abbrev pub call : Call → Action Unit
call c s = (some tt, log c s)

abbrev pub count : (Stats → Stats) → Action Unit
count f s = (some tt, record s { stats = f s.stats })

pub close_connection : ℕ → Action Unit
close_connection fd = do call (delete_call fd); call (close_call fd); count bump_closed

-- What follows add_to_epoll in accept_connections; `added` is its result.
pub registered : ℕ → Bool → Bool → Action Unit
registered fd edge added s =
    let s' = record s { trace = add_call fd edge added ∷ s.trace } in
    if added then count bump_accepted s' else call (close_call fd) s'

-- What the body of write_all's loop does with the result of a write.
pub data WriteNext : Type 0 where
  go_on : ℕ → WriteNext
  give_up : WriteNext

pub after_write : WriteAnswer → WriteNext
after_write (wrote n) = if ltb 0 n then go_on n else give_up
after_write (write_failed eagain) = go_on 0
after_write (write_failed eintr) = go_on 0
after_write (write_failed (other e)) = give_up

module _ (k : Kernel) where
  -- ::write, with the counters that follow it.
  pub write_once : ℕ → Text → EpollServer → WriteAnswer × EpollServer
  write_once fd bytes s =
      let answer = k.write s.trace fd bytes in
      (
        answer,
        record s { stats = bump_write s.stats; trace = write_call fd bytes answer ∷ s.trace },
      )

  -- while (written < len) of write_all.
  pub write_loop : ℕ → ℕ → Text → ℕ → Action Bool
  write_loop zero fd bytes written s = (none, s)
  write_loop (suc f) fd bytes written s =
      let (answer, s') = write_once fd (drop written bytes) s in
      elim (ltb written (length bytes)) [
        | false ↦ (some true, s)
        | true ↦ elim (after_write answer) [
          | go_on n ↦ write_loop f fd bytes (written + n) s'
          | give_up ↦ (some false, s')
        ]
      ]

  pub write_all : ℕ → ℕ → Text → Action Bool
  write_all f fd bytes = write_loop f fd bytes 0

  -- ::read, with the counters that follow it.
  pub read_once : ℕ → EpollServer → ReadAnswer × EpollServer
  read_once fd s =
      let answer = k.read s.trace fd s.cfg.buffer_size in
      (answer, record s { stats = bump_read s.stats; trace = read_call fd answer ∷ s.trace })

  -- The body of the loop for n > 0, up to the test of the mode: true is "go on".
  pub echo : ℕ → ℕ → Text → Action Bool
  echo f fd bytes = do
    count (bump_request (length bytes))
    done ← write_all f fd bytes
    if done then pure true else do close_connection fd; pure false

  -- for (;;) of handle_connection.
  pub read_loop : ℕ → ℕ → Action Unit
  read_loop zero fd s = (none, s)
  read_loop (suc f) fd s =
      let (answer, s') = read_once fd s in
      elim answer [
        | got [] ↦ close_connection fd s'
        | got (b ∷ bs) ↦
            let (more, s'') = echo f fd (b ∷ bs) s' in
            elim more [
              | none ↦ (none, s'')
              | some false ↦ (some tt, s'')
              | some true ↦ elim (edge_triggered s'') [
                | true ↦ read_loop f fd s''
                | false ↦ (some tt, s'')
              ]
            ]
        | read_failed eagain ↦ count bump_eagain s'
        | read_failed eintr ↦ read_loop f fd s'
        | read_failed (other e) ↦ close_connection fd s'
      ]

  pub handle_connection : ℕ → EpollEvent → Action Unit
  handle_connection f ev = if ev.hup || ev.err then close_connection ev.fd else read_loop f ev.fd

  -- accept4, set_nodelay and add_to_epoll for one connection; true is "go on".
  pub accept_one : EpollServer → AcceptAnswer × EpollServer
  accept_one s =
      let answer = k.accept s.trace in (answer, record s { trace = accept_call answer ∷ s.trace })

  pub register : ℕ → Action Unit
  register fd s =
      let s' = record s { trace = nodelay_call fd ∷ s.trace } in
      registered fd (edge_triggered s') (k.epoll_add s'.trace fd (edge_triggered s')) s'

  pub accept_connections : ℕ → Action Unit
  accept_connections zero s = (none, s)
  accept_connections (suc f) s =
      let (answer, s') = accept_one s in
      elim answer [
        | accepted_fd fd ↦ accept_connections f (register fd s').1
        | accept_failed eagain ↦ (some tt, s')
        | accept_failed eintr ↦ accept_connections f s'
        | accept_failed (other e) ↦ (some tt, s')
      ]

  pub drain_signal : ℕ → Action Unit
  drain_signal zero s = (none, s)
  drain_signal (suc f) s =
      let whole = k.read_signal s.trace in
      let s' = record s { trace = signal_call whole ∷ s.trace } in
      elim whole [ true ↦ drain_signal f (record s' { running = false }) | false ↦ (some tt, s') ]

  pub dispatch : ℕ → EpollEvent → Action Unit
  dispatch f ev s =
      if ev.fd == s.signal
      then drain_signal f s
      else if ev.fd == s.listener
      then accept_connections f s
      else handle_connection f ev s

  -- for (int i = 0; i < n; ++i) over the reported events.
  pub dispatch_all : ℕ → List EpollEvent → Action Unit
  dispatch_all f [] = pure tt
  dispatch_all f (ev ∷ evs) = dispatch f ev >> dispatch_all f evs

  pub wait_once : EpollServer → WaitAnswer × EpollServer
  wait_once s =
      let answer = k.epoll_wait s.trace s.cfg.max_events in
      (answer, record s { stats = bump_wait s.stats; trace = wait_call answer ∷ s.trace })

  pub run_loop : ℕ → Action Unit
  run_loop zero s = (none, s)
  run_loop (suc f) s =
      let (answer, s') = wait_once s in
      elim s.running [
        | false ↦ (some tt, s)
        | true ↦ elim answer [
          | wait_failed eintr ↦ run_loop f s'
          | wait_failed eagain ↦ (some tt, s')
          | wait_failed (other e) ↦ (some tt, s')
          | ready evs ↦
              let (r, s'') = dispatch_all f evs s' in
              elim r [ none ↦ (none, s'') | some _ ↦ run_loop f s'' ]
        ]
      ]

  -- An epoll_event takes 12 bytes, and a vector of them PTRDIFF_MAX bytes at most.
  pub run : ℕ → EpollServer → RunEnd × EpollServer
  run f s =
      let (r, s') = run_loop f s in
      if ltb ((2 ^ 63 - 1) / 12) s.cfg.max_events
      then (length_error, s)
      else (elim r [ none ↦ out_of_fuel | some _ ↦ returned ], s')
