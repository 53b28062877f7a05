-- ===== src/Evserver/Epoll/Serve.antt =====
-- run() of evserver/src/server_epoll.cpp.
use mathlib.Core.List.{append-nil}
use linux_internals.Prelude.{
  ℕ, zero, suc, ◌-◌, ◌/◌, ◌^◌, ◌≡◌, refl, ap, ◌∙◌, inl, inr, Bool, true, false, ◌||◌, Option, none,
  some, List, [], ◌∷◌, ◌++◌, arith, ltb, ◌==◌, if◌then◌else◌, Bool-cases,
}
use linux_internals.Evserver.Kernel.{
  Errno, eagain, eintr, other, read_failed, AcceptAnswer, accepted_fd, accept_failed, EpollEvent,
  WaitAnswer, ready, wait_failed, read_call, accept_call, add_call, close_call, nodelay_call,
  signal_call, Kernel, received, sent, is_closed, Posix,
}
use linux_internals.Evserver.Epoll.{
  EpollServer, RunEnd, returned, out_of_fuel, length_error, close_connection, registered, read_once,
  read_loop, handle_connection, accept_one, register, accept_connections, drain_signal, dispatch,
  dispatch_all, wait_once, run_loop, run,
}
use linux_internals.Evserver.Epoll.Local.{Local-refl, close_connection-Local}
use linux_internals.Evserver.Epoll.Rounds.{read_loop_error}
use linux_internals.Evserver.Epoll.Chunk.{close_connection-Echoed}
use linux_internals.Evserver.Epoll.Echo.{read_loop-Echoed}
use linux_internals.Evserver.Epoll.Invariant.{
  EchoInv, EchoAfter, weaken, relabel, EchoAfter-of, EchoInv-silent, read_failed-IsSilent,
  wait-IsSilent, signal-IsSilent, nodelay-IsSilent, add-IsSilent, accept_failed-IsSilent,
}

-- run() has returned.
abbrev pub finished : RunEnd → Option (Unit {0})
finished returned = some tt
finished out_of_fuel = none
finished length_error = none

abbrev pub RunAfter : RunEnd × EpollServer → Type 0
RunAfter (r, s) = EchoAfter (finished r, s)

module _ (k : Kernel) (law : Posix k) where
  close_connection-EchoAfter :
      (fd : ℕ) (s : EpollServer) → EchoInv s → EchoAfter (close_connection fd s)
  close_connection-EchoAfter fd s inv =
      EchoAfter-of fd s _ inv
        (close_connection-Local fd s, close_connection-Echoed fd s (inv fd).rest (inv fd).prefix)

  -- An event for a descriptor that was closed before: its read fails, and it is closed again.
  read_loop_stale :
      (f fd : ℕ) (s : EpollServer)
      → EchoInv s
      → is_closed fd s.trace ≡ true
      → EchoAfter (read_loop k f fd s)
  unfolding read_once
  read_loop_stale zero fd s inv c = unfold read_loop in λ d. weaken d none s (inv d)
  read_loop_stale (suc f) fd s inv c =
      let (e, bad) = law.read_closed s.trace fd s.cfg.buffer_size c in
      rw (read_loop_error k f fd s e bad) (
        close_connection-EchoAfter fd (read_once k fd s).1 (
          EchoInv-silent (read_call fd (read_failed (other e))) s _
            (read_failed-IsSilent fd (other e)) (ap (λ a. read_call fd a ∷ s.trace) bad) inv))

  handle_connection-EchoAfter :
      (f : ℕ) (ev : EpollEvent) (s : EpollServer)
      → EchoInv s
      → EchoAfter (handle_connection k f ev s)
  unfolding handle_connection
  handle_connection-EchoAfter f ev s inv = elim (Bool-cases (ev.hup || ev.err)) [
    | inl gone ↦ rw (gone) (close_connection-EchoAfter ev.fd s inv)
    | inr up ↦ rw up (elim (Bool-cases (is_closed ev.fd s.trace)) [
      | inl c ↦ read_loop_stale f ev.fd s inv c
      | inr o ↦ EchoAfter-of ev.fd s _ inv (
          read_loop-Echoed k law ev.fd s f s (
            Local-refl ev.fd s,
            (inv ev.fd).prefix
                ∙ ap (◌++◌ (sent ev.fd s.trace)) ((inv ev.fd).settled refl o)
                ∙ append-nil _,
          ))
    ])
  ]

  EchoInv-same : (s s' : EpollServer) → s'.trace ≡ s.trace → EchoInv s → EchoInv s'
  EchoInv-same s s' e inv d = record {
    rest = (inv d).rest;
    prefix = rw e (inv d).prefix;
    settled = λ h c. (inv d).settled refl (rw e at c);
  }

  accepted-EchoInv :
      (fd : ℕ) (s : EpollServer)
      → EchoInv s
      → EchoInv (record s { trace = accept_call (accepted_fd fd) ∷ s.trace })
  unfolding received sent is_closed
  accepted-EchoInv fd s inv d = record {
    rest = if fd == d then [] else (inv d).rest;
    prefix = ground (arith, (inv d).prefix);
    settled = λ h c. ground (arith, (inv d).settled refl);
  }

  registered-EchoInv :
      (fd : ℕ) (edge added : Bool) (s : EpollServer)
      → EchoInv s
      → EchoInv (registered fd edge added s).1
  unfolding registered
  registered-EchoInv fd edge true s inv d =
      EchoInv-silent (add_call fd edge true) s _ (add-IsSilent fd edge true) refl inv d
  registered-EchoInv fd edge false s inv d =
      let e = EchoInv-silent (add_call fd edge false) s _ (add-IsSilent fd edge false) refl inv in
      closed (record s { trace = add_call fd edge false ∷ s.trace }) e d
    where
      closed :
          (u : EpollServer) → EchoInv u → EchoInv (record u { trace = close_call fd ∷ u.trace })
      closed u e d = record {
        rest = (e d).rest;
        prefix = unfold received sent in (e d).prefix;
        settled = λ h c. (e d).settled refl (unfold is_closed in ground arith);
      }

  register-EchoInv : (fd : ℕ) (s : EpollServer) → EchoInv s → EchoInv (register k fd s).1
  unfolding register
  register-EchoInv fd s inv =
      registered-EchoInv fd _ _ _
        (EchoInv-silent (nodelay_call fd) s _ (nodelay-IsSilent fd) refl inv)

  accept_connections-EchoAfter :
      (f : ℕ) (s : EpollServer) → EchoInv s → EchoAfter (accept_connections k f s)
  unfolding accept_connections accept_one
  accept_connections-EchoAfter zero s inv = λ d. weaken d none s (inv d)
  accept_connections-EchoAfter (suc f) s inv =
      go (accept_connections-EchoAfter f) (k.accept s.trace) refl
    where
      failed : (n : Errno) → k.accept s.trace ≡ accept_failed n → EchoInv (accept_one k s).1
      failed n h =
          EchoInv-silent (accept_call (accept_failed n)) s _ (accept_failed-IsSilent n)
            (ap (λ a. accept_call a ∷ s.trace) h) inv

      go :
          ((s' : EpollServer) → EchoInv s' → EchoAfter (accept_connections k f s'))
          → (a : AcceptAnswer) → k.accept s.trace ≡ a
          → EchoAfter (accept_connections k (suc f) s)
      go ih (accepted_fd fd) h =
          rw (h, accept_connections)
            (ih _ (
              register-EchoInv fd _ (
                EchoInv-same _ _ (ap (λ a. accept_call a ∷ s.trace) h)
                  (accepted-EchoInv fd s inv))))
      go ih (accept_failed eagain) h = rw (h, accept_connections) (failed eagain h)
      go ih (accept_failed (other e)) h = rw (h, accept_connections) (failed (other e) h)
      go ih (accept_failed eintr) h = rw (h, accept_connections) (ih _ (failed eintr h))

  drain_signal-EchoAfter : (f : ℕ) (s : EpollServer) → EchoInv s → EchoAfter (drain_signal k f s)
  unfolding drain_signal
  drain_signal-EchoAfter zero s inv = λ d. weaken d none s (inv d)
  drain_signal-EchoAfter (suc f) s inv = go (drain_signal-EchoAfter f) (k.read_signal s.trace) refl
    where
      go :
          ((s' : EpollServer) → EchoInv s' → EchoAfter (drain_signal k f s'))
          → (whole : Bool) → k.read_signal s.trace ≡ whole
          → EchoAfter (drain_signal k (suc f) s)
      go ih true h =
          rw (h, drain_signal)
            (ih _ (
              EchoInv-silent (signal_call true) s _ (signal-IsSilent true)
                (ap (λ a. signal_call a ∷ s.trace) h) inv))
      go ih false h =
          rw (h, drain_signal)
            (EchoInv-silent (signal_call false) s _ (signal-IsSilent false)
              (ap (λ a. signal_call a ∷ s.trace) h) inv)

  dispatch-EchoAfter :
      (f : ℕ) (ev : EpollEvent) (s : EpollServer) → EchoInv s → EchoAfter (dispatch k f ev s)
  unfolding dispatch
  dispatch-EchoAfter f ev s inv = elim (Bool-cases (ev.fd == s.signal)) [
    | inl h ↦ rw h (drain_signal-EchoAfter f s inv)
    | inr n ↦ rw n (elim (Bool-cases (ev.fd == s.listener)) [
      | inl h ↦ rw h (accept_connections-EchoAfter f s inv)
      | inr m ↦ rw m (handle_connection-EchoAfter f ev s inv)
    ])
  ]

  dispatch_all-EchoAfter :
      (f : ℕ) (evs : List EpollEvent) (s : EpollServer)
      → EchoInv s
      → EchoAfter (dispatch_all k f evs s)
  unfolding dispatch_all
  dispatch_all-EchoAfter f [] s inv = inv
  dispatch_all-EchoAfter f (ev ∷ evs) s inv =
      go (dispatch_all-EchoAfter f evs) (dispatch k f ev s) refl (dispatch-EchoAfter f ev s inv)
    where
      go :
          ((s' : EpollServer) → EchoInv s' → EchoAfter (dispatch_all k f evs s'))
          → (out : Option (Unit {0}) × EpollServer) → dispatch k f ev s ≡ out
          → EchoAfter out
          → EchoAfter (dispatch_all k f (ev ∷ evs) s)
      go ih (none, s') h e = rw (h, dispatch_all) e
      go ih (some tt, s') h e = rw (h, dispatch_all) (ih s' e)

  wait_once-EchoInv : (s : EpollServer) → EchoInv s → EchoInv (wait_once k s).1
  unfolding wait_once
  wait_once-EchoInv s inv = EchoInv-silent _ s _ (wait-IsSilent _) refl inv

  waited :
      (f : ℕ) (s : EpollServer)
      → EchoInv s
      → s.running ≡ true
      → ((s' : EpollServer) → EchoInv s' → EchoAfter (run_loop k f s'))
      → (a : WaitAnswer) → k.epoll_wait s.trace s.cfg.max_events ≡ a
      → EchoAfter (run_loop k (suc f) s)
  unfolding run_loop wait_once
  waited f s inv on ih (wait_failed eagain) h = rw (on, h, run_loop) (wait_once-EchoInv s inv)
  waited f s inv on ih (wait_failed eintr) h = rw (on, h, run_loop) (ih _ (wait_once-EchoInv s inv))
  waited f s inv on ih (wait_failed (other e)) h = rw (on, h, run_loop) (wait_once-EchoInv s inv)
  waited f s inv on ih (ready evs) h = go (dispatch_all k f evs (wait_once k s).1).0 refl
    where
      served : EchoAfter (dispatch_all k f evs (wait_once k s).1)
      served = dispatch_all-EchoAfter f evs _ (wait_once-EchoInv s inv)

      go :
          (r : Option (Unit {0}))
          → (dispatch_all k f evs (wait_once k s).1).0 ≡ r
          → EchoAfter (run_loop k (suc f) s)
      go none d = rw (on, h, d, run_loop) (relabel _ none d served)
      go (some _) d = rw (on, h, d, run_loop) (ih _ (relabel _ (some tt) d served))

  run_loop-EchoAfter : (f : ℕ) (s : EpollServer) → EchoInv s → EchoAfter (run_loop k f s)
  unfolding run_loop wait_once
  run_loop-EchoAfter zero s inv = λ d. weaken d none s (inv d)
  run_loop-EchoAfter (suc f) s inv = elim (Bool-cases s.running) [
    | inr stopped ↦ rw (stopped, run_loop) inv
    | inl on ↦ waited f s inv on (run_loop-EchoAfter f) (k.epoll_wait s.trace s.cfg.max_events) refl
  ]

  ended :
      (long : Bool) (out : Option (Unit {0}) × EpollServer) (s : EpollServer)
      → EchoInv s
      → EchoAfter out
      → RunAfter (
          if long
          then (length_error, s)
          else (elim out.0 as (λ _. RunEnd) [ none ↦ out_of_fuel | some _ ↦ returned ], out.1))
  ended true out s inv e = λ d. weaken d none s (inv d)
  ended false (none, s') s inv e = e
  ended false (some _, s') s inv e = e

  -- Over a kernel that keeps `Posix`, and from a state in which this holds: when the fuel of run() is
  -- spent, at whatever moment that is, or an exception ends it, what a connection has been sent is the start of what it
  -- delivered, in order and with nothing added; when run() has returned, an open connection has been
  -- sent all that it delivered.
  pub run-EchoAfter : (f : ℕ) (s : EpollServer) → EchoInv s → RunAfter (run k f s)
  unfolding run
  run-EchoAfter f s inv =
      ended (ltb ((2 ^ 63 - 1) / 12) s.cfg.max_events) (run_loop k f s) s inv
        (run_loop-EchoAfter f s inv)
