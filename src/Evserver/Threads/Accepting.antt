-- ===== src/Evserver/Threads/Accepting.antt =====
-- run of evserver/src/server_threads.cpp.

use linux_internals.Evserver.Stats.{bump, bump_accepted, bump_wait}
use linux_internals.Evserver.Kernel.{
  Errno, eagain, eintr, other, AcceptAnswer, accepted_fd, accept_failed,
}
use mathlib.Core.Path.{subst}
use linux_internals.Prelude.{
  ℕ, zero, suc, ◌≡◌, refl, sym, ap, ◌≢◌, Bool, true, false, Option, none, some, List, [], ◌∷◌, ◌++◌,
}
use linux_internals.Evserver.Threads.{
  PollAnswer, polled, poll_failed, MainCall, poll_call, signal_read, accept4_call, MainKernel,
  ThreadServer, bump_thread, spawn, drain_info, accept_new, run,
}

-- The descriptors that accept4 gave, in order.
unfoldable pub accepted_fds : List MainCall → List ℕ
accepted_fds [] = []
accepted_fds (accept4_call (accepted_fd fd) ∷ t) = accepted_fds t ++ (fd ∷ [])
accepted_fds (c ∷ t) = accepted_fds t

-- The signalfd was reported as readable, and since then every read of it was whole.
pub data Readable : List MainCall → Type 0 where
  poll_reported :
      {listener : Bool} {t : List MainCall} → Readable (poll_call (polled true listener) ∷ t)
  read_whole : {t : List MainCall} → Readable t → Readable (signal_read true ∷ t)

-- run left its loop: a poll failed, or the signalfd was readable and has been read until a read was not
-- whole.
pub data Ended : List MainCall → Type 0 where
  poll_ended : {e : Errno} {t : List MainCall} → e ≢ eintr → Ended (poll_call (poll_failed e) ∷ t)
  signalled : {t : List MainCall} → Readable t → Ended (signal_read false ∷ t)

-- A worker for each connection, in the order in which they were accepted, and the two counters of
-- them in step.
pub record OneEach (s : ThreadServer) : Type 0 where
  pub workers : s.workers ≡ accepted_fds s.calls
  pub counted : s.stats.threads_spawned ≡ s.stats.accepted

abbrev pub Outcome : Type 0
Outcome = Option Unit × ThreadServer

pub record AfterRun (out : Outcome) : Type 0 where
  pub each : OneEach out.1
  pub ended : out.0 ≡ some tt → Ended out.1.calls

spent : (s : ThreadServer) → OneEach s → AfterRun (none, s)
spent s p = record { each = p; ended = λ h. cc h }

after_info :
    (whole : Bool) (s : ThreadServer) (next : ThreadServer → Outcome)
    → OneEach s
    → Readable s.calls
    → ((s' : ThreadServer) → OneEach s' → Readable s'.calls → AfterRun (next s'))
    → AfterRun (elim whole as (λ _. Outcome) [
      | true ↦ next (record s { calls = signal_read whole ∷ s.calls; running = false })
      | false ↦ (some tt, record s { calls = signal_read whole ∷ s.calls })
    ])
unfolding accepted_fds
after_info true s next p q ih =
    ih _ (record { workers = p.workers; counted = p.counted }) (read_whole q)
after_info false s next p q ih = record {
  each = record { workers = p.workers; counted = p.counted };
  ended = λ h. signalled q;
}

drain_info-AfterRun :
    (k : MainKernel) (f : ℕ) (s : ThreadServer)
    → OneEach s
    → Readable s.calls
    → AfterRun (drain_info k f s)
unfolding drain_info
drain_info-AfterRun k zero s p q = spent s p
drain_info-AfterRun k (suc f) s p q =
    after_info (k.read_info s.calls) s (drain_info k f) p q (drain_info-AfterRun k f)

accept_new-OneEach : (k : MainKernel) (s : ThreadServer) → OneEach s → OneEach (accept_new k s)
unfolding accept_new accepted_fds spawn bump_thread bump_accepted
accept_new-OneEach k s p = go (k.accept4 s.calls)
  where
    go :
        (a : AcceptAnswer)
        → OneEach (elim a as (λ _. ThreadServer) [
          | accepted_fd fd ↦ spawn fd (record s { calls = accept4_call a ∷ s.calls })
          | accept_failed e ↦ record s { calls = accept4_call a ∷ s.calls }
        ])
    go (accepted_fd fd) = record {
      workers = ap (λ (ws : List ℕ). ws ++ (fd ∷ [])) p.workers;
      counted = ap (λ n. bump n 1) p.counted;
    }
    go (accept_failed e) = record { workers = p.workers; counted = p.counted }

accept_new-running :
    (k : MainKernel) (s : ThreadServer) → s.running ≡ true → (accept_new k s).running ≡ true
unfolding accept_new spawn
accept_new-running k s r =
    elim (k.accept4 s.calls)
      as (λ a.
        (elim a as (λ _. ThreadServer) [
          | accepted_fd fd ↦ spawn fd (record s { calls = accept4_call a ∷ s.calls })
          | accept_failed e ↦ record s { calls = accept4_call a ∷ s.calls }
        ]).running
        ≡ true) [ accepted_fd fd ↦ r | accept_failed e ↦ r ]

-- A round of run, by what poll reports, with the rounds that follow.
module _ (k : MainKernel) (f : ℕ) (next : ThreadServer → Outcome)
    (ih : (s : ThreadServer) → s.running ≡ true → OneEach s → AfterRun (next s)) where
  round :
      (a : PollAnswer) (s : ThreadServer) (t : List MainCall)
      → s.calls ≡ poll_call a ∷ t
      → s.running ≡ true
      → OneEach s
      → AfterRun (elim a as (λ _. Outcome) [
        | poll_failed eintr ↦ next s
        | poll_failed eagain ↦ (some tt, s)
        | poll_failed (other e) ↦ (some tt, s)
        | polled true listener ↦ drain_info k f s
        | polled false true ↦ next (accept_new k s)
        | polled false false ↦ next s
      ])
  round (poll_failed eintr) s t c r p = ih s r p
  round (poll_failed eagain) s t c r p = record {
    each = p;
    ended = λ h. subst Ended (sym c) (poll_ended (λ e. cc e));
  }
  round (poll_failed (other n)) s t c r p = record {
    each = p;
    ended = λ h. subst Ended (sym c) (poll_ended (λ e. cc e));
  }
  round (polled true listener) s t c r p =
      drain_info-AfterRun k f s p (subst Readable (sym c) poll_reported)
  round (polled false true) s t c r p =
      ih (accept_new k s) (accept_new-running k s r) (accept_new-OneEach k s p)
  round (polled false false) s t c r p = ih s r p

-- At every moment of run there is one worker for each connection accepted, in that order, and the
-- counters of both agree; and run that was started running returns only after a poll that failed with
-- another error than EINTR, or once a poll reported the signalfd as readable and its reads were exhausted.
pub run-AfterRun :
    (k : MainKernel) (f : ℕ) (s : ThreadServer)
    → s.running ≡ true
    → OneEach s
    → AfterRun (run k f s)
unfolding run accepted_fds bump_wait
run-AfterRun k zero s r p = spent s p
run-AfterRun k (suc f) s r p =
    rw (r, run)
      (round k f (run k f) (run-AfterRun k f) (k.poll s.calls) _ s.calls refl r
        (record { workers = p.workers; counted = p.counted }))
