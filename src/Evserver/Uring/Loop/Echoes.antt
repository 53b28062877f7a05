-- ===== src/Evserver/Uring/Loop/Echoes.antt =====
-- run() of evserver/src/server_uring.cpp: the states that it passes through.
use mathlib.Core.Path.{subst}
use linux_internals.Evserver.Uring.Runs.{start-InvOf}
use linux_internals.Evserver.Server.{Config}
use linux_internals.Evserver.Echo.{nobody, Steps, done, Steps-append}
use linux_internals.Evserver.Uring.Refines.{StepsTo, handle_completion-Steps, start-connections}
use linux_internals.Evserver.Uring.Sessions.{sessions}
use linux_internals.Evserver.Uring.Safety.{Permitted, handle_completion-Inv}
use linux_internals.Evserver.Uring.Steps.{InvOf}
use linux_internals.Prelude.{
  ℕ, zero, suc, ◌≡◌, refl, sym, ap, ◌∙◌, inl, inr, Bool, true, false, ◌||◌, some, List, [], ◌∷◌,
  ◌++◌, ==_iff, Bool-cases, Option-cases,
}
use linux_internals.Evserver.Uring.{
  Op, accept_op, signal_op, recv_op, send_op, Ring, UringServer, find, Completion, op_of,
  handle_completion, start,
}
use linux_internals.Evserver.Uring.Loop.{
  Rc, waited, interrupted, broken, is_broken, Answered, wait_answer, RingKernel, Running, Outcome,
  returned, spent, faulted, op_eq, remove_op, complete, for_each_cqe, wait_once, run,
}

unfoldable pub is_in_flight : Op → List Op → Bool
is_in_flight op [] = false
is_in_flight op (o ∷ ops) = op_eq o op || is_in_flight op ops

-- The kernel completes operations that are in flight, with results that it may report.
pub record Lawful (k : RingKernel) : Type 0 where
  pub in_flight :
      (h : List Answered) (s : UringServer) (e : Completion)
      → k.next_cqe h s ≡ some e
      → is_in_flight (op_of e) s.outstanding ≡ true
  pub permitted :
      (h : List Answered) (s : UringServer) (e : Completion)
      → k.next_cqe h s ≡ some e
      → Permitted e s.connections

op_eq→eq : (o op : Op) → op_eq o op ≡ true → o ≡ op
unfolding op_eq
op_eq→eq accept_op accept_op h = refl
op_eq→eq accept_op signal_op h = cc h
op_eq→eq accept_op (recv_op j) h = cc h
op_eq→eq accept_op (send_op j) h = cc h
op_eq→eq signal_op accept_op h = cc h
op_eq→eq signal_op signal_op h = refl
op_eq→eq signal_op (recv_op j) h = cc h
op_eq→eq signal_op (send_op j) h = cc h
op_eq→eq (recv_op i) accept_op h = cc h
op_eq→eq (recv_op i) signal_op h = cc h
op_eq→eq (recv_op i) (recv_op j) h = ap recv_op ((==_iff i j).0 h)
op_eq→eq (recv_op i) (send_op j) h = cc h
op_eq→eq (send_op i) accept_op h = cc h
op_eq→eq (send_op i) signal_op h = cc h
op_eq→eq (send_op i) (recv_op j) h = cc h
op_eq→eq (send_op i) (send_op j) h = ap send_op ((==_iff i j).0 h)

-- Where an operation in flight stands, and what is left without it.
remove_op-split :
    (op : Op) (ops : List Op)
    → is_in_flight op ops ≡ true
    → (pre : List Op) × (post : List Op) × (ops ≡ pre ++ op ∷ post)
      × (remove_op op ops ≡ pre ++ post)
unfolding is_in_flight remove_op
remove_op-split op [] h = cc h
remove_op-split op (o ∷ ops) h = elim (Bool-cases (op_eq o op)) [
  | inl hit ↦ ([], ops, ap (λ (x : Op). x ∷ ops) (op_eq→eq o op hit), rw hit refl)
  | inr miss ↦
      let (pre, post, split, left) = remove_op-split op ops (rw miss at h) in
      (o ∷ pre, post, ap (◌∷◌ o) split, rw miss (ap (◌∷◌ o) left))
]

-- What holds in each state of the loops.
pub record Kept (r : Running) : Type 0 where
  pub inv : InvOf r.server
  pub steps : Steps nobody (sessions r.server.connections)

complete-Kept :
    (ring : Ring) (e : Completion) (s : UringServer)
    → is_in_flight (op_of e) s.outstanding ≡ true
    → Permitted e s.connections
    → InvOf s
    → Steps nobody (sessions s.connections)
    → (s' : UringServer) × (complete ring e s ≡ some s')
      × InvOf s'
      × Steps nobody (sessions s'.connections)
unfolding complete
complete-Kept ring e s flies p v t =
    let (pre, post, split, left) = remove_op-split (op_of e) s.outstanding flies in
    let (s', handled, w) = handle_completion-Inv ring e pre post s split p v in
    let here : complete ring e s ≡ some s' =
      ap (λ ops. handle_completion ring e (record s { outstanding = ops })) left ∙ handled in
    (
      s',
      here,
      w,
      Steps-append t (
          subst (StepsTo (sessions s.connections)) handled
            (handle_completion-Steps ring e pre post s split p v)),
    )

-- The loop was left because running_ was false, or after an error of io_uring_submit_and_wait.
pub data Left : Running → Type 0 where
  stopped : {r : Running} → r.server.running ≡ false → Left r
  failed : {r : Running} {h : List Answered} → r.answered ≡ wait_answer broken ∷ h → Left r

pub Drained : Outcome → Type 0
Drained (returned r) = Kept r
Drained (spent r) = Kept r
Drained faulted = ⊥

pub Ran : Outcome → Type 0
Ran (returned r) = Kept r × Left r
Ran (spent r) = Kept r
Ran faulted = ⊥

module _ (k : RingKernel) (law : Lawful k) where
  for_each_cqe-Drained : (f : ℕ) (r : Running) → Kept r → Drained (for_each_cqe k f r)
  unfolding for_each_cqe Drained
  for_each_cqe-Drained zero r p = p
  for_each_cqe-Drained (suc f) r p = elim (Option-cases (k.next_cqe r.answered r.server)) [
    | inl empty ↦ rw (empty, for_each_cqe) (record { inv = p.inv; steps = p.steps })
    | inr some_e ↦
        let (e, q) = some_e in
        let (s', handled, v, t) =
          complete-Kept k.ring e r.server (law.in_flight r.answered r.server e q)
            (law.permitted r.answered r.server e q) p.inv p.steps in
        rw (q, handled, for_each_cqe) (for_each_cqe-Drained f _ (record { inv = v; steps = t }))
  ]

  wait_once-Kept : (r : Running) → Kept r → Kept (wait_once k r).1
  unfolding wait_once
  wait_once-Kept r p = record {
    inv = record {
      distinct = p.inv.distinct;
      fresh = p.inv.fresh;
      in_flight = p.inv.in_flight;
      driven = p.inv.driven;
      single = p.inv.single;
    };
    steps = p.steps;
  }

  -- The rest of a round, after the completion queue was drained.
  after_drain :
      (out : Outcome) (rest : Running → Outcome)
      → Drained out
      → ((r : Running) → Kept r → Ran (rest r))
      → Ran (elim out as (λ _. Outcome) [
        | faulted ↦ faulted
        | spent r ↦ spent r
        | returned r ↦ rest r
      ])
  unfolding Drained Ran
  after_drain (returned r) rest d ih = ih r d
  after_drain (spent r) rest d ih = d
  after_drain faulted rest d ih = d

  broken_rc : (rc : Rc) → is_broken rc ≡ true → rc ≡ broken
  unfolding is_broken
  broken_rc waited h = cc h
  broken_rc interrupted h = cc h
  broken_rc broken h = refl

  rc_answered :
      (r : Running)
      → is_broken (wait_once k r).0 ≡ true
      → (wait_once k r).1.answered ≡ wait_answer broken ∷ r.answered
  unfolding wait_once
  rc_answered r b =
      ap (λ rc. wait_answer rc ∷ r.answered) (broken_rc (k.submit_and_wait r.answered r.server) b)

  run-Ran : (f : ℕ) (r : Running) → Kept r → Ran (run k f r)
  unfolding run Ran
  run-Ran zero r p = p
  run-Ran (suc f) r p = elim (Bool-cases r.server.running) [
    | inr stop ↦ rw (stop, run) (p, stopped stop)
    | inl go ↦ elim (Bool-cases (is_broken (wait_once k r).0)) [
      | inl b ↦
          rw (go, b, run)
            (wait_once-Kept r p, failed {r = (wait_once k r).1} {h = r.answered} (rc_answered r b))
      | inr ok ↦
          rw (go, ok, run)
            (after_drain (for_each_cqe k f (wait_once k r).1) (run k f)
              (for_each_cqe-Drained f (wait_once k r).1 (wait_once-Kept r p)) (run-Ran f))
    ]
  ]

-- From start(), over a kernel that completes operations in flight, run() uses no destroyed connection;
-- at every moment each connection has exactly one operation in flight and the sessions came about by
-- steps of an echo server; and run() returns only when running_ is false or io_uring_submit_and_wait
-- fails with another error than EINTR.
pub start-run-Ran :
    (k : RingKernel) (cfg : Config) (f : ℕ)
    → Lawful k
    → Ran (run k f (record { server = start k.ring cfg; answered = [] }))
unfolding sessions find
start-run-Ran k cfg f law = run-Ran k law f _ (record {
  inv = start-InvOf k.ring cfg;
  steps = subst (λ cs. Steps nobody (sessions cs)) (sym (start-connections k.ring cfg)) done;
})
