-- ===== src/Evserver/Uring/Loop.antt =====
-- run() of evserver/src/server_uring.cpp. What the kernel answers is any function of what it answered
-- so far, the newest first, and of the server's state, which has the operations in flight. Both loops
-- take fuel.
pub mod Echoes
use linux_internals.Evserver.Stats.{bump_wait}
use linux_internals.Prelude.{
  ℕ, zero, suc, Bool, true, false, Option, none, some, List, [], ◌∷◌, ◌==◌, if◌then◌else◌,
}
use linux_internals.Evserver.Uring.{
  Op, accept_op, signal_op, recv_op, send_op, Ring, UringServer, Completion, op_of,
  handle_completion,
}

-- The result of io_uring_submit_and_wait: none below zero, -EINTR, or another error.
pub data Rc : Type 0 where
  waited interrupted broken : Rc

-- rc < 0 && rc != -EINTR
pub is_broken : Rc → Bool
is_broken broken = true
is_broken _ = false

-- An entry is a return of io_uring_submit_and_wait, or what the completion queue had: an entry, or none.
pub data Answered : Type 0 where
  wait_answer : Rc → Answered
  cqe_answer : Option Completion → Answered

pub record RingKernel : Type 0 where
  pub ring : Ring
  pub submit_and_wait : List Answered → UringServer → Rc
  -- the entry at the head of the completion queue, if it is not empty
  pub next_cqe : List Answered → UringServer → Option Completion

pub record Running : Type 0 where
  pub server : UringServer
  pub answered : List Answered

-- How a loop ends: `faulted` is a use of a connection that was destroyed.
pub data Outcome : Type 0 where
  returned : Running → Outcome
  spent : Running → Outcome
  faulted : Outcome

unfoldable pub op_eq : Op → Op → Bool
op_eq accept_op accept_op = true
op_eq signal_op signal_op = true
op_eq (recv_op i) (recv_op j) = i == j
op_eq (send_op i) (send_op j) = i == j
op_eq _ _ = false

-- A completion takes its operation out of those in flight.
pub remove_op : Op → List Op → List Op
remove_op op [] = []
remove_op op (o ∷ ops) = let rest = remove_op op ops in if op_eq o op then ops else o ∷ rest

pub complete : Ring → Completion → UringServer → Option UringServer
complete ring e s =
    handle_completion ring e (record s { outstanding = remove_op (op_of e) s.outstanding })

module _ (k : RingKernel) where
  -- io_uring_for_each_cqe with its body.
  pub for_each_cqe : ℕ → Running → Outcome
  for_each_cqe zero r = spent r
  for_each_cqe (suc f) r =
      let cqe = k.next_cqe r.answered r.server in
      let answered = cqe_answer cqe ∷ r.answered in
      elim cqe [
        | none ↦ returned (record r { answered = answered })
        | some e ↦ elim (complete k.ring e r.server) [
          | none ↦ faulted
          | some s ↦ for_each_cqe f (record { server = s; answered = answered })
        ]
      ]

  -- io_uring_submit_and_wait, with the counters that follow it.
  pub wait_once : Running → Rc × Running
  wait_once r =
      let rc = k.submit_and_wait r.answered r.server in
      let s = r.server in
      (
        rc,
        record {
          server = record s { stats = bump_wait s.stats };
          answered = wait_answer rc ∷ r.answered;
        },
      )

  pub run : ℕ → Running → Outcome
  run zero r = spent r
  run (suc f) r =
      let (rc, r') = wait_once r in
      let drained = for_each_cqe f r' in
      elim r.server.running [
        | false ↦ returned r
        | true ↦ elim (is_broken rc) [
          | true ↦ returned r'
          | false ↦ elim drained [
            | faulted ↦ faulted
            | spent r'' ↦ spent r''
            | returned r'' ↦ run f r''
          ]
        ]
      ]
