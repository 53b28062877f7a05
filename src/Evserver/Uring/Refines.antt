-- ===== src/Evserver/Uring/Refines.antt =====
-- Runs of evserver/src/server_uring.cpp read as steps of the sessions of Evserver.Echo.
use mathlib.Core.Path.{subst}
use linux_internals.Evserver.Server.{Config}
use linux_internals.Evserver.Uring.Safety.{
  Permitted, Inv-remove, erase_absent, Mid-accept, send_law,
}
use linux_internals.Evserver.Uring.Sessions.{sessions, cons-Step}
use linux_internals.Evserver.Uring.Steps.{
  InvOf, next_sqe-At, queue_op-connections, submit_accept-connections, submit_accept-Inv,
}
use linux_internals.Evserver.Uring.Inv.{count_ops, OpOk, Inv, Mid}
use linux_internals.Evserver.Uring.Table.{id-find}
use linux_internals.Evserver.Echo.{Sessions, Steps, done, then}
use linux_internals.Prelude.{
  ℕ, ◌+◌, ◌≡◌, refl, sym, ◌∙◌, ◌≢◌, Option, none, some, List, [], ◌∷◌, ◌++◌, arith, replicate, All,
  All-mono, All-split,
}
use linux_internals.Evserver.Uring.{
  Op, accept_op, signal_op, recv_op, send_op, Conn, Ring, UringServer, find, next_sqe,
  submit_accept, submit_signal_poll, on_accept, Completion, signalled, accepted, received, sent,
  op_of, handle_completion, start,
}
use linux_internals.Evserver.Uring.Changes.{submit_recv-Steps, on_recv-Steps, on_send-Steps}

on_accept-Steps :
    (ring : Ring) (r : Option ℕ) (s : UringServer)
    → Permitted (accepted r) s.connections
    → InvOf s
    → Steps (sessions s.connections) (sessions (on_accept ring r s).connections)
unfolding on_accept
on_accept-Steps ring none s p v =
    subst (λ cs. Steps (sessions s.connections) (sessions cs))
      (sym (submit_accept-connections ring s)) done
on_accept-Steps ring (some fd) s p v = rw (erase_absent fd s'.connections absent) (
    submit_recv-Steps (sessions s.connections) c ring _ (
      subst (λ cs. Steps (sessions cs) (sessions (c ∷ s'.connections))) same
          (then done (cons-Step s'.connections c unused refl)),
      entered.0,
      entered.1.distinct,
    ))
  where
    s' : UringServer
    s' = submit_accept ring s

    v' : InvOf s'
    v' = submit_accept-Inv ring s v

    same : s'.connections ≡ s.connections
    same = submit_accept-connections ring s

    absent : All (λ d. d.fd ≢ fd) s'.connections
    absent = rw same p

    c : Conn
    c = record {
      id = s'.next_id;
      fd = fd;
      buffer = replicate s'.cfg.buffer_size 0;
      pending = 0;
      delivered = [];
      returned = [];
    }

    unused : All (λ d. d.id ≢ s'.next_id) s'.connections
    unused = All-mono _ _ s'.connections (λ d l q. absurd (omega (arith, l, q))) v'.fresh

    entered :
        (find c.id (c ∷ s'.connections) ≡ some c)
        × Mid c.id (s'.next_id + 1) (c ∷ s'.connections) s'.outstanding
    entered = Mid-accept s'.next_id s'.connections s'.outstanding c refl absent v'

-- The steps to the state that a completion leads to, if it is handled.
abbrev pub StepsTo : Sessions → Option UringServer → Type 0
StepsTo ss none = Unit
StepsTo ss (some s) = Steps ss (sessions s.connections)

-- A completion that the kernel may report of an operation in flight is a sequence of such steps.
pub handle_completion-Steps :
    (ring : Ring) (e : Completion) (pre post : List Op) (s : UringServer)
    → s.outstanding ≡ pre ++ op_of e ∷ post
    → Permitted e s.connections
    → InvOf s
    → StepsTo
        (sessions s.connections)
        (handle_completion ring e (record s { outstanding = pre ++ post }))
unfolding handle_completion op_of
handle_completion-Steps ring signalled pre post s split p v = done
handle_completion-Steps ring (accepted r) pre post s split p v =
    on_accept-Steps ring r (record s { outstanding = pre ++ post }) p
      (Inv-remove s.next_id s.connections pre post accept_op (λ id. unfold count_ops in refl)
        (rw split at v))
handle_completion-Steps ring (received id r) pre post s split p v =
    let w = subst (Inv s.next_id s.connections) split v in
    let (c, e, idle) = (All-split (OpOk s.connections) pre (recv_op id) post w.in_flight).0 in
    let there : find c.id s.connections ≡ some c = rw (id-find id s.connections c e) e in
    rw e (on_recv-Steps ring c (record s { outstanding = pre ++ post }) there v.distinct r idle)
handle_completion-Steps ring (sent id r) pre post s split p v =
    let w = subst (Inv s.next_id s.connections) split v in
    let (c, e, owes) = (All-split (OpOk s.connections) pre (send_op id) post w.in_flight).0 in
    let there : find c.id s.connections ≡ some c = rw (id-find id s.connections c e) e in
    rw e (
      on_send-Steps ring c (record s { outstanding = pre ++ post }) there v.distinct r owes
        (λ n q. (send_law id r s.connections c p e n q).1))

submit_signal_poll-connections :
    (ring : Ring) (s : UringServer) → (submit_signal_poll ring s).connections ≡ s.connections
unfolding submit_signal_poll
submit_signal_poll-connections ring s =
    queue_op-connections ring signal_op (next_sqe ring s).0 (next_sqe ring s).1
    ∙ next_sqe-At ring (λ n cs ops. cs ≡ s.connections) s refl

pub start-connections : (ring : Ring) (cfg : Config) → (start ring cfg).connections ≡ []
unfolding start
start-connections ring cfg =
    submit_signal_poll-connections ring _ ∙ submit_accept-connections ring _
