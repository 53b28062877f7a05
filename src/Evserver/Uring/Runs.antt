-- ===== src/Evserver/Uring/Runs.antt =====
-- evserver/src/server_uring.cpp: the states that the server can reach from start().
use mathlib.Core.Path.{subst}
use linux_internals.Prelude.{
  ◌≡◌, ◌≢◌, Bool, true, false, Option, none, some, List, ◌∷◌, ◌++◌, arith,
}
use linux_internals.Evserver.Server.{Config}
use linux_internals.Evserver.Uring.{
  Op, signal_op, Ring, UringServer, queue_op, next_sqe, submit_signal_poll, Completion, op_of,
  handle_completion, start,
}
use linux_internals.Evserver.Uring.Inv.{count_ops, Inv}
use linux_internals.Evserver.Uring.Steps.{InvOf, next_sqe-At, submit_accept-Inv}
use linux_internals.Evserver.Uring.Safety.{Permitted, handle_completion-Inv}

-- One completion after another, in any order that the kernel may choose.
pub data Reach (ring : Ring) (s0 : UringServer) : UringServer → Type 0 where
  here : Reach ring s0 s0
  next :
      {s s' : UringServer} (e : Completion) (pre post : List Op)
      → Reach ring s0 s
      → s.outstanding ≡ pre ++ op_of e ∷ post
      → Permitted e s.connections
      → handle_completion ring e (record s { outstanding = pre ++ post }) ≡ some s'
      → Reach ring s0 s'

InvOf-some :
    (o : Option UringServer) (u s : UringServer) → o ≡ some u → o ≡ some s → InvOf u → InvOf s
InvOf-some o u s p q v = let same : u ≡ s = cc in subst InvOf same v

Reach-InvOf : (ring : Ring) (s0 s : UringServer) → InvOf s0 → Reach ring s0 s → InvOf s
Reach-InvOf ring s0 s v here = v
Reach-InvOf ring s0 s v (next {s = t} e pre post r split p h) =
    let (u, handled, w) =
      handle_completion-Inv ring e pre post t split p (Reach-InvOf ring s0 t v r) in
    InvOf-some _ u s handled h w

module _ (ring : Ring) where
  queue_signal-InvOf : (free : Bool) (s : UringServer) → InvOf s → InvOf (queue_op signal_op free s)
  unfolding queue_op count_ops
  queue_signal-InvOf true s v = record {
    distinct = v.distinct;
    fresh = v.fresh;
    in_flight = (tt, v.in_flight);
    driven = v.driven;
    single = v.single;
  }
  queue_signal-InvOf false s v = v

  pub start-InvOf : (cfg : Config) → InvOf (start ring cfg)
  unfolding start submit_signal_poll count_ops
  start-InvOf cfg = queue_signal-InvOf (next_sqe ring _).0 _ (
      next_sqe-At ring Inv _ (
        submit_accept-Inv ring _ (record {
          distinct = tt;
          fresh = tt;
          in_flight = tt;
          driven = tt;
          single = λ id. omega arith;
        })))

  -- In every state that the server reaches from start(): each connection has exactly one operation in
  -- flight, every operation in flight has its connection, and the bytes returned on a connection are
  -- the bytes delivered, less those of the send in flight.
  pub reachable-Inv : (cfg : Config) (s : UringServer) → Reach ring (start ring cfg) s → InvOf s
  reachable-Inv cfg s = Reach-InvOf ring (start ring cfg) s (start-InvOf cfg)

  -- In every such state a completion that the kernel may report of an operation in flight is handled:
  -- no connection that it uses has been destroyed.
  pub reachable_no_fault :
      (cfg : Config) (s : UringServer) (e : Completion) (pre post : List Op)
      → Reach ring (start ring cfg) s
      → s.outstanding ≡ pre ++ op_of e ∷ post
      → Permitted e s.connections
      → handle_completion ring e (record s { outstanding = pre ++ post }) ≢ none
  reachable_no_fault cfg s e pre post r split p fault =
      let (s', handled, _) =
        handle_completion-Inv ring e pre post s split p (reachable-Inv cfg s r) in
      cc
