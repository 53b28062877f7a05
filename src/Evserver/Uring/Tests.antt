-- ===== src/Evserver/Uring/Tests.antt =====
-- Runs of the io_uring server, and its theorems at inputs that meet their hypotheses.
use linux_internals.Evserver.Uring.Reacts.{reachable-Reacted}
use linux_internals.Evserver.Uring.Reactions.{ReactedTo}
use linux_internals.Evserver.Uring.Sessions.{sessions}
use linux_internals.Evserver.Uring.Loop.Echoes.{is_in_flight, Lawful, Ran, start-run-Ran}
use linux_internals.Evserver.Uring.Loop.{waited, RingKernel, op_eq, run}
use linux_internals.Prelude.{
  ◌≡◌, refl, sym, ◌≢◌, true, Option, none, some, List, [], ◌∷◌, ◌++◌, arith, ==_refl, codes,
}
use linux_internals.Evserver.Server.{Config, default_config}
use linux_internals.Evserver.Uring.{
  Op, accept_op, signal_op, recv_op, send_op, Conn, Ring, UringServer, find, update, erase,
  queue_op, queue_recv, queue_send, get_sqe, or_flushed, next_sqe, submit_accept,
  submit_signal_poll, submit_recv, submit_send, on_accept, on_recv, on_send, Completion, accepted,
  received, sent, op_of, handle_completion, start,
}
use linux_internals.Evserver.Uring.Steps.{InvOf}
use linux_internals.Evserver.Uring.Safety.{Permitted}
use linux_internals.Evserver.Uring.Runs.{Reach, here, next, reachable-Inv, reachable_no_fault}

-- A ring that always has room.
abbrev roomy : Ring
roomy calls = true

abbrev small : Config
small = record default_config { buffer_size = 4 }

after : Completion → List Op → UringServer → UringServer
after e rest s = elim (handle_completion roomy e (record s { outstanding = rest })) [
  | none ↦ s
  | some s' ↦ s'
]

-- A client on descriptor 7 is accepted; it sends "hi"; one byte of the answer goes out.
abbrev connected : UringServer
connected = after (accepted (some 7)) (signal_op ∷ []) (start roomy small)

abbrev asked : UringServer
asked = after (received 0 (some (codes "hi"))) (accept_op ∷ signal_op ∷ []) connected

abbrev answering : UringServer
answering = after (sent 0 (some 1)) (accept_op ∷ signal_op ∷ []) asked

abbrev answering_conn : Conn
answering_conn = record {
  id = 0;
  fd = 7;
  buffer = codes "ii" ++ 0 ∷ 0 ∷ [];
  pending = 1;
  delivered = codes "hi";
  returned = codes "h";
}

answering_connections : answering.connections ≡ answering_conn ∷ []
unfolding after handle_completion start on_accept on_recv on_send submit_accept submit_signal_poll
    submit_recv submit_send next_sqe get_sqe or_flushed queue_op queue_recv queue_send find update
    erase
answering_connections = refl

connected-Reach : Reach roomy (start roomy small) connected
unfolding after handle_completion start on_accept submit_accept submit_signal_poll submit_recv
    next_sqe get_sqe or_flushed queue_op queue_recv op_of erase
connected-Reach = next (accepted (some 7)) (signal_op ∷ []) [] here refl tt refl

asked-Reach : Reach roomy (start roomy small) asked
unfolding after handle_completion start on_accept on_recv submit_accept submit_signal_poll
    submit_recv submit_send next_sqe get_sqe or_flushed queue_op queue_recv queue_send find update
    op_of erase
asked-Reach =
    next (received 0 (some (codes "hi"))) [] (accept_op ∷ signal_op ∷ []) connected-Reach refl tt
      refl

reachable-Inv_example : InvOf asked
reachable-Inv_example = reachable-Inv roomy small asked asked-Reach

asked-Permitted : Permitted (sent 0 (some 1)) asked.connections
unfolding after handle_completion start on_accept on_recv submit_accept submit_signal_poll
    submit_recv submit_send next_sqe get_sqe or_flushed queue_op queue_recv queue_send find update
    op_of erase
asked-Permitted c e = ground arith

asked_ops : asked.outstanding ≡ [] ++ op_of (sent 0 (some 1)) ∷ accept_op ∷ signal_op ∷ []
unfolding after handle_completion start on_accept on_recv submit_accept submit_signal_poll
    submit_recv submit_send next_sqe get_sqe or_flushed queue_op queue_recv queue_send find update
    op_of erase
asked_ops = refl

reachable_no_fault_example :
    handle_completion roomy
      (sent 0 (some 1))
      (record asked { outstanding = accept_op ∷ signal_op ∷ [] })
    ≢ none
reachable_no_fault_example =
    reachable_no_fault roomy small asked (sent 0 (some 1)) [] (accept_op ∷ signal_op ∷ [])
      asked-Reach asked_ops asked-Permitted

reachable-Reacted_example : ReactedTo roomy (sent 0 (some 1)) (sessions asked.connections) (
    handle_completion roomy
      (sent 0 (some 1))
      (record asked { outstanding = [] ++ (accept_op ∷ signal_op ∷ []) }))
reachable-Reacted_example =
    reachable-Reacted roomy small asked (sent 0 (some 1)) [] (accept_op ∷ signal_op ∷ [])
      asked-Reach asked_ops asked-Permitted

-- A kernel that accepts one client at a time, lets it say "hi" and then breaks its connection.
pick : List Op → List Conn → Option Completion
pick [] cs = none
pick (signal_op ∷ ops) cs = pick ops cs
pick (accept_op ∷ ops) [] = some (accepted (some 7))
pick (accept_op ∷ ops) (c ∷ cs) = none
pick (recv_op id ∷ ops) cs = some (received id (some (codes "hi")))
pick (send_op id ∷ ops) cs = some (sent id none)

past_signal :
    (op : Op) (ops : List Op)
    → is_in_flight op ops ≡ true
    → is_in_flight op (signal_op ∷ ops) ≡ true
unfolding is_in_flight op_eq
past_signal accept_op ops h = h
past_signal signal_op ops h = refl
past_signal (recv_op i) ops h = h
past_signal (send_op i) ops h = h

pick_in_flight :
    (ops : List Op) (cs : List Conn) (e : Completion)
    → pick ops cs ≡ some e
    → is_in_flight (op_of e) ops ≡ true
unfolding pick is_in_flight op_eq op_of
pick_in_flight [] cs e h = cc h
pick_in_flight (signal_op ∷ ops) cs e h = past_signal (op_of e) ops (pick_in_flight ops cs e h)
pick_in_flight (accept_op ∷ ops) [] e h = let q : accepted (some 7) ≡ e = cc h in rw (sym q) refl
pick_in_flight (accept_op ∷ ops) (c ∷ cs) e h = cc h
pick_in_flight (recv_op id ∷ ops) cs e h =
    let q : received id (some (codes "hi")) ≡ e = cc h in rw (sym q, ==_refl id) refl
pick_in_flight (send_op id ∷ ops) cs e h =
    let q : sent id none ≡ e = cc h in rw (sym q, ==_refl id) refl

pick-Permitted :
    (ops : List Op) (cs : List Conn) (e : Completion) → pick ops cs ≡ some e → Permitted e cs
unfolding pick
pick-Permitted [] cs e h = absurd (cc h)
pick-Permitted (signal_op ∷ ops) cs e h = pick-Permitted ops cs e h
pick-Permitted (accept_op ∷ ops) [] e h = let q : accepted (some 7) ≡ e = cc h in rw (sym q) tt
pick-Permitted (accept_op ∷ ops) (c ∷ cs) e h = absurd (cc h)
pick-Permitted (recv_op id ∷ ops) cs e h =
    let q : received id (some (codes "hi")) ≡ e = cc h in rw (sym q) tt
pick-Permitted (send_op id ∷ ops) cs e h = let q : sent id none ≡ e = cc h in rw (sym q) tt

abbrev one_client : RingKernel
one_client = record {
  ring = roomy;
  submit_and_wait = λ h s. waited;
  next_cqe = λ h s. pick s.outstanding s.connections;
}

one_client-Lawful : Lawful one_client
one_client-Lawful = record {
  in_flight = λ h s e q. pick_in_flight s.outstanding s.connections e q;
  permitted = λ h s e q. pick-Permitted s.outstanding s.connections e q;
}

start-run-Ran_example :
    Ran (run one_client 6 (record { server = start roomy small; answered = [] }))
start-run-Ran_example = start-run-Ran one_client small 6 one_client-Lawful
