-- ===== src/Evserver/Uring/Reacts.antt =====
-- Each completion that the io_uring server handles (evserver/src/server_uring.cpp), and its effect.
use mathlib.Core.Path.{subst}
use linux_internals.Prelude.{
  ℕ, ◌+◌, ◌-◌, ◌≤◌, ◌≡◌, refl, sym, ap, ◌∙◌, ◌≢◌, inl, inr, ◌&&◌, Option, none, some, List, [], ◌∷◌,
  ◌++◌, arith, ltb, Bool-cases, length, take, drop, replicate, All, length-take, All-mono,
  All-split, Text,
}
use linux_internals.Evserver.Uring.{
  Op, accept_op, recv_op, send_op, Conn, Ring, UringServer, find, update, close_connection,
  submit_accept, on_accept, on_recv, on_send, Completion, signalled, accepted, received, sent,
  op_of, handle_completion, start,
}
use linux_internals.Evserver.Echo.{Sessions}
use linux_internals.Evserver.Uring.Sessions.{
  session, sessions, found, erased, erase_others, update_others, update_here, sessions_unused,
  cons_others, cons_here,
}
use linux_internals.Evserver.Uring.Changes.{next_due}
use linux_internals.Evserver.Uring.Inv.{count_ops, Idle, Owes, OpOk, Inv, Mid}
use linux_internals.Evserver.Uring.Safety.{
  Permitted, Inv-remove, erase_absent, Mid-accept, send_law,
}
use linux_internals.Evserver.Uring.Steps.{InvOf, submit_accept-connections, submit_accept-Inv}
use linux_internals.Evserver.Uring.Runs.{Reach, reachable-Inv}
use linux_internals.Evserver.Uring.Table.{Distinct, id-find, find-update_self, Distinct-update}
use linux_internals.Evserver.Server.{Config}
use linux_internals.Evserver.Uring.Reactions.{
  blank, NoEntry, Effect, signal_ignored, accept_failed, accept_joins, accept_dropped, recv_heard,
  recv_dropped, recv_end, recv_error, send_said, send_dropped, send_error, Reacted, ReactedTo, Kept,
  reacted, Kept-Reacted, Here, submit_recv-Kept, submit_send-Kept,
}

module _ (ring : Ring) (c : Conn) (s : UringServer) (here : find c.id s.connections ≡ some c)
    (h : Distinct s.connections) where
  left :
      (e : Completion)
      → Effect ring c.id e (some (session c)) none
      → Reacted ring e (sessions s.connections) (sessions (close_connection c s).connections)
  unfolding close_connection
  left e f =
      reacted ring e c.id (some (session c)) (sessions s.connections) (found s.connections c here)
        none _ (erase_others s.connections c here h) (erased s.connections c here h) f

  updated-Here :
      (d : Conn)
      → d.id ≡ c.id
      → c.fd ≡ d.fd
      → Here (sessions (update d s.connections)) d s.next_id (update d s.connections) s.outstanding
  updated-Here d i f =
      let e : find d.id s.connections ≡ some c = rw i here in
      (refl, find-update_self d s.connections c e, Distinct-update d s.connections c e f h)

  updated-Reacted :
      (e : Completion) (d : Conn) (ss' : Sessions)
      → d.id ≡ c.id
      → Effect ring c.id e (some (session c)) (some (session d))
      → (NoEntry ring → Effect ring c.id e (some (session c)) none)
      → Kept ring c.id (sessions (update d s.connections)) ss'
      → Reacted ring e (sessions s.connections) ss'
  updated-Reacted e d ss' i f g =
      Kept-Reacted ring e c.id (some (session c)) (sessions s.connections)
        (found s.connections c here) (some (session d)) (sessions (update d s.connections)) ss'
        (update_others s.connections c here d i) (update_here s.connections c here d i) f g

  on_recv-Reacted :
      (r : Option Text)
      → Idle c
      → Reacted ring
          (received c.id r)
          (sessions s.connections)
          (sessions (on_recv ring r c s).connections)
  unfolding on_recv
  on_recv-Reacted none i = left (received c.id none) recv_error
  on_recv-Reacted (some []) i = left (received c.id (some [])) recv_end
  on_recv-Reacted (some (b ∷ bs)) i =
      let bytes = b ∷ bs in
      let c' : Conn = record c {
        buffer = bytes ++ drop (length bytes) c.buffer;
        delivered = c.delivered ++ bytes;
      } in
      updated-Reacted (received c.id (some bytes)) c' _ refl (recv_heard i) (recv_dropped i)
        (submit_send-Kept ring _ c' (length bytes) _ (updated-Here c' refl refl))

  on_send-Reacted :
      (r : Option ℕ)
      → Owes c
      → ((n : ℕ) → r ≡ some n → n ≤ c.pending)
      → Reacted ring
          (sent c.id r)
          (sessions s.connections)
          (sessions (on_send ring r c s).connections)
  unfolding on_send
  on_send-Reacted none o law = left (sent c.id none) send_error
  on_send-Reacted (some n) o law =
      let out = record c { returned = c.returned ++ take n c.buffer } in
      let rest = c.pending - n in
      let moved = record out { buffer = take rest (drop n c.buffer) ++ drop rest c.buffer } in
      let small = law n refl in
      let size : length (take n c.buffer) ≡ n = omega (arith, length-take n c.buffer, small, o.1) in
      let said : Effect ring c.id (sent c.id (some n)) (some (session c)) (some (session out)) =
        subst (λ m. Effect ring c.id (sent c.id (some m)) (some (session c)) (some (session out)))
          size
          (send_said (take n c.buffer) (take rest (drop n c.buffer))
            (next_due ring c s here h n small o)) in
      elim (Bool-cases (ltb 0 n && ltb n c.pending)) [
        | inl short ↦ rw short (
            updated-Reacted (sent c.id (some n)) moved _ refl said send_dropped
              (submit_send-Kept ring _ moved rest _ (updated-Here moved refl refl)))
        | inr full ↦ rw full (
            updated-Reacted (sent c.id (some n)) out _ refl said send_dropped
              (submit_recv-Kept ring _ out _ (updated-Here out refl refl)))
      ]

on_accept-Reacted :
    (ring : Ring) (r : Option ℕ) (s : UringServer)
    → Permitted (accepted r) s.connections
    → InvOf s
    → Reacted ring (accepted r) (sessions s.connections) (sessions (on_accept ring r s).connections)
unfolding on_accept
on_accept-Reacted ring none s p v =
    subst (λ cs. Reacted ring (accepted none) (sessions s.connections) (sessions cs))
      (sym (submit_accept-connections ring s))
      (reacted ring (accepted none) 0 _ (sessions s.connections) refl _ (sessions s.connections)
        (λ j ne. refl) refl accept_failed)
on_accept-Reacted ring (some fd) s p v = rw (erase_absent fd s'.connections absent) (
    Kept-Reacted ring (accepted (some fd)) c.id none (sessions s.connections)
      (ap (λ (cs : List Conn). sessions cs c.id) (sym same)
        ∙ sessions_unused s'.connections c.id unused)
      (some blank) (sessions (c ∷ s'.connections)) _
      (λ j ne. cons_others s'.connections c j ne ∙ ap (λ (cs : List Conn). sessions cs j) same)
      (cons_here s'.connections c) accept_joins accept_dropped
      (submit_recv-Kept ring (sessions (c ∷ s'.connections)) c _
        (refl, entered.0, entered.1.distinct)))
  where
    s' : UringServer
    s' = submit_accept ring s

    v' : InvOf s'
    v' = submit_accept-Inv ring s v

    same : s'.connections ≡ s.connections
    same = submit_accept-connections ring s

    absent : All (λ d. d.fd ≢ fd) s'.connections
    absent = rw same p

    c : Conn
    c = record {
      id = s'.next_id;
      fd = fd;
      buffer = replicate s'.cfg.buffer_size 0;
      pending = 0;
      delivered = [];
      returned = [];
    }

    unused : All (λ d. d.id ≢ c.id) s'.connections
    unused = All-mono _ _ s'.connections (λ d l q. absurd (omega (arith, l, q))) v'.fresh

    entered :
        (find c.id (c ∷ s'.connections) ≡ some c)
        × Mid c.id (s'.next_id + 1) (c ∷ s'.connections) s'.outstanding
    entered = Mid-accept s'.next_id s'.connections s'.outstanding c refl absent v'

handle_completion-Reacted :
    (ring : Ring) (e : Completion) (pre post : List Op) (s : UringServer)
    → s.outstanding ≡ pre ++ op_of e ∷ post
    → Permitted e s.connections
    → InvOf s
    → ReactedTo ring e
        (sessions s.connections)
        (handle_completion ring e (record s { outstanding = pre ++ post }))
unfolding handle_completion op_of
handle_completion-Reacted ring signalled pre post s split p v =
    reacted ring signalled 0 _ (sessions s.connections) refl _ (sessions s.connections)
      (λ j ne. refl) refl signal_ignored
handle_completion-Reacted ring (accepted r) pre post s split p v =
    on_accept-Reacted ring r (record s { outstanding = pre ++ post }) p
      (Inv-remove s.next_id s.connections pre post accept_op (λ id. unfold count_ops in refl)
        (rw split at v))
handle_completion-Reacted ring (received id r) pre post s split p v =
    let w = subst (Inv s.next_id s.connections) split v in
    let (c, e, idle) = (All-split (OpOk s.connections) pre (recv_op id) post w.in_flight).0 in
    let there : find c.id s.connections ≡ some c = rw (id-find id s.connections c e) e in
    rw e (
      subst
        (λ i.
          Reacted ring (received i r) (sessions s.connections)
            (sessions (on_recv ring r c (record s { outstanding = pre ++ post })).connections))
        (id-find id s.connections c e)
        (on_recv-Reacted ring c (record s { outstanding = pre ++ post }) there v.distinct r idle))
handle_completion-Reacted ring (sent id r) pre post s split p v =
    let w = subst (Inv s.next_id s.connections) split v in
    let (c, e, owes) = (All-split (OpOk s.connections) pre (send_op id) post w.in_flight).0 in
    let there : find c.id s.connections ≡ some c = rw (id-find id s.connections c e) e in
    rw e (
      subst
        (λ i.
          Reacted ring (sent i r) (sessions s.connections)
            (sessions (on_send ring r c (record s { outstanding = pre ++ post })).connections))
        (id-find id s.connections c e)
        (on_send-Reacted ring c (record s { outstanding = pre ++ post }) there v.distinct r owes
          (λ n q. (send_law id r s.connections c p e n q).1)))

-- In every state reached, a completion that the kernel may report of an operation in flight is handled
-- without a use of a destroyed connection, and has its effect on the sessions: the session of an accepted
-- connection joins; one that bytes are received from had been answered in full, and has said those bytes;
-- one that n bytes are sent to is answered with the next n bytes of what it said; and a session leaves
-- only at the end of its stream, on an error, or over a ring that can run out of entries. All
-- other sessions stay as they are.
pub reachable-Reacted :
    (ring : Ring) (cfg : Config) (s : UringServer) (e : Completion) (pre post : List Op)
    → Reach ring (start ring cfg) s
    → s.outstanding ≡ pre ++ op_of e ∷ post
    → Permitted e s.connections
    → ReactedTo ring e
        (sessions s.connections)
        (handle_completion ring e (record s { outstanding = pre ++ post }))
reachable-Reacted ring cfg s e pre post r split p =
    handle_completion-Reacted ring e pre post s split p (reachable-Inv ring cfg s r)
