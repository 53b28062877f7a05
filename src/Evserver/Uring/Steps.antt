-- ===== src/Evserver/Uring/Steps.antt =====
-- What submitting an operation and closing a connection do to the invariant
-- (evserver/src/server_uring.cpp).

use linux_internals.Prelude.{
  ℕ, ◌+◌, ◌-◌, ◌≤◌, ◌<◌, ◌≡◌, refl, sym, ap, ◌∙◌, inl, inr, Bool, true, false, ◌&&◌, Option, none,
  some, List, [], ◌∷◌, ◌++◌, arith, ltb, Bool-cases, length, take, drop, length-append,
  take-length-append, length-take, length-drop, take-append-take, take-append-take_self, Text,
}
use mathlib.Core.List.{append_assoc}
use linux_internals.Evserver.Uring.{
  Op, accept_op, Conn, Ring, UringServer, find, update, close_connection, queue_op, queue_recv,
  queue_send, get_sqe, flushed, or_flushed, next_sqe, submit_accept, submit_recv, submit_send,
  on_recv, on_send,
}
use linux_internals.Evserver.Uring.Inv.{
  count_ops, Idle, Owes, Inv, Mid, Mid-close, Mid-recv, Mid-send, Mid-update, find-updated,
}

abbrev pub InvOf : UringServer → Type 0
InvOf s = Inv s.next_id s.connections s.outstanding

abbrev pub MidOf : ℕ → UringServer → Type 0
MidOf id s = Mid id s.next_id s.connections s.outstanding

-- memmove of the bytes not yet sent to the front of the buffer.
after_short :
    (buffer rest : Text) (p n : ℕ)
    → n < p
    → p ≤ length buffer
    → take p buffer ≡ take n buffer ++ take (p - n) (take (p - n) (drop n buffer) ++ rest)
after_short buffer rest p n h b =
    ap (λ (k : ℕ). take k buffer) total
    ∙ sym (take-append-take n (p - n) buffer)
    ∙ ap (◌++◌ (take n buffer)) (
        sym (
          take-append-take_self (p - n) (drop n buffer) rest (omega (arith, length-drop n buffer))))
  where
    total : p ≡ n + (p - n)
    total = omega arith

-- Asking for a queue entry changes the ring and a counter only.
module _ (ring : Ring) (P : ℕ → List Conn → List Op → Type 0) where
  abbrev At : UringServer → Type 0
  At s = P s.next_id s.connections s.outstanding

  or_flushed-At : (free : Bool) (s : UringServer) → At s → At (or_flushed ring free s).1
  unfolding or_flushed flushed get_sqe
  or_flushed-At true s h = h
  or_flushed-At false s h = h

  pub next_sqe-At : (s : UringServer) → At s → At (next_sqe ring s).1
  unfolding next_sqe get_sqe
  next_sqe-At s h = or_flushed-At (get_sqe ring s).0 (get_sqe ring s).1 h

queue_recv-Inv :
    (c : Conn) (free : Bool) (s : UringServer)
    → (find c.id s.connections ≡ some c) × MidOf c.id s
    → Idle c
    → InvOf (queue_recv c free s)
unfolding queue_recv close_connection
queue_recv-Inv c true s p i = Mid-recv s.next_id s.connections s.outstanding c p.0 p.1 i
queue_recv-Inv c false s p i = Mid-close s.next_id s.connections s.outstanding c p.0 p.1

queue_send-Inv :
    (c : Conn) (n : ℕ) (free : Bool) (s : UringServer)
    → (find c.id s.connections ≡ some c) × MidOf c.id s
    → Owes (record c { pending = n })
    → InvOf (queue_send c n free s)
unfolding queue_send close_connection
queue_send-Inv c n true s p i =
    let d = record c { pending = n } in
    Mid-send s.next_id (update d s.connections) s.outstanding d
      (find-updated s.next_id s.connections s.outstanding c p.0 d refl)
      (Mid-update s.next_id s.connections s.outstanding c p.0 d refl refl p.1) i
queue_send-Inv c n false s p i = Mid-close s.next_id s.connections s.outstanding c p.0 p.1

queue_accept-Inv : (free : Bool) (s : UringServer) → InvOf s → InvOf (queue_op accept_op free s)
unfolding queue_op count_ops
queue_accept-Inv true s v = record {
  distinct = v.distinct;
  fresh = v.fresh;
  in_flight = (tt, v.in_flight);
  driven = v.driven;
  single = v.single;
}
queue_accept-Inv false s v = v

module _ (ring : Ring) where
  pub submit_recv-Inv :
      (c : Conn) (s : UringServer)
      → find c.id s.connections ≡ some c
      → MidOf c.id s
      → Idle c
      → InvOf (submit_recv ring c s)
  unfolding submit_recv
  submit_recv-Inv c s e m i =
      queue_recv-Inv c (next_sqe ring s).0 (next_sqe ring s).1
        (next_sqe-At ring (λ n cs ops. (find c.id cs ≡ some c) × Mid c.id n cs ops) s (e, m)) i

  submit_send-Inv :
      (c : Conn) (n : ℕ) (s : UringServer)
      → find c.id s.connections ≡ some c
      → MidOf c.id s
      → Owes (record c { pending = n })
      → InvOf (submit_send ring c n s)
  unfolding submit_send
  submit_send-Inv c n s e m i =
      queue_send-Inv c n (next_sqe ring s).0 (next_sqe ring s).1
        (next_sqe-At ring (λ n cs ops. (find c.id cs ≡ some c) × Mid c.id n cs ops) s (e, m)) i

  pub queue_op-connections :
      (op : Op) (free : Bool) (s : UringServer) → (queue_op op free s).connections ≡ s.connections
  unfolding queue_op
  queue_op-connections op true s = refl
  queue_op-connections op false s = refl

  pub submit_accept-connections :
      (s : UringServer) → (submit_accept ring s).connections ≡ s.connections
  unfolding submit_accept
  submit_accept-connections s =
      queue_op-connections accept_op (next_sqe ring s).0 (next_sqe ring s).1
      ∙ next_sqe-At ring (λ n cs ops. cs ≡ s.connections) s refl

  pub submit_accept-Inv : (s : UringServer) → InvOf s → InvOf (submit_accept ring s)
  unfolding submit_accept
  submit_accept-Inv s v =
      queue_accept-Inv (next_sqe ring s).0 (next_sqe ring s).1 (next_sqe-At ring Inv s v)

  -- A receive's result: Idle before.
  pub on_recv-Inv :
      (r : Option Text) (c : Conn) (s : UringServer)
      → find c.id s.connections ≡ some c
      → MidOf c.id s
      → Idle c
      → InvOf (on_recv ring r c s)
  unfolding on_recv close_connection
  on_recv-Inv none c s e m i = Mid-close s.next_id s.connections s.outstanding c e m
  on_recv-Inv (some []) c s e m i = Mid-close s.next_id s.connections s.outstanding c e m
  on_recv-Inv (some (b ∷ bs)) c s e m i =
      let bytes = b ∷ bs in
      let c' : Conn = record c {
        buffer = bytes ++ drop (length bytes) c.buffer;
        delivered = c.delivered ++ bytes;
      } in
      submit_send-Inv c' (length bytes) _
        (find-updated s.next_id s.connections s.outstanding c e c' refl)
        (Mid-update s.next_id s.connections s.outstanding c e c' refl refl m)
        (
          ap (λ (t : Text). t ++ bytes) i
              ∙ ap (◌++◌ c.returned)
                  (sym (take-length-append bytes (drop (length bytes) c.buffer))),
          omega (arith, length-append bytes (drop (length bytes) c.buffer)),
          omega arith,
        )

  -- A short send leaves the rest due; a full one leaves the connection idle.
  pub on_send-Inv :
      (r : Option ℕ) (c : Conn) (s : UringServer)
      → find c.id s.connections ≡ some c
      → MidOf c.id s
      → Owes c
      → ((n : ℕ) → r ≡ some n → (0 < n) × (n ≤ c.pending))
      → InvOf (on_send ring r c s)
  unfolding on_send close_connection
  on_send-Inv none c s e m o law = Mid-close s.next_id s.connections s.outstanding c e m
  on_send-Inv (some n) c s e m o law = elim (Bool-cases (ltb 0 n && ltb n c.pending)) [
    | inl short ↦ rw short (
        submit_send-Inv moved left _
          (find-updated s.next_id s.connections s.outstanding c e moved refl)
          (Mid-update s.next_id s.connections s.outstanding c e moved refl refl m)
          (short_due (ground arith)))
    | inr full ↦ rw full (
        submit_recv-Inv out _ (find-updated s.next_id s.connections s.outstanding c e out refl)
          (Mid-update s.next_id s.connections s.outstanding c e out refl refl m)
          (o.0 ∙ ap (λ (k : ℕ). c.returned ++ take k c.buffer) (all_sent (law n refl) full)))
  ]
    where
      left : ℕ
      left = c.pending - n

      out : Conn
      out = record c { returned = c.returned ++ take n c.buffer }

      moved : Conn
      moved = record out { buffer = take left (drop n c.buffer) ++ drop left c.buffer }

      all_sent : (0 < n) × (n ≤ c.pending) → (ltb 0 n && ltb n c.pending) ≡ false → c.pending ≡ n
      all_sent b f = ground arith

      short_due : n < c.pending → Owes (record moved { pending = left })
      short_due h = (
        o.0
            ∙ ap (◌++◌ c.returned) (after_short c.buffer (drop left c.buffer) c.pending n h o.1)
            ∙ sym (append_assoc c.returned (take n c.buffer) _),
        omega (
          arith,
          length-append (take left (drop n c.buffer)) (drop left c.buffer),
          length-take left (drop n c.buffer),
          length-drop n c.buffer,
          o.1,
        ),
        omega arith,
      )
