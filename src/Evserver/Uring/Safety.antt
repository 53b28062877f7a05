-- ===== src/Evserver/Uring/Safety.antt =====
-- Completions of evserver/src/server_uring.cpp that the kernel may report, and the invariant.

use linux_internals.Evserver.Uring.Steps.{
  InvOf, submit_recv-Inv, submit_accept-connections, submit_accept-Inv, on_recv-Inv, on_send-Inv,
}
use mathlib.Core.Path.{subst}
use mathlib.Core.Option
use linux_internals.Prelude.{
  ℕ, ◌+◌, ◌≤◌, ◌<◌, ◌≡◌, refl, sym, ap, ◌≢◌, false, Option, none, some, List, [], ◌∷◌, ◌++◌, arith,
  ◌==◌, if◌then◌else◌, ==_refl, replicate, All, All-mono, All-zip, All-split,
}
use linux_internals.Evserver.Uring.{
  Op, accept_op, signal_op, recv_op, send_op, Conn, Ring, UringServer, find, erase, submit_accept,
  on_accept, on_recv, on_send, Completion, signalled, accepted, received, sent, op_of,
  handle_completion,
}
use linux_internals.Evserver.Uring.Table.{==_false, All-find, id-find}
use linux_internals.Evserver.Uring.Inv.{count_ops, OpOk, Inv, Mid, in_flight-other}

-- What the kernel may report: an accepted descriptor is not one that is open, and a send of some
-- bytes takes at least one of them and no more than all.
abbrev pub Permitted : Completion → List Conn → Type 0
Permitted (accepted (some fd)) cs = All (λ c. c.fd ≢ fd) cs
Permitted (sent id (some n)) cs = (c : Conn) → find id cs ≡ some c → (0 < n) × (n ≤ c.pending)
Permitted _ cs = Unit

count_ops-split :
    (id : ℕ) (pre : List Op) (op : Op) (post : List Op)
    → count_ops id (pre ++ op ∷ post) ≡ count_ops id (op ∷ []) + count_ops id (pre ++ post)
unfolding count_ops
count_ops-split id [] accept_op post = omega arith
count_ops-split id [] signal_op post = omega arith
count_ops-split id [] (recv_op j) post = omega arith
count_ops-split id [] (send_op j) post = omega arith
count_ops-split id (accept_op ∷ pre) op post = count_ops-split id pre op post
count_ops-split id (signal_op ∷ pre) op post = count_ops-split id pre op post
count_ops-split id (recv_op j ∷ pre) op post = omega (arith, count_ops-split id pre op post)
count_ops-split id (send_op j ∷ pre) op post = omega (arith, count_ops-split id pre op post)

older :
    (id : ℕ) (cs : List Conn) (j : ℕ) (c : Conn)
    → All (λ c. c.id < id) cs
    → find j cs ≡ some c
    → (j == id) ≡ false
older id cs j c f e =
    ==_false j id
      (λ q. absurd (omega (arith, All-find (λ c. c.id < id) j cs c f e, id-find j cs c e, q)))

module _ (next : ℕ) (cs : List Conn) (pre post : List Op) where
  -- The completed op belonged to no connection.
  pub Inv-remove :
      (op : Op)
      → ((id : ℕ) → count_ops id (op ∷ []) ≡ 0)
      → Inv next cs (pre ++ op ∷ post)
      → Inv next cs (pre ++ post)
  Inv-remove op z v = record {
    distinct = v.distinct;
    fresh = v.fresh;
    in_flight = (All-split (OpOk cs) pre op post v.in_flight).1;
    driven =
        All-mono _ _ cs (λ c h. omega (arith, count_ops-split c.id pre op post, z c.id)) v.driven;
    single = λ id. omega (arith, count_ops-split id pre op post, v.single id);
  }

  -- The completed op was the one of `id`.
  Mid-remove :
      (op : Op) (id : ℕ)
      → ((j : ℕ) → count_ops j (op ∷ []) ≡ (if id == j then 1 else 0))
      → Inv next cs (pre ++ op ∷ post)
      → Mid id next cs (pre ++ post)
  Mid-remove op id z v = record {
    distinct = v.distinct;
    fresh = v.fresh;
    in_flight = (All-split (OpOk cs) pre op post v.in_flight).1;
    none_left = ground (arith, count_ops-split id pre op post, z id, v.single id);
    driven =
        All-mono _ _ cs
          (λ c h ne.
            ground
              (arith, count_ops-split c.id pre op post, z c.id, ==_false id c.id (λ q. ne (sym q))))
          v.driven;
    single = λ j. omega (arith, count_ops-split j pre op post, v.single j);
  }

pub erase_absent : (fd : ℕ) (cs : List Conn) → All (λ c. c.fd ≢ fd) cs → erase fd cs ≡ cs
unfolding erase
erase_absent fd [] h = refl
erase_absent fd (c ∷ cs) h = rw (==_false c.fd fd h.0) (ap (◌∷◌ c) (erase_absent fd cs h.1))

-- No op is in flight for an identity that was not given out yet.
count_ops_fresh :
    (id : ℕ) (cs : List Conn) (ops : List Op)
    → All (λ c. c.id < id) cs
    → All (OpOk cs) ops
    → count_ops id ops ≡ 0
unfolding count_ops
count_ops_fresh id cs [] f h = refl
count_ops_fresh id cs (accept_op ∷ ops) f h = count_ops_fresh id cs ops f h.1
count_ops_fresh id cs (signal_op ∷ ops) f h = count_ops_fresh id cs ops f h.1
count_ops_fresh id cs (recv_op j ∷ ops) f h =
    ground (arith, count_ops_fresh id cs ops f h.1, older id cs j h.0.0 f h.0.1)
count_ops_fresh id cs (send_op j ∷ ops) f h =
    ground (arith, count_ops_fresh id cs ops f h.1, older id cs j h.0.0 f h.0.1)

-- A connection that was just accepted, with no op yet.
pub Mid-accept :
    (next : ℕ) (cs : List Conn) (ops : List Op) (c : Conn)
    → c.id ≡ next
    → All (λ d. d.fd ≢ c.fd) cs
    → Inv next cs ops
    → (find c.id (c ∷ cs) ≡ some c) × Mid c.id (next + 1) (c ∷ cs) ops
unfolding find
Mid-accept next cs ops c i absent v = (
  rw (==_refl c.id),
  record {
    distinct = (
      All-mono _ _ cs (λ d p. (p.0, λ q. absurd (omega (arith, p.1, i, q))))
          (All-zip _ _ cs absent v.fresh),
      v.distinct,
    );
    fresh = (omega arith, All-mono _ _ cs (λ d h. omega arith) v.fresh);
    in_flight =
        in_flight-other c.id cs (c ∷ cs) ops (λ j d ne e. rw (==_false c.id j (λ q. ne (sym q))) e)
          unused v.in_flight;
    none_left = unused;
    driven = ((λ ne. absurd (ne refl)), All-mono _ _ cs (λ d h _. h) v.driven);
    single = v.single;
  },
)
  where
    unused : count_ops c.id ops ≡ 0
    unused = rw i (count_ops_fresh next cs ops v.fresh v.in_flight)

one_recv : (id j : ℕ) → count_ops j (recv_op id ∷ []) ≡ (if id == j then 1 else 0)
unfolding count_ops
one_recv id j = ground arith

one_send : (id j : ℕ) → count_ops j (send_op id ∷ []) ≡ (if id == j then 1 else 0)
unfolding count_ops
one_send id j = ground arith

pub send_law :
    (id : ℕ) (r : Option ℕ) (cs : List Conn) (c : Conn)
    → Permitted (sent id r) cs
    → find id cs ≡ some c
    → (n : ℕ) → r ≡ some n
    → (0 < n) × (n ≤ c.pending)
send_law id none cs c p e n h = cc
send_law id (some m) cs c p e n h = let same : m ≡ n = cc in rw (← same) (p c e)

module _ (ring : Ring) where
  on_accept-Inv :
      (r : Option ℕ) (s : UringServer)
      → Permitted (accepted r) s.connections
      → InvOf s
      → InvOf (on_accept ring r s)
  unfolding on_accept
  on_accept-Inv none s p v = submit_accept-Inv ring s v
  on_accept-Inv (some fd) s p v = rw (erase_absent fd s'.connections absent) (
      submit_recv-Inv ring c _
        (Mid-accept s'.next_id s'.connections s'.outstanding c refl absent v').0
        (Mid-accept s'.next_id s'.connections s'.outstanding c refl absent v').1 refl)
    where
      s' : UringServer
      s' = submit_accept ring s

      v' : InvOf s'
      v' = submit_accept-Inv ring s v

      absent : All (λ d. d.fd ≢ fd) s'.connections
      absent = rw (submit_accept-connections ring s) p

      c : Conn
      c = record {
        id = s'.next_id;
        fd = fd;
        buffer = replicate s'.cfg.buffer_size 0;
        pending = 0;
        delivered = [];
        returned = [];
      }

  -- From a state that satisfies the invariant, any completion that the kernel may report of an
  -- operation in flight is handled without touching a destroyed connection, and keeps the invariant.
  pub handle_completion-Inv :
      (e : Completion) (pre post : List Op) (s : UringServer)
      → s.outstanding ≡ pre ++ op_of e ∷ post
      → Permitted e s.connections
      → InvOf s
      → (s' : UringServer) × (handle_completion ring e (record s { outstanding = pre ++ post })
          ≡ some s')
        × InvOf s'
  unfolding handle_completion op_of
  handle_completion-Inv signalled pre post s split p v = (
    record s { outstanding = pre ++ post; running = false },
    refl,
    Inv-remove s.next_id s.connections pre post signal_op (λ id. unfold count_ops in refl)
        (rw split at v),
  )
  handle_completion-Inv (accepted r) pre post s split p v = (
    on_accept ring r (record s { outstanding = pre ++ post }),
    refl,
    on_accept-Inv r (record s { outstanding = pre ++ post }) p
        (Inv-remove s.next_id s.connections pre post accept_op (λ id. unfold count_ops in refl)
          (rw split at v)),
  )
  handle_completion-Inv (received id r) pre post s split p v =
      let w = subst (Inv s.next_id s.connections) split v in
      let (c, e, idle) = (All-split (OpOk s.connections) pre (recv_op id) post w.in_flight).0 in
      let same = id-find id s.connections c e in
      (
        on_recv ring r c (record s { outstanding = pre ++ post }),
        ap (Option.map (λ c. on_recv ring r c (record s { outstanding = pre ++ post }))) e,
        on_recv-Inv ring r c (record s { outstanding = pre ++ post }) (rw same e)
            (rw same
              (Mid-remove s.next_id s.connections pre post (recv_op id) id (λ j. one_recv id j) w))
            idle,
      )
  handle_completion-Inv (sent id r) pre post s split p v =
      let w = subst (Inv s.next_id s.connections) split v in
      let (c, e, owes) = (All-split (OpOk s.connections) pre (send_op id) post w.in_flight).0 in
      let same = id-find id s.connections c e in
      (
        on_send ring r c (record s { outstanding = pre ++ post }),
        ap (Option.map (λ c. on_send ring r c (record s { outstanding = pre ++ post }))) e,
        on_send-Inv ring r c (record s { outstanding = pre ++ post }) (rw same e)
            (rw same
              (Mid-remove s.next_id s.connections pre post (send_op id) id (λ j. one_send id j) w))
            owes (send_law id r s.connections c p e),
      )
