-- ===== src/Evserver/Uring/Inv.antt =====
-- evserver/src/server_uring.cpp: what holds of connections_ and of the operations in flight.
use linux_internals.Prelude.{
  ℕ, ◌+◌, ◌≤◌, ◌<◌, ◌≡◌, sym, ap, ◌∙◌, ◌≢◌, inl, inr, some, List, [], ◌∷◌, ◌++◌, arith, ◌==◌,
  if◌then◌else◌, ==_iff, Bool-cases, length, take, All, All-mono, All-zip,
}
use linux_internals.Evserver.Uring.{
  Op, accept_op, signal_op, recv_op, send_op, Conn, find, update, erase,
}
use linux_internals.Evserver.Uring.Table.{
  Distinct, clash, All-find, All-erase, All-update, Distinct-erase, find-erase_self, find_ne-fd,
  find-erase_ne, find-update_self, find-update_ne, Distinct-update,
}

-- Operations in flight for a connection.
unfoldable pub count_ops : ℕ → List Op → ℕ
count_ops id [] = 0
count_ops id (recv_op j ∷ ops) = (if j == id then 1 else 0) + count_ops id ops
count_ops id (send_op j ∷ ops) = (if j == id then 1 else 0) + count_ops id ops
count_ops id (op ∷ ops) = count_ops id ops

-- While a receive is in flight all that was delivered has been returned; while a send is, the first
-- `pending` bytes of the buffer are what is still due.
abbrev pub Idle : Conn → Type 0
Idle c = c.delivered ≡ c.returned

abbrev pub Owes : Conn → Type 0
Owes c =
    (c.delivered ≡ c.returned ++ take c.pending c.buffer)
    × (c.pending ≤ length c.buffer)
    × (0 < c.pending)

-- The connection of an op in flight is there, in the state that the op needs.
abbrev pub OpOk : List Conn → Op → Type 0
OpOk cs (recv_op id) = (c : Conn) × (find id cs ≡ some c) × Idle c
OpOk cs (send_op id) = (c : Conn) × (find id cs ≡ some c) × Owes c
OpOk cs _ = Unit

pub record Inv (next : ℕ) (cs : List Conn) (ops : List Op) : Type 0 where
  pub distinct : Distinct cs
  pub fresh : All (λ c. c.id < next) cs
  pub in_flight : All (OpOk cs) ops
  pub driven : All (λ c. count_ops c.id ops ≡ 1) cs
  pub single : (id : ℕ) → count_ops id ops ≤ 1

-- The same while the completion of `id`'s operation is handled.
pub record Mid (id next : ℕ) (cs : List Conn) (ops : List Op) : Type 0 where
  pub distinct : Distinct cs
  pub fresh : All (λ c. c.id < next) cs
  pub in_flight : All (OpOk cs) ops
  pub none_left : count_ops id ops ≡ 0
  pub driven : All (λ c. c.id ≢ id → count_ops c.id ops ≡ 1) cs
  pub single : (j : ℕ) → count_ops j ops ≤ 1

-- Other connections' operations do not notice a change of one connection.
pub in_flight-other :
    (id : ℕ) (cs cs' : List Conn) (ops : List Op)
    → ((j : ℕ) (c : Conn) → j ≢ id → find j cs ≡ some c → find j cs' ≡ some c)
    → count_ops id ops ≡ 0
    → All (OpOk cs) ops
    → All (OpOk cs') ops
unfolding count_ops
in_flight-other id cs cs' [] keep z h = tt
in_flight-other id cs cs' (accept_op ∷ ops) keep z h =
    (tt, in_flight-other id cs cs' ops keep z h.1)
in_flight-other id cs cs' (signal_op ∷ ops) keep z h =
    (tt, in_flight-other id cs cs' ops keep z h.1)
in_flight-other id cs cs' (recv_op j ∷ ops) keep z h = (
  (h.0.0, keep j h.0.0 (ground arith) h.0.1, h.0.2),
  in_flight-other id cs cs' ops keep (ground arith) h.1,
)
in_flight-other id cs cs' (send_op j ∷ ops) keep z h = (
  (h.0.0, keep j h.0.0 (ground arith) h.0.1, h.0.2),
  in_flight-other id cs cs' ops keep (ground arith) h.1,
)

module _ (next : ℕ) (cs : List Conn) (ops : List Op) (c : Conn) (here : find c.id cs ≡ some c) where
  pub Mid-close : Mid c.id next cs ops → Inv next (erase c.fd cs) ops
  Mid-close m = record {
    distinct = Distinct-erase c.fd cs m.distinct;
    fresh = All-erase _ c.fd cs m.fresh;
    in_flight =
        in_flight-other c.id cs (erase c.fd cs) ops
          (λ j d ne e. find-erase_ne j c.fd cs d e (find_ne-fd j c.id cs d c m.distinct e here ne))
          m.none_left m.in_flight;
    driven =
        All-mono _ _ (erase c.fd cs) (λ x p. p.0 p.1)
          (All-zip _ _ (erase c.fd cs) (All-erase _ c.fd cs m.driven)
            (find-erase_self c.id cs c m.distinct here));
    single = m.single;
  }

  counts :
      (d : Conn)
      → (d.id ≢ c.id → count_ops d.id ops ≡ 1)
      → count_ops c.id ops ≡ 0
      → ((if c.id == d.id then 1 else 0) + count_ops d.id ops ≡ 1)
  counts d h z = elim (Bool-cases (c.id == d.id)) [
    | inl e ↦ rw e (omega (arith, ap (λ (i : ℕ). count_ops i ops) ((==_iff c.id d.id).0 e)))
    | inr n ↦ rw n (omega (arith, h (λ q. absurd (clash ((==_iff c.id d.id).1 (sym q)) n))))
  ]

  at_most_one :
      (j : ℕ)
      → count_ops c.id ops ≡ 0
      → count_ops j ops ≤ 1
      → (if c.id == j then 1 else 0) + count_ops j ops ≤ 1
  at_most_one j z s = elim (Bool-cases (c.id == j)) [
    | inl e ↦ rw e (omega (arith, ap (λ (i : ℕ). count_ops i ops) ((==_iff c.id j).0 e)))
    | inr n ↦ rw n (omega arith)
  ]

  pub Mid-recv : Mid c.id next cs ops → Idle c → Inv next cs (recv_op c.id ∷ ops)
  unfolding count_ops
  Mid-recv m i = record {
    distinct = m.distinct;
    fresh = m.fresh;
    in_flight = ((c, here, i), m.in_flight);
    driven = All-mono _ _ cs (λ d h. counts d h m.none_left) m.driven;
    single = λ j. at_most_one j m.none_left (m.single j);
  }

  pub Mid-send : Mid c.id next cs ops → Owes c → Inv next cs (send_op c.id ∷ ops)
  unfolding count_ops
  Mid-send m i = record {
    distinct = m.distinct;
    fresh = m.fresh;
    in_flight = ((c, here, i), m.in_flight);
    driven = All-mono _ _ cs (λ d h. counts d h m.none_left) m.driven;
    single = λ j. at_most_one j m.none_left (m.single j);
  }

  found_as : (d : Conn) → d.id ≡ c.id → find d.id cs ≡ some c
  found_as d i = rw i here

  pub Mid-update :
      (d : Conn)
      → d.id ≡ c.id
      → c.fd ≡ d.fd
      → Mid c.id next cs ops
      → Mid c.id next (update d cs) ops
  Mid-update d i f m = record {
    distinct = Distinct-update d cs c (found_as d i) f m.distinct;
    fresh = All-update _ d cs (rw i (All-find (λ x. x.id < next) c.id cs c m.fresh here)) m.fresh;
    in_flight =
        in_flight-other c.id cs (update d cs) ops
          (λ j x ne e. find-update_ne j d cs (λ q. ne (q ∙ i)) ∙ e) m.none_left m.in_flight;
    none_left = m.none_left;
    driven = All-update _ d cs (λ ne. absurd (ne i)) m.driven;
    single = m.single;
  }

  pub find-updated : (d : Conn) → d.id ≡ c.id → find d.id (update d cs) ≡ some d
  find-updated d i = find-update_self d cs c (found_as d i)
