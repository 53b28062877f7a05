-- ===== src/Evserver/Uring/Changes.antt =====
-- The completions of recv and send of evserver/src/server_uring.cpp, read as steps of sessions.
use mathlib.Core.Path.{subst}
use linux_internals.Evserver.Uring.Sessions.{
  session, sessions, erase-Step, update-Step, update_quiet,
}
use linux_internals.Evserver.Uring.Steps.{next_sqe-At}
use linux_internals.Evserver.Uring.Inv.{Idle, Owes}
use linux_internals.Evserver.Uring.Table.{Distinct, find-update_self, Distinct-update}
use linux_internals.Evserver.Echo.{Sessions, Change, hears, says, Steps, done, then}
use linux_internals.Prelude.{
  ℕ, ◌+◌, ◌-◌, ◌≤◌, ◌≡◌, refl, sym, ap, ◌∙◌, inl, inr, Bool, true, false, ◌&&◌, Option, none, some,
  List, [], ◌∷◌, ◌++◌, arith, ltb, Bool-cases, length, take, drop, take-append-take, Text,
}
use linux_internals.Evserver.Uring.{
  Op, Conn, Ring, UringServer, find, update, close_connection, queue_recv, queue_send, next_sqe,
  submit_recv, submit_send, on_recv, on_send,
}

-- A connection that is there, with the steps that were made so far.
abbrev At : Sessions → Conn → ℕ → List Conn → List Op → Type 0
At ss c n cs ops = Steps ss (sessions cs) × (find c.id cs ≡ some c) × Distinct cs

module _ (ss : Sessions) (c : Conn) where
  pub closed-Steps :
      (s : UringServer)
      → At ss c s.next_id s.connections s.outstanding
      → Steps ss (sessions (close_connection c s).connections)
  unfolding close_connection
  closed-Steps s h = then h.0 (erase-Step s.connections c h.1 h.2)

  pub queue_recv-Steps :
      (free : Bool) (s : UringServer)
      → At ss c s.next_id s.connections s.outstanding
      → Steps ss (sessions (queue_recv c free s).connections)
  unfolding queue_recv
  queue_recv-Steps true s h = h.0
  queue_recv-Steps false s h = closed-Steps s h

  pub queue_send-Steps :
      (n : ℕ) (free : Bool) (s : UringServer)
      → At ss c s.next_id s.connections s.outstanding
      → Steps ss (sessions (queue_send c n free s).connections)
  unfolding queue_send
  queue_send-Steps n true s h =
      let d = record c { pending = n } in
      subst (Steps ss) (sym (update_quiet s.connections c h.1 d refl refl)) h.0
  queue_send-Steps n false s h = closed-Steps s h

  module _ (ring : Ring) where
    pub submit_recv-Steps :
        (s : UringServer)
        → At ss c s.next_id s.connections s.outstanding
        → Steps ss (sessions (submit_recv ring c s).connections)
    unfolding submit_recv
    submit_recv-Steps s h =
        queue_recv-Steps (next_sqe ring s).0 (next_sqe ring s).1 (next_sqe-At ring (At ss c) s h)

    pub submit_send-Steps :
        (n : ℕ) (s : UringServer)
        → At ss c s.next_id s.connections s.outstanding
        → Steps ss (sessions (submit_send ring c n s).connections)
    unfolding submit_send
    submit_send-Steps n s h =
        queue_send-Steps n (next_sqe ring s).0 (next_sqe ring s).1 (next_sqe-At ring (At ss c) s h)

-- A connection that was updated, after the step that the update makes.
pub updated-At :
    (cs : List Conn) (c d : Conn) (n : ℕ) (ops : List Op)
    → find c.id cs ≡ some c
    → Distinct cs
    → d.id ≡ c.id
    → c.fd ≡ d.fd
    → Change (some (session c)) (some (session d))
    → At (sessions cs) d n (update d cs) ops
updated-At cs c d n ops e h i f change =
    let e' : find d.id cs ≡ some c = rw i e in
    (
      then done (update-Step cs c e d i change),
      find-update_self d cs c e',
      Distinct-update d cs c e' f h,
    )

module _ (ring : Ring) (c : Conn) (s : UringServer) (here : find c.id s.connections ≡ some c)
    (h : Distinct s.connections) where
  pub on_recv-Steps :
      (r : Option Text)
      → Idle c
      → Steps (sessions s.connections) (sessions (on_recv ring r c s).connections)
  unfolding on_recv
  on_recv-Steps none i = closed-Steps (sessions s.connections) c s (done, here, h)
  on_recv-Steps (some []) i = closed-Steps (sessions s.connections) c s (done, here, h)
  on_recv-Steps (some (b ∷ bs)) i =
      let bytes = b ∷ bs in
      let c' : Conn = record c {
        buffer = bytes ++ drop (length bytes) c.buffer;
        delivered = c.delivered ++ bytes;
      } in
      submit_send-Steps (sessions s.connections) c' ring (length bytes) _
        (updated-At s.connections c c' s.next_id s.outstanding here h refl refl (hears bytes i))

  -- The bytes of a send are the next ones of what is due.
  pub next_due :
      (n : ℕ)
      → n ≤ c.pending
      → Owes c
      → c.delivered ≡ c.returned ++ (take n c.buffer ++ take (c.pending - n) (drop n c.buffer))
  next_due n l o =
      let total : n + (c.pending - n) ≡ c.pending = omega (arith, l) in
      o.0
      ∙ ap (λ (k : ℕ). c.returned ++ take k c.buffer) (sym total)
      ∙ ap (◌++◌ c.returned) (sym (take-append-take n (c.pending - n) c.buffer))

  pub on_send-Steps :
      (r : Option ℕ)
      → Owes c
      → ((n : ℕ) → r ≡ some n → n ≤ c.pending)
      → Steps (sessions s.connections) (sessions (on_send ring r c s).connections)
  unfolding on_send
  on_send-Steps none o law = closed-Steps (sessions s.connections) c s (done, here, h)
  on_send-Steps (some n) o law =
      let out = record c { returned = c.returned ++ take n c.buffer } in
      let left = c.pending - n in
      let moved = record out { buffer = take left (drop n c.buffer) ++ drop left c.buffer } in
      let change : Change (some (session c)) (some (session out)) =
        says (take n c.buffer) (take left (drop n c.buffer)) (next_due n (law n refl) o) in
      elim (Bool-cases (ltb 0 n && ltb n c.pending)) [
        | inl short ↦ rw short (
            submit_send-Steps (sessions s.connections) moved ring left _
              (updated-At s.connections c moved s.next_id s.outstanding here h refl refl change))
        | inr full ↦ rw full (
            submit_recv-Steps (sessions s.connections) out ring _
              (updated-At s.connections c out s.next_id s.outstanding here h refl refl change))
      ]
