-- ===== src/Evserver/Uring/Reactions.antt =====
-- What each completion does to the sessions of the io_uring server (evserver/src/server_uring.cpp).

use linux_internals.Prelude.{
  ℕ, ◌≡◌, refl, ap, ◌∙◌, ◌≢◌, Bool, true, false, Option, none, some, List, [], ◌∷◌, ◌++◌, length,
  Text,
}
use linux_internals.Evserver.Uring.{
  Op, Conn, Ring, UringServer, find, close_connection, queue_recv, queue_send, next_sqe,
  submit_recv, submit_send, Completion, signalled, accepted, received, sent,
}
use linux_internals.Evserver.Echo.{Session, Sessions}
use linux_internals.Evserver.Uring.Sessions.{sessions, erased, erase_others, update_quiet}
use linux_internals.Evserver.Uring.Steps.{next_sqe-At}
use linux_internals.Evserver.Uring.Table.{Distinct}

abbrev pub blank : Session
blank = record { heard = []; said = [] }

-- The submission queue has no entry to give, not even after a flush.
abbrev pub NoEntry : Ring → Type 0
NoEntry ring = (u : UringServer) × ((next_sqe ring u).0 ≡ false)

-- What a completion does to the session i: one that is accepted joins with nothing heard; one that is
-- received from was answered in full, and is heard to say those bytes; one that is sent n bytes is
-- answered with the next n bytes of what it was heard to say. It leaves at the end of its stream, on an
-- error, and when there is no entry for its next operation.
pub data Effect (ring : Ring) (i : ℕ) : Completion → Option Session → Option Session → Type 0 where
  signal_ignored : {x : Option Session} → Effect ring i signalled x x
  accept_failed : {x : Option Session} → Effect ring i (accepted none) x x
  accept_joins : {fd : ℕ} → Effect ring i (accepted (some fd)) none (some blank)
  accept_dropped : {fd : ℕ} → NoEntry ring → Effect ring i (accepted (some fd)) none none
  recv_heard :
      {x : Session} {b : ℕ} {bs : Text}
      → x.heard ≡ x.said
      → Effect ring i
          (received i (some (b ∷ bs)))
          (some x)
          (some (record x { heard = x.heard ++ (b ∷ bs) }))
  recv_dropped :
      {x : Session} {b : ℕ} {bs : Text}
      → x.heard ≡ x.said
      → NoEntry ring
      → Effect ring i (received i (some (b ∷ bs))) (some x) none
  recv_end : {x : Session} → Effect ring i (received i (some [])) (some x) none
  recv_error : {x : Session} → Effect ring i (received i none) (some x) none
  send_said :
      {x : Session} (bytes rest : Text)
      → x.heard ≡ x.said ++ (bytes ++ rest)
      → Effect ring i
          (sent i (some (length bytes)))
          (some x)
          (some (record x { said = x.said ++ bytes }))
  send_dropped :
      {x : Session} {n : ℕ} → NoEntry ring → Effect ring i (sent i (some n)) (some x) none
  send_error : {x : Session} → Effect ring i (sent i none) (some x) none

-- The completion has that effect on one session, and none on any other.
pub record Reacted (ring : Ring) (e : Completion) (ss ss' : Sessions) : Type 0 where
  pub who : ℕ
  pub others : (j : ℕ) → j ≢ who → ss' j ≡ ss j
  pub effect : Effect ring who e (ss who) (ss' who)

abbrev pub ReactedTo : Ring → Completion → Sessions → Option UringServer → Type 0
ReactedTo ring e ss none = ⊥
ReactedTo ring e ss (some s) = Reacted ring e ss (sessions s.connections)

-- The sessions are as before, or the one at i has left for want of an entry.
pub data Kept (ring : Ring) (i : ℕ) (ss ss' : Sessions) : Type 0 where
  kept : ss' ≡ ss → Kept ring i ss ss'
  dropped : NoEntry ring → ((j : ℕ) → j ≢ i → ss' j ≡ ss j) → ss' i ≡ none → Kept ring i ss ss'

module _ (ring : Ring) (e : Completion) (i : ℕ) (x : Option Session) (ss : Sessions)
    (before : ss i ≡ x) where
  pub reacted :
      (y : Option Session) (ss' : Sessions)
      → ((j : ℕ) → j ≢ i → ss' j ≡ ss j)
      → ss' i ≡ y
      → Effect ring i e x y
      → Reacted ring e ss ss'
  reacted y ss' o after f = record { who = i; others = o; effect = rw (before, after) f }

  pub Kept-Reacted :
      (y : Option Session) (ss1 ss' : Sessions)
      → ((j : ℕ) → j ≢ i → ss1 j ≡ ss j)
      → ss1 i ≡ y
      → Effect ring i e x y
      → (NoEntry ring → Effect ring i e x none)
      → Kept ring i ss1 ss'
      → Reacted ring e ss ss'
  Kept-Reacted y ss1 ss' o after f g (kept q) =
      reacted y ss' (λ j ne. ap (λ (h : Sessions). h j) q ∙ o j ne)
        (ap (λ (h : Sessions). h i) q ∙ after) f
  Kept-Reacted y ss1 ss' o after f g (dropped no_entry o' z) =
      reacted none ss' (λ j ne. o' j ne ∙ o j ne) z (g no_entry)

-- A connection that is there, in connections with the sessions ss.
abbrev pub Here : Sessions → Conn → ℕ → List Conn → List Op → Type 0
Here ss c n cs ops = (sessions cs ≡ ss) × (find c.id cs ≡ some c) × Distinct cs

module _ (ring : Ring) (ss : Sessions) (c : Conn) where
  closed-Kept :
      (s : UringServer)
      → NoEntry ring
      → Here ss c s.next_id s.connections s.outstanding
      → Kept ring c.id ss (sessions (close_connection c s).connections)
  unfolding close_connection
  closed-Kept s no_entry h =
      dropped no_entry
        (λ j ne. erase_others s.connections c h.1 h.2 j ne ∙ ap (λ (f : Sessions). f j) h.0)
        (erased s.connections c h.1 h.2)

  pub submit_recv-Kept :
      (s : UringServer)
      → Here ss c s.next_id s.connections s.outstanding
      → Kept ring c.id ss (sessions (submit_recv ring c s).connections)
  unfolding submit_recv queue_recv
  submit_recv-Kept s h =
      go (next_sqe ring s).0 (next_sqe ring s).1 refl (next_sqe-At ring (Here ss c) s h)
    where
      go :
          (free : Bool) (u : UringServer)
          → (next_sqe ring s).0 ≡ free
          → Here ss c u.next_id u.connections u.outstanding
          → Kept ring c.id ss (sessions (queue_recv c free u).connections)
      go true u e h = kept h.0
      go false u e h = closed-Kept u (s, e) h

  pub submit_send-Kept :
      (n : ℕ) (s : UringServer)
      → Here ss c s.next_id s.connections s.outstanding
      → Kept ring c.id ss (sessions (submit_send ring c n s).connections)
  unfolding submit_send queue_send
  submit_send-Kept n s h =
      go (next_sqe ring s).0 (next_sqe ring s).1 refl (next_sqe-At ring (Here ss c) s h)
    where
      go :
          (free : Bool) (u : UringServer)
          → (next_sqe ring s).0 ≡ free
          → Here ss c u.next_id u.connections u.outstanding
          → Kept ring c.id ss (sessions (queue_send c n free u).connections)
      go true u e h =
          kept (update_quiet u.connections c h.1 (record c { pending = n }) refl refl ∙ h.0)
      go false u e h = closed-Kept u (s, e) h
