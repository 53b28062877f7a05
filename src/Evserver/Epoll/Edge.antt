-- ===== src/Evserver/Epoll/Edge.antt =====
-- The edge-triggered mode of evserver/src/server_epoll.cpp.
use linux_internals.Prelude.{
  ℕ, ◌≡◌, refl, ap, ◌∙◌, inl, inr, Bool, true, false, ◌||◌, Option, some, ◌∷◌, ◌++◌, Bool-cases,
}
use mathlib.Core.List.{append-nil}
use linux_internals.Evserver.Kernel.{
  eagain, eintr, read_failed, EpollEvent, read_call, Trace, Kernel, sent, is_closed, Posix,
}
use linux_internals.Evserver.Stats.{bump_eagain}
use linux_internals.Evserver.Epoll.{
  EpollServer, is_edge, edge_triggered, count, close_connection, read_once, read_loop,
  handle_connection,
}
use linux_internals.Evserver.Epoll.Local.{Local, Local-refl, Local-trans, read_once-Local}
use linux_internals.Evserver.Epoll.Rounds.{read_loop_rule}
use linux_internals.Evserver.Epoll.Chunk.{
  IsSettled, Wrote, close_connection-closed, echo-Wrote, read_once-received, read_once-failed,
}

-- The last call was a read of `fd` that found nothing more.
abbrev pub Drained : ℕ → Trace → Type 0
Drained fd t = (before : Trace) × (t ≡ read_call fd (read_failed eagain) ∷ before)

module _ (k : Kernel) (law : Posix k) (fd : ℕ) (s0 : EpollServer)
    (mode : edge_triggered s0 ≡ true) where
  abbrev Leaves : Option (Unit {0}) × EpollServer → Type 0
  Leaves out = out.0 ≡ some tt → is_closed fd out.1.trace ≡ false → Drained fd out.1.trace

  same_mode : (s : EpollServer) → Local fd s0 s → edge_triggered s ≡ true
  unfolding edge_triggered
  same_mode s l = ap (λ c. is_edge c.backend) l.cfg ∙ mode

  clash : {b : Bool} → b ≡ true → b ≡ false → ⊥
  clash h c = cc

  closed-Leaves : (s : EpollServer) → Leaves (close_connection fd s)
  closed-Leaves s h c = absurd (clash (close_connection-closed fd s) c)

  drained-Leaves :
      (s : EpollServer)
      → (read_once k fd s).0 ≡ read_failed eagain
      → Leaves (count bump_eagain (read_once k fd s).1)
  unfolding read_once
  drained-Leaves s h _ c = (s.trace, ap (λ a. read_call fd a ∷ s.trace) h)

  read_loop-Leaves :
      (f : ℕ) (s : EpollServer) → Local fd s0 s × IsSettled fd s → Leaves (read_loop k f fd s)
  read_loop-Leaves =
      read_loop_rule k fd (λ s. Local fd s0 s × IsSettled fd s)
        (λ out. Local fd s0 out.1 × Wrote fd out) Leaves (λ s p h. cc) (λ s p h. closed-Leaves _)
        (λ s p h. drained-Leaves s h)
        (λ s p h. (
          Local-trans fd s0 s _ p.0 (read_once-Local k fd s),
          read_once-failed k law fd s eintr h p.1,
        ))
        (λ f b bs s p h.
          let (l, w) =
            echo-Wrote k law fd f (b ∷ bs) (read_once k fd s).1
              (read_once-received k law fd s (b ∷ bs) h p.1) in
          (Local-trans fd s0 _ _ (Local-trans fd s0 s _ p.0 (read_once-Local k fd s)) l, w))
        (λ s r h. cc) (λ s r h c. absurd (clash (r.1.broken refl) c))
        (λ s r m. absurd (clash (same_mode s r.0) m))
        (λ s r m.
          (r.0, r.1.prefix ∙ ap (◌++◌ (sent fd s.trace)) (r.1.complete refl) ∙ append-nil _))

-- Over a kernel that keeps `Posix`, in edge-triggered mode, when the handling of an event of a
-- settled connection returns and leaves the connection open, its last call was a read that found the socket empty (EAGAIN).
pub handle_connection-Drained :
    (k : Kernel) (f : ℕ) (ev : EpollEvent) (s : EpollServer)
    → Posix k
    → edge_triggered s ≡ true
    → IsSettled ev.fd s
    → (handle_connection k f ev s).0 ≡ some tt
    → is_closed ev.fd (handle_connection k f ev s).1.trace ≡ false
    → Drained ev.fd (handle_connection k f ev s).1.trace
unfolding handle_connection
handle_connection-Drained k f ev s law mode e = elim (Bool-cases (ev.hup || ev.err)) [
  | inl gone ↦ rw gone (closed-Leaves k law ev.fd s mode s)
  | inr up ↦ rw up (read_loop-Leaves k law ev.fd s mode f s (Local-refl ev.fd s, e))
]
