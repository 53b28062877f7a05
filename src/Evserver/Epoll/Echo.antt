-- ===== src/Evserver/Epoll/Echo.antt =====
-- handle_connection of evserver/src/server_epoll.cpp on one connection: what is read and what is sent.
use mathlib.Core.List.{append-nil}
use linux_internals.Prelude.{
  ℕ, ◌≡◌, refl, sym, ap, ◌∙◌, ◌⊎◌, inl, inr, Bool, true, false, Option, none, some, [], ◌∷◌, ◌++◌,
  Text,
}
use linux_internals.Evserver.Kernel.{
  eagain, eintr, other, got, read_failed, Kernel, received, sent, Posix,
}
use linux_internals.Evserver.Epoll.{EpollServer, close_connection, read_once, read_loop}
use linux_internals.Evserver.Epoll.Local.{
  Local, Local-trans, close_connection-Local, read_once-Local,
}
use linux_internals.Evserver.Epoll.Rounds.{read_loop_rule}
use linux_internals.Evserver.Epoll.Chunk.{
  IsSettled, Echoed, Wrote, close_connection-Echoed, echo-Wrote, read_once-received,
  read_once-failed,
}

module _ (k : Kernel) (law : Posix k) (fd : ℕ) (s0 : EpollServer) where
  abbrev Begun : EpollServer → Type 0
  Begun s = Local fd s0 s × IsSettled fd s

  abbrev Served : Option (Unit {0}) × EpollServer → Type 0
  Served out = Local fd s0 out.1 × Echoed fd out

  after_read : (s : EpollServer) → Begun s → Local fd s0 (read_once k fd s).1
  after_read s p = Local-trans fd s0 s _ p.0 (read_once-Local k fd s)

  Served-close :
      (s : EpollServer) (rest : Text)
      → Local fd s0 s
      → received fd s.trace ≡ sent fd s.trace ++ rest
      → Served (close_connection fd s)
  Served-close s rest l e =
      (Local-trans fd s0 s _ l (close_connection-Local fd s), close_connection-Echoed fd s rest e)

  Served-settled :
      (s : EpollServer) (r : Option (Unit {0})) → Local fd s0 s → IsSettled fd s → Served (r, s)
  Served-settled s r l e =
      (l, record { rest = []; prefix = e ∙ sym (append-nil _); settled = λ h c. refl })

  pub closes :
      (s : EpollServer)
      → Begun s
      → ((read_once k fd s).0 ≡ got []) ⊎ ((e : ℕ) × ((read_once k fd s).0 ≡ read_failed (other e)))
      → Served (close_connection fd (read_once k fd s).1)
  closes s p (inl h) = Served-close _ [] (after_read s p) (read_once-received k law fd s [] h p.1)
  closes s p (inr (e, h)) =
      Served-close _ [] (after_read s p)
        (read_once-failed k law fd s (other e) h p.1 ∙ sym (append-nil _))

  broken : (s : EpollServer) → Local fd s0 s × Wrote fd (some false, s) → Served (some tt, s)
  broken s r = (
    r.0,
    record {
      rest = r.1.rest;
      prefix = r.1.prefix;
      settled = λ h c. absurd (clash (r.1.broken refl) c);
    },
  )
    where
      clash : {b : Bool} → b ≡ true → b ≡ false → ⊥
      clash h c = cc

  Settled-of : (s : EpollServer) → Wrote fd (some true, s) → IsSettled fd s
  Settled-of s w = w.prefix ∙ ap (◌++◌ (sent fd s.trace)) (w.complete refl) ∙ append-nil _

  pub read_loop-Echoed : (f : ℕ) (s : EpollServer) → Begun s → Served (read_loop k f fd s)
  read_loop-Echoed =
      read_loop_rule k fd Begun (λ out. Local fd s0 out.1 × Wrote fd out) Served
        (λ s p. Served-settled s none p.0 p.1) closes
        (λ s p h.
          Served-settled _ (some tt)
            (record {
              cfg = (after_read s p).cfg;
              received = (after_read s p).received;
              sent = (after_read s p).sent;
              is_closed = (after_read s p).is_closed;
            })
            (read_once-failed k law fd s eagain h p.1))
        (λ s p h. (after_read s p, read_once-failed k law fd s eintr h p.1))
        (λ f b bs s p h.
          let (l, w) =
            echo-Wrote k law fd f (b ∷ bs) (read_once k fd s).1
              (read_once-received k law fd s (b ∷ bs) h p.1) in
          (Local-trans fd s0 _ _ (after_read s p) l, w))
        (λ s r. (r.0, record { rest = r.1.rest; prefix = r.1.prefix; settled = λ h c. cc })) broken
        (λ s r m. Served-settled s (some tt) r.0 (Settled-of s r.1))
        (λ s r m. (r.0, Settled-of s r.1))
