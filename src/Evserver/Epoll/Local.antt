-- ===== src/Evserver/Epoll/Local.antt =====
-- What the calls of evserver/src/server_epoll.cpp for one connection leave alone.
use linux_internals.Prelude.{ℕ, ◌≡◌, refl, ◌∙◌, ◌≢◌, ◌∷◌, arith}
use mathlib.Core.List.{append-nil}
use linux_internals.Evserver.Kernel.{
  ReadAnswer, got, read_failed, read_call, Trace, Kernel, received, sent, is_closed,
}
use linux_internals.Evserver.Stats.{bump_read}
use linux_internals.Evserver.Epoll.{EpollServer, close_connection, read_once}
use linux_internals.Evserver.Epoll.Write.{Writes}

-- Only the connection on `fd` has changed.
pub record Local (fd : ℕ) (s s' : EpollServer) : Type 0 where
  pub cfg : s'.cfg ≡ s.cfg
  pub received : (d : ℕ) → d ≢ fd → received d s'.trace ≡ received d s.trace
  pub sent : (d : ℕ) → d ≢ fd → sent d s'.trace ≡ sent d s.trace
  pub is_closed : (d : ℕ) → d ≢ fd → is_closed d s'.trace ≡ is_closed d s.trace

pub Local-refl : (fd : ℕ) (s : EpollServer) → Local fd s s
Local-refl fd s = record {
  cfg = refl;
  received = λ d ne. refl;
  sent = λ d ne. refl;
  is_closed = λ d ne. refl;
}

pub Local-trans : (fd : ℕ) (s t u : EpollServer) → Local fd s t → Local fd t u → Local fd s u
Local-trans fd s t u p q = record {
  cfg = q.cfg ∙ p.cfg;
  received = λ d ne. q.received d ne ∙ p.received d ne;
  sent = λ d ne. q.sent d ne ∙ p.sent d ne;
  is_closed = λ d ne. q.is_closed d ne ∙ p.is_closed d ne;
}

pub Local-of-Writes : (fd : ℕ) (s t : EpollServer) → Writes fd s t → Local fd s t
Local-of-Writes fd s t p = record {
  cfg = p.cfg;
  received = λ d ne. p.received d;
  sent = p.others;
  is_closed = λ d ne. p.is_closed d;
}

pub close_connection-Local : (fd : ℕ) (s : EpollServer) → Local fd s (close_connection fd s).1
unfolding close_connection received sent is_closed
close_connection-Local fd s = record {
  cfg = refl;
  received = λ d ne. refl;
  sent = λ d ne. refl;
  is_closed = λ d ne. ground arith;
}

pub read_once-Local : (k : Kernel) (fd : ℕ) (s : EpollServer) → Local fd s (read_once k fd s).1
unfolding read_once
read_once-Local k fd s = after (k.read s.trace fd s.cfg.buffer_size)
  where
    received_ne :
        (a : ReadAnswer) (d : ℕ) (t : Trace)
        → d ≢ fd
        → received d (read_call fd a ∷ t) ≡ received d t
    received_ne (got bytes) d t ne = unfold received in ground (arith, append-nil (received d t))
    received_ne (read_failed e) d t ne = unfold received in refl

    after :
        (a : ReadAnswer)
        → Local fd s (record s { stats = bump_read s.stats; trace = read_call fd a ∷ s.trace })
    after a = record {
      cfg = refl;
      received = λ d ne. received_ne a d s.trace ne;
      sent = λ d ne. unfold sent in refl;
      is_closed = λ d ne. unfold is_closed in refl;
    }
