-- ===== src/Evserver/Epoll/Chunk.antt =====
-- The read and the echo of one chunk in handle_connection of evserver/src/server_epoll.cpp.
use linux_internals.Prelude.{
  ℕ, ◌≡◌, refl, sym, ap, ◌∙◌, Bool, true, false, Option, none, some, [], ◌++◌, arith, length, take,
  drop, take-append-drop, drop_all, Text,
}
use mathlib.Core.List.{append_assoc}
use linux_internals.Evserver.Kernel.{
  Errno, got, read_failed, Kernel, received, sent, is_closed, Posix,
}
use linux_internals.Evserver.Stats.{bump_request}
use linux_internals.Evserver.Epoll.{EpollServer, close_connection, write_all, read_once, echo}
use linux_internals.Evserver.Epoll.Write.{Sent, write_all-Sent, Writes, write_all-Writes}
use linux_internals.Evserver.Epoll.Local.{
  Local, Local-trans, Local-of-Writes, close_connection-Local,
}

-- All that the connection on `fd` has delivered was sent back to it.
abbrev pub IsSettled : ℕ → EpollServer → Type 0
IsSettled fd s = received fd s.trace ≡ sent fd s.trace

-- What was sent back is the start of what was delivered; all of it, where the code has returned and
-- the connection is not closed.
pub record Echoed (fd : ℕ) (out : Option (Unit {0}) × EpollServer) : Type 0 where
  pub rest : Text
  pub prefix : received fd out.1.trace ≡ sent fd out.1.trace ++ rest
  pub settled : out.0 ≡ some tt → is_closed fd out.1.trace ≡ false → rest ≡ []

pub record Wrote (fd : ℕ) (out : Option Bool × EpollServer) : Type 0 where
  pub rest : Text
  pub prefix : received fd out.1.trace ≡ sent fd out.1.trace ++ rest
  pub complete : out.0 ≡ some true → rest ≡ []
  pub broken : out.0 ≡ some false → is_closed fd out.1.trace ≡ true

pub close_connection-Echoed :
    (fd : ℕ) (s : EpollServer) (rest : Text)
    → received fd s.trace ≡ sent fd s.trace ++ rest
    → Echoed fd (close_connection fd s)
unfolding close_connection received sent is_closed
close_connection-Echoed fd s rest e = record {
  rest = rest;
  prefix = e;
  settled = λ h c. ground arith;
}

pub close_connection-closed :
    (fd : ℕ) (s : EpollServer) → is_closed fd (close_connection fd s).1.trace ≡ true
unfolding close_connection is_closed
close_connection-closed fd s = ground arith

module _ (k : Kernel) (law : Posix k) (fd : ℕ) where
  -- What is left of the bytes that were read when some of them have been sent.
  prefix_left :
      (s s' : EpollServer) (bytes : Text) (c : ℕ)
      → received fd s.trace ≡ sent fd s.trace ++ bytes
      → received fd s'.trace ≡ received fd s.trace
      → sent fd s'.trace ≡ sent fd s.trace ++ take c bytes
      → received fd s'.trace ≡ sent fd s'.trace ++ drop c bytes
  prefix_left s s' bytes c e same grown =
      same
      ∙ e
      ∙ ap (◌++◌ (sent fd s.trace)) (sym (take-append-drop c bytes))
      ∙ sym (append_assoc (sent fd s.trace) (take c bytes) (drop c bytes))
      ∙ ap (λ (t : Text). t ++ drop c bytes) (sym grown)

  abbrev counted : Text → EpollServer → EpollServer
  counted bytes s = record s { stats = bump_request (length bytes) s.stats }

  after_write_all :
      (f : ℕ) (bytes : Text) (s : EpollServer)
      → received fd s.trace ≡ sent fd s.trace ++ bytes
      → (r : Option Bool) (s' : EpollServer) → write_all k f fd bytes (counted bytes s) ≡ (r, s')
      → Sent fd bytes (sent fd s.trace) (r, s')
      → Writes fd s s'
      → Local fd s (echo k f fd bytes s).1 × Wrote fd (echo k f fd bytes s)
  unfolding echo close_connection
  after_write_all f bytes s e none s' h p w =
      rw (h, echo)
        (
          Local-of-Writes fd s s' w,
          record {
            rest = drop p.count bytes;
            prefix = prefix_left s s' bytes p.count e (w.received fd) p.exact;
            complete = λ h. cc;
            broken = λ h. cc;
          },
        )
  after_write_all f bytes s e (some true) s' h p w =
      rw (h, echo)
        (
          Local-of-Writes fd s s' w,
          record {
            rest = drop p.count bytes;
            prefix = prefix_left s s' bytes p.count e (w.received fd) p.exact;
            complete = λ _. drop_all p.count bytes (omega (arith, p.complete refl));
            broken = λ h. cc;
          },
        )
  after_write_all f bytes s e (some false) s' h p w =
      let closed = close_connection-Local fd s' in
      let kept =
        close_connection-Echoed fd s' (drop p.count bytes)
          (prefix_left s s' bytes p.count e (w.received fd) p.exact) in
      rw (h, echo)
        (
          Local-trans fd s s' _ (Local-of-Writes fd s s' w) closed,
          record {
            rest = kept.rest;
            prefix = kept.prefix;
            complete = λ h. cc;
            broken = λ _. close_connection-closed fd s';
          },
        )

  -- `echo`, on the bytes that were just read.
  pub echo-Wrote :
      (f : ℕ) (bytes : Text) (s : EpollServer)
      → received fd s.trace ≡ sent fd s.trace ++ bytes
      → Local fd s (echo k f fd bytes s).1 × Wrote fd (echo k f fd bytes s)
  echo-Wrote f bytes s e =
      let out = write_all k f fd bytes (counted bytes s) in
      let w = write_all-Writes k fd bytes f (counted bytes s) in
      after_write_all f bytes s e out.0 out.1 refl
        (write_all-Sent k law fd bytes (sent fd s.trace) f (counted bytes s) refl)
        (record { cfg = w.cfg; received = w.received; is_closed = w.is_closed; others = w.others })

  pub read_once-received :
      (s : EpollServer) (bytes : Text)
      → (read_once k fd s).0 ≡ got bytes
      → IsSettled fd s
      → received fd (read_once k fd s).1.trace ≡ sent fd (read_once k fd s).1.trace ++ bytes
  unfolding read_once received sent
  read_once-received s bytes h e = ground arith

  pub read_once-failed :
      (s : EpollServer) (n : Errno)
      → (read_once k fd s).0 ≡ read_failed n
      → IsSettled fd s
      → IsSettled fd (read_once k fd s).1
  unfolding read_once received sent
  read_once-failed s n h e = ground arith
