-- ===== src/Evserver/Setup/Start/UringStarted.antt =====
-- What start() leaves (evserver/src/server_uring.cpp), whichever call fails, and the same for every
-- backend (evserver/src/server.cpp).
use linux_internals.Evserver.Setup.Start.EpollStarted.{epoll_start-Started}
use linux_internals.Evserver.Setup.Start.Started.{
  Started, EpollReady, ThreadReady, with_listener-Started, with_signal-Started,
  thread_start-Started,
}
use linux_internals.Evserver.Setup.Start.{
  Members, queue_depth, with_ring, uring_start, server_start,
}
use linux_internals.Evserver.Setup.Descriptors.{open_fds, set_error-trace, set_error-told}
use linux_internals.Evserver.Setup.{
  init_ring, Event, made, Net, Setup, set_error, invalid, errno_message, ask,
}
use linux_internals.Evserver.Server.{ServerClass, thread_server, epoll_server, uring_server}
use linux_internals.Prelude.{
  ℕ, ◌≡◌, refl, ap, ◌∙◌, Bool, true, false, Option, none, some, List, ◌∷◌, pos, codes,
}

-- The ring was set up last.
pub data UringReady : Members → Setup → Type 0 where
  ring_ready :
      {l g : ℕ} {s : Setup} {t : List Event}
      → s.trace ≡ made (init_ring queue_depth) none ∷ t
      → UringReady (record { listener = pos l; signal = pos g; epoll = invalid }) s

module _ (net : Net) where
  with_ring-Started :
      (l g : ℕ) (s s' : Setup)
      → open_fds s'.trace ≡ g ∷ l ∷ open_fds s.trace
      → s'.wanted ≡ s.wanted
      → Started UringReady s (with_ring net l g s')
  unfolding with_ring ask open_fds
  with_ring-Started l g s s' h w = go (net.answer s'.trace (init_ring queue_depth))
    where
      after : Option ℕ → Setup
      after a = record s' { trace = made (init_ring queue_depth) a ∷ s'.trace }

      members : Members
      members = record { listener = pos l; signal = pos g; epoll = invalid }

      go :
          (a : Option ℕ)
          → Started UringReady s (elim a as (λ _. Bool × Members × Setup) [
            | none ↦ (true, members, after a)
            | some e ↦ (
              false,
              members,
              set_error (errno_message net (codes "io_uring_queue_init") e) (after a),
            )
          ])
      go none = record { held = h; told = λ f. cc f; ready = λ _. ring_ready {t = s'.trace} refl }
      go (some e) =
          let text = errno_message net (codes "io_uring_queue_init") e in
          record {
            held = ap open_fds (set_error-trace text (after (some e))) ∙ h;
            told = λ _ f. set_error-told text (after (some e)) (w ∙ f);
            ready = λ f. cc f;
          }

  pub uring_start-Started : (port : ℕ) (s : Setup) → Started UringReady s (uring_start net port s)
  unfolding uring_start
  uring_start-Started port s =
      with_listener-Started net UringReady s port _
        (λ l. with_signal-Started net UringReady s l _ (λ g. with_ring-Started l g s))

-- What a start() that returned true has got ready.
abbrev pub ReadyOf : ServerClass → Members → Setup → Type 0
ReadyOf thread_server = ThreadReady
ReadyOf epoll_server = EpollReady
ReadyOf uring_server = UringReady

pub server_start-Started :
    (class : ServerClass) (net : Net) (port : ℕ) (s : Setup)
    → Started (ReadyOf class) s (server_start class net port s)
unfolding server_start
server_start-Started thread_server net port s = thread_start-Started net port s
server_start-Started epoll_server net port s = epoll_start-Started net port s
server_start-Started uring_server net port s = uring_start-Started net port s
