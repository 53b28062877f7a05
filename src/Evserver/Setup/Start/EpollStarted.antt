-- ===== src/Evserver/Setup/Start/EpollStarted.antt =====
-- start() of the epoll server (evserver/src/server_epoll.cpp).
use linux_internals.Evserver.Setup.Start.Started.{
  Started, EpollReady, watching, with_listener-Started, with_signal-Started,
}
use linux_internals.Evserver.Setup.Start.{
  Members, new_members, epollin, add_to_epoll, with_epoll, with_signal, epoll_start,
}
use linux_internals.Evserver.Setup.Descriptors.{
  open_fds, is_some, Local, set_error-wanted, set_error-trace, set_error-told,
}
use linux_internals.Evserver.Setup.{
  set_flags, new_epoll, epoll_ctl_add, Opened, fd, failed, opened_call, made, flags_read, Net,
  Setup, set_error, invalid, errno_message, open_new, ask, is_done, with_nonblock, set_nonblocking,
}
use linux_internals.Prelude.{
  ℕ, ◌≡◌, refl, ap, ◌∙◌, Bool, true, false, Option, none, some, ◌∷◌, pos, codes,
}

-- add_to_epoll makes and closes nothing.
record Added (ep n : ℕ) (s : Setup) (out : Bool × Setup) : Type 0 where
  held : open_fds out.1.trace ≡ open_fds s.trace
  wanted : out.1.wanted ≡ s.wanted
  told : out.0 ≡ false → s.wanted ≡ true → is_some out.1.error ≡ true
  done : out.0 ≡ true → out.1.trace ≡ made (epoll_ctl_add ep n epollin) none ∷ s.trace

module _ (net : Net) where
  add_to_epoll-Added : (ep n : ℕ) (s : Setup) → Added ep n s (add_to_epoll net ep n epollin s)
  unfolding add_to_epoll ask open_fds
  add_to_epoll-Added ep n s = go (net.answer s.trace (epoll_ctl_add ep n epollin))
    where
      after : Option ℕ → Setup
      after a = record s { trace = made (epoll_ctl_add ep n epollin) a ∷ s.trace }

      go :
          (a : Option ℕ)
          → Added ep n s (elim a as (λ _. Bool × Setup) [
            | none ↦ (true, after a)
            | some e ↦ (false, set_error (errno_message net (codes "epoll_ctl(ADD)") e) (after a))
          ])
      go none = record { held = refl; wanted = refl; told = λ h. cc h; done = λ h. refl }
      go (some e) =
          let text = errno_message net (codes "epoll_ctl(ADD)") e in
          record {
            held = ap open_fds (set_error-trace text (after (some e)));
            wanted = set_error-wanted text (after (some e));
            told = λ _ w. set_error-told text (after (some e)) w;
            done = λ h. cc h;
          }

  set_nonblocking-Local :
      (n : ℕ) (s s' : Setup) → Local n s s' → Local n s (set_nonblocking net n s').1
  unfolding set_nonblocking ask open_fds
  set_nonblocking-Local n s s' l = go (net.get_flags s'.trace n)
    where
      after : Option ℕ → Setup
      after a = record s' { trace = flags_read n a ∷ s'.trace }

      go :
          (a : Option ℕ)
          → Local n s
              (elim a as (λ _. Bool × Setup) [
                | none ↦ (false, after a)
                | some old ↦
                    let (b, s'') = ask net (set_flags n (with_nonblock net old)) (after a) in
                    (is_done net b, s'')
              ]).1
      go none = record { held = l.held; wanted = l.wanted }
      go (some old) = record { held = l.held; wanted = l.wanted }

  -- The two registrations, the second only after the first.
  registered-Started :
      (l g ep : ℕ) (s s' : Setup)
      → open_fds s'.trace ≡ ep ∷ g ∷ l ∷ open_fds s.trace
      → s'.wanted ≡ s.wanted
      → (first : Bool × Setup) → Added ep l s' first
      → (second : Bool × Setup) → Added ep g first.1 second
      → Started EpollReady s (elim first.0 as (λ _. Bool × Members × Setup) [
        | false ↦ (false, record { listener = pos l; signal = pos g; epoll = pos ep }, first.1)
        | true ↦ (second.0, record { listener = pos l; signal = pos g; epoll = pos ep }, second.1)
      ])
  registered-Started l g ep s s' h w (false, s2) a (second, s3) b = record {
    held = a.held ∙ h;
    told = λ _ e. a.told refl (w ∙ e);
    ready = λ e. cc e;
  }
  registered-Started l g ep s s' h w (true, s2) a (second, s3) b = record {
    held = b.held ∙ a.held ∙ h;
    told = λ f e. b.told f (a.wanted ∙ w ∙ e);
    ready = λ e.
        watching {t = s'.trace}
          (b.done e ∙ ap (◌∷◌ (made (epoll_ctl_add ep g epollin) none)) (a.done refl));
  }

  with_epoll-Started :
      (l g : ℕ) (s s' : Setup)
      → open_fds s'.trace ≡ g ∷ l ∷ open_fds s.trace
      → s'.wanted ≡ s.wanted
      → Started EpollReady s (with_epoll net l g s')
  unfolding with_epoll open_new open_fds
  with_epoll-Started l g s s' h w = go (net.opening s'.trace new_epoll)
    where
      after : Opened → Setup
      after a = record s' { trace = opened_call new_epoll a ∷ s'.trace }

      members : Members
      members = record { listener = pos l; signal = pos g; epoll = invalid }

      go :
          (a : Opened)
          → Started EpollReady s (elim a as (λ _. Bool × Members × Setup) [
            | failed e ↦
                (false, members, set_error (errno_message net (codes "epoll_create1") e) (after a))
            | fd ep ↦
                let (first, s2) = add_to_epoll net ep l epollin (after a) in
                let (second, s3) = add_to_epoll net ep g epollin s2 in
                let members' = record members { epoll = pos ep } in
                elim first [ false ↦ (false, members', s2) | true ↦ (second, members', s3) ]
          ])
      go (failed e) =
          let text = errno_message net (codes "epoll_create1") e in
          record {
            held = ap open_fds (set_error-trace text (after (failed e))) ∙ h;
            told = λ _ f. set_error-told text (after (failed e)) (w ∙ f);
            ready = λ f. cc f;
          }
      go (fd ep) =
          registered-Started l g ep s (after (fd ep)) (ap (◌∷◌ ep) h) w _
            (add_to_epoll-Added ep l (after (fd ep))) _ (add_to_epoll-Added ep g _)

-- What start() of the epoll server leaves open, whichever call fails, is what its members own, with a
-- message if it fails and one is wanted; it succeeds only with an epoll descriptor that watches the
-- listener and the signalfd.
pub epoll_start-Started :
    (net : Net) (port : ℕ) (s : Setup) → Started EpollReady s (epoll_start net port s)
unfolding epoll_start
epoll_start-Started net port s = with_listener-Started net EpollReady s port _ (λ l s' here.
    after_nonblocking l s' (set_nonblocking net l s') (set_nonblocking-Local net l s s' here))
  where
    after_nonblocking :
        (l : ℕ) (s' : Setup) (out : Bool × Setup)
        → Local l s out.1
        → Started EpollReady s (elim out.0 as (λ _. Bool × Members × Setup) [
          | false ↦ (
            false,
            record new_members { listener = pos l },
            set_error (codes "set_nonblocking(listener) failed") out.1,
          )
          | true ↦ with_signal net l (with_epoll net l) out.1
        ])
    after_nonblocking l s' (true, s2) here =
        with_signal-Started net EpollReady s l (with_epoll net l)
          (λ g s3 held w. with_epoll-Started net l g s s3 held w) s2 here
    after_nonblocking l s' (false, s2) here =
        let text = codes "set_nonblocking(listener) failed" in
        record {
          held = ap open_fds (set_error-trace text s2) ∙ here.held;
          told = λ _ w. set_error-told text s2 (here.wanted ∙ w);
          ready = λ h. cc h;
        }
