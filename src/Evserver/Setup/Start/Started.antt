-- ===== src/Evserver/Setup/Start/Started.antt =====
-- What start() of the threads server leaves (evserver/src/server_threads.cpp), whichever call fails,
-- and the steps that it shares with the epoll server's.
use linux_internals.Evserver.Socket.{valid}
use linux_internals.Evserver.Setup.Start.{
  Members, new_members, epollin, with_listener, with_signal, thread_start,
}
use linux_internals.Evserver.Setup.Descriptors.{
  open_fds, owned, is_some, Outcome, Local, listen_tcp-Outcome, signal_fd-Outcome,
}
use linux_internals.Prelude.{
  ℕ, ◌≡◌, refl, ap, ◌∙◌, Bool, true, false, none, List, ◌∷◌, ◌++◌, ℤ, pos, negsuc,
}
use linux_internals.Evserver.Setup.{
  epoll_ctl_add, Event, made, Net, Setup, invalid, listen_tcp, signal_fd,
}

-- Against the state before: what is open and was not is what the members own; a failure has a message
-- if one is wanted; and `Ready` holds after a success.
pub record Started (Ready : Members → Setup → Type 0) (s : Setup) (out : Bool × Members × Setup)
    : Type 0 where
  pub held :
      open_fds out.2.trace
      ≡ owned out.1.epoll ++ (owned out.1.signal ++ (owned out.1.listener ++ open_fds s.trace))
  pub told : out.0 ≡ false → s.wanted ≡ true → is_some out.2.error ≡ true
  pub ready : out.0 ≡ true → Ready out.1 out.2

-- The listener, the signalfd and the epoll descriptor are open, and epoll watches the first two.
pub data EpollReady : Members → Setup → Type 0 where
  watching :
      {l g ep : ℕ} {s : Setup} {t : List Event}
      → s.trace
        ≡ made (epoll_ctl_add ep g epollin) none ∷ made (epoll_ctl_add ep l epollin) none ∷ t
      → EpollReady (record { listener = pos l; signal = pos g; epoll = pos ep }) s

pub data ThreadReady : Members → Setup → Type 0 where
  listening :
      {l g : ℕ} {s : Setup}
      → ThreadReady (record { listener = pos l; signal = pos g; epoll = invalid }) s

module _ (net : Net) (Ready : Members → Setup → Type 0) (s : Setup) where
  pub with_listener-Started :
      (port : ℕ) (next : ℕ → Setup → Bool × Members × Setup)
      → ((n : ℕ) (s' : Setup) → Local n s s' → Started Ready s (next n s'))
      → Started Ready s (with_listener net port next s)
  unfolding with_listener valid
  with_listener-Started port next more =
      go (listen_tcp net port 1024 s) (listen_tcp-Outcome net s port 1024)
    where
      go :
          (out : ℤ × Setup)
          → Outcome s out
          → Started Ready s (elim out.0 as (λ _. Bool × Members × Setup) [
            | pos n ↦ next n out.1
            | negsuc m ↦ (false, record new_members { listener = negsuc m }, out.1)
          ])
      go (pos n, s') o = more n s' (record { held = o.held; wanted = o.wanted })
      go (negsuc m, s') o = record { held = o.held; told = λ _. o.told refl; ready = λ h. cc h }

  pub with_signal-Started :
      (l : ℕ) (next : ℕ → Setup → Bool × Members × Setup)
      → ((g : ℕ) (s' : Setup)
          → open_fds s'.trace ≡ g ∷ l ∷ open_fds s.trace
          → s'.wanted ≡ s.wanted
          → Started Ready s (next g s'))
      → (s' : Setup) → Local l s s'
      → Started Ready s (with_signal net l next s')
  unfolding with_signal valid
  with_signal-Started l next more s' here = go (signal_fd net s') (signal_fd-Outcome net s')
    where
      go :
          (out : ℤ × Setup)
          → Outcome s' out
          → Started Ready s (elim out.0 as (λ _. Bool × Members × Setup) [
            | pos n ↦ next n out.1
            | negsuc m ↦ (false, record new_members { listener = pos l; signal = negsuc m }, out.1)
          ])
      go (pos n, s'') o = more n s'' (o.held ∙ ap (◌∷◌ n) here.held) (o.wanted ∙ here.wanted)
      go (negsuc m, s'') o = record {
        held = o.held ∙ here.held;
        told = λ _ w. o.told refl (here.wanted ∙ w);
        ready = λ h. cc h;
      }

-- start() of the threads server keeps no descriptor but its members', and succeeds only with a
-- listener and a signalfd.
pub thread_start-Started :
    (net : Net) (port : ℕ) (s : Setup) → Started ThreadReady s (thread_start net port s)
unfolding thread_start
thread_start-Started net port s = with_listener-Started net ThreadReady s port _ (λ l.
    with_signal-Started net ThreadReady s l _
      (λ g s' held w. record { held = held; told = λ h. cc h; ready = λ _. listening }))
