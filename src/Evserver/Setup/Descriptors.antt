-- ===== src/Evserver/Setup/Descriptors.antt =====
-- The descriptors that listen_tcp, connect_tcp and signal_fd leave open (evserver/src/socket.cpp,
-- evserver/src/signals.cpp).
use linux_internals.Evserver.Socket.{without, valid}
use linux_internals.Prelude.{
  ℕ, ◌≡◌, refl, ap, ◌∙◌, inl, inr, Bool, true, false, Option, none, some, List, [], ◌∷◌, ◌++◌,
  ==_refl, Bool-cases, ℤ, pos, negsuc, Text, codes,
}
use linux_internals.Evserver.Setup.{
  Request, tcp_socket, reuse_address, bind_to, listen_on, connect_to, block_signals, new_signalfd,
  Opened, fd, failed, Event, opened_call, made, closed_call, Net, Setup, set_error, drop_socket,
  invalid, errno_message, open_new, ask, attempt, with_socket, listen_tcp, connect_tcp, signal_fd,
}

-- The descriptors made and not closed, the newest first.
unfoldable pub open_fds : List Event → List ℕ
open_fds [] = []
open_fds (opened_call r (fd n) ∷ t) = n ∷ open_fds t
open_fds (closed_call n ∷ t) = without n (open_fds t)
open_fds (e ∷ t) = open_fds t

abbrev pub owned : ℤ → List ℕ
owned (pos n) = n ∷ []
owned (negsuc n) = []

abbrev pub is_some : Option Text → Bool
is_some none = false
is_some (some a) = true

-- Against the state before: the descriptors that are still open are those of before and the one that
-- is returned, and an invalid result comes with a message if one is wanted.
pub record Outcome (s : Setup) (out : ℤ × Setup) : Type 0 where
  pub held : open_fds out.1.trace ≡ owned out.0 ++ open_fds s.trace
  pub wanted : out.1.wanted ≡ s.wanted
  pub told : valid out.0 ≡ false → s.wanted ≡ true → is_some out.1.error ≡ true

-- The local socket n is open, and nothing else is new.
pub record Local (n : ℕ) (s s' : Setup) : Type 0 where
  pub held : open_fds s'.trace ≡ n ∷ open_fds s.trace
  pub wanted : s'.wanted ≡ s.wanted

pub set_error-wanted : (text : Text) (s : Setup) → (set_error text s).wanted ≡ s.wanted
unfolding set_error
set_error-wanted text s = elim (Bool-cases s.wanted) [ inl h ↦ rw h refl | inr h ↦ rw h refl ]

pub set_error-trace : (text : Text) (s : Setup) → (set_error text s).trace ≡ s.trace
unfolding set_error
set_error-trace text s = elim (Bool-cases s.wanted) [ inl h ↦ rw h refl | inr h ↦ rw h refl ]

pub set_error-told :
    (text : Text) (s : Setup) → s.wanted ≡ true → is_some (set_error text s).error ≡ true
unfolding set_error
set_error-told text s h = rw h refl

pub without_first : (n : ℕ) (ds : List ℕ) → without n (n ∷ ds) ≡ ds
unfolding without
without_first n ds = rw (==_refl n) refl

pub open_fds-drop_socket :
    (n : ℕ) (s : Setup) → open_fds (drop_socket n s).trace ≡ without n (open_fds s.trace)
unfolding open_fds drop_socket
open_fds-drop_socket n s = refl

pub drop_socket-error : (n : ℕ) (s : Setup) → (drop_socket n s).error ≡ s.error
unfolding drop_socket
drop_socket-error n s = refl

-- A failure before there is a socket.
failed-Outcome :
    (s s' : Setup) (text : Text)
    → open_fds s'.trace ≡ open_fds s.trace
    → s'.wanted ≡ s.wanted
    → Outcome s (invalid, set_error text s')
failed-Outcome s s' text h w = record {
  held = ap open_fds (set_error-trace text s') ∙ h;
  wanted = set_error-wanted text s' ∙ w;
  told = λ _ e. set_error-told text s' (w ∙ e);
}

-- A failure with a local socket: it is closed.
dropped-Outcome :
    (n : ℕ) (s s' : Setup) (text : Text)
    → Local n s s'
    → Outcome s (invalid, drop_socket n (set_error text s'))
unfolding drop_socket open_fds
dropped-Outcome n s s' text l = record {
  held = ap (without n) (ap open_fds (set_error-trace text s') ∙ l.held) ∙ without_first n _;
  wanted = set_error-wanted text s' ∙ l.wanted;
  told = λ _ e. set_error-told text s' (l.wanted ∙ e);
}

module _ (net : Net) (s : Setup) where
  attempt-Outcome :
      (n : ℕ) (r : Request) (what : Text) (next : Setup → ℤ × Setup)
      → ((s' : Setup) → Local n s s' → Outcome s (next s'))
      → (s' : Setup) → Local n s s'
      → Outcome s (attempt net n r what next s')
  unfolding attempt ask open_fds
  attempt-Outcome n r what next more s' l = go (net.answer s'.trace r)
    where
      after : Option ℕ → Setup
      after a = record s' { trace = made r a ∷ s'.trace }

      kept : (a : Option ℕ) → Local n s (after a)
      kept a = record { held = l.held; wanted = l.wanted }

      go :
          (a : Option ℕ)
          → Outcome s (elim a as (λ _. ℤ × Setup) [
            | none ↦ next (after a)
            | some e ↦ (invalid, drop_socket n (set_error (errno_message net what e) (after a)))
          ])
      go none = more (after none) (kept none)
      go (some e) = dropped-Outcome n s (after (some e)) (errno_message net what e) (kept (some e))

  with_socket-Outcome :
      (r : Request) (what : Text) (next : ℕ → Setup → ℤ × Setup)
      → ((n : ℕ) (s' : Setup) → Local n s s' → Outcome s (next n s'))
      → (s' : Setup) → open_fds s'.trace ≡ open_fds s.trace
      → s'.wanted ≡ s.wanted
      → Outcome s (with_socket net r what next s')
  unfolding with_socket open_new open_fds
  with_socket-Outcome r what next more s' h w = go (net.opening s'.trace r)
    where
      after : Opened → Setup
      after a = record s' { trace = opened_call r a ∷ s'.trace }

      go :
          (a : Opened)
          → Outcome s (elim a as (λ _. ℤ × Setup) [
            | fd n ↦ next n (after a)
            | failed e ↦ (invalid, set_error (errno_message net what e) (after a))
          ])
      go (fd n) = more n (after (fd n)) (record { held = ap (◌∷◌ n) h; wanted = w })
      go (failed e) = failed-Outcome s (after (failed e)) (errno_message net what e) h w

  returned-Outcome : (n : ℕ) (s' : Setup) → Local n s s' → Outcome s (pos n, s')
  unfolding valid
  returned-Outcome n s' l = record { held = l.held; wanted = l.wanted; told = λ h. cc h }

  -- After listen_tcp the descriptors open are those from before and the one returned, whichever call
  -- failed; and an invalid result has a message if one is wanted.
  pub listen_tcp-Outcome : (port backlog : ℕ) → Outcome s (listen_tcp net port backlog s)
  unfolding listen_tcp
  listen_tcp-Outcome port backlog =
      with_socket-Outcome tcp_socket (codes "socket") _
        (λ n. attempt-Outcome n (reuse_address n) (codes "setsockopt(SO_REUSEADDR)") _ (
          attempt-Outcome n (bind_to n port) (codes "bind") _
            (attempt-Outcome n (listen_on n backlog) (codes "listen") _ (returned-Outcome n))))
        s refl refl

  pub connect_tcp-Outcome : (port : ℕ) → Outcome s (connect_tcp net port s)
  unfolding connect_tcp
  connect_tcp-Outcome port =
      with_socket-Outcome tcp_socket (codes "socket") _
        (λ n. attempt-Outcome n (connect_to n port) (codes "connect") _ (returned-Outcome n)) s refl
        refl

  pub signal_fd-Outcome : Outcome s (signal_fd net s)
  unfolding signal_fd ask open_fds
  signal_fd-Outcome = go (net.answer s.trace block_signals)
    where
      after : Option ℕ → Setup
      after a = record s { trace = made block_signals a ∷ s.trace }

      go :
          (a : Option ℕ)
          → Outcome s (elim a as (λ _. ℤ × Setup) [
            | some e ↦ (invalid, set_error (errno_message net (codes "sigprocmask") e) (after a))
            | none ↦ with_socket net new_signalfd (codes "signalfd") (λ n s. (pos n, s)) (after a)
          ])
      go none =
          with_socket-Outcome new_signalfd (codes "signalfd") _ returned-Outcome (after none) refl
            refl
      go (some e) =
          failed-Outcome s (after (some e)) (errno_message net (codes "sigprocmask") e) refl refl
