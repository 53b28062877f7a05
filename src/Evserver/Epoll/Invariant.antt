-- ===== src/Evserver/Epoll/Invariant.antt =====
-- The echo invariant of evserver/src/server_epoll.cpp, and the calls that cannot break it.
use native.Mathlib.Decide.{ℕ_discrete}
use linux_internals.Prelude.{ℕ, ◌≡◌, refl, sym, ap, ◌∙◌, ◌≢◌, Bool, Option, some, ◌∷◌, ◌++◌, Text}
use linux_internals.Evserver.Kernel.{
  Errno, read_failed, accept_failed, WaitAnswer, Call, read_call, accept_call, add_call,
  nodelay_call, wait_call, signal_call, Trace, received, sent, is_closed,
}
use linux_internals.Evserver.Epoll.{EpollServer}
use linux_internals.Evserver.Epoll.Local.{Local}
use linux_internals.Evserver.Epoll.Chunk.{Echoed}

-- Between two calls: what each connection has delivered begins with what it was sent, and on an open
-- connection the two are the same.
abbrev pub EchoInv : EpollServer → Type 0
EchoInv s = (d : ℕ) → Echoed d (some tt, s)

-- The same of what a call leaves, without the equality where its fuel was spent on the way.
abbrev pub EchoAfter : Option (Unit {0}) × EpollServer → Type 0
EchoAfter out = (d : ℕ) → Echoed d out

pub weaken :
    (d : ℕ) (r : Option (Unit {0})) (s : EpollServer) → Echoed d (some tt, s) → Echoed d (r, s)
weaken d r s e = record { rest = e.rest; prefix = e.prefix; settled = λ h. e.settled refl }

pub relabel :
    (out : Option (Unit {0}) × EpollServer) (r : Option (Unit {0}))
    → out.0 ≡ r
    → EchoAfter out
    → EchoAfter (r, out.1)
relabel out r e p d = record {
  rest = (p d).rest;
  prefix = (p d).prefix;
  settled = λ h. (p d).settled (e ∙ h);
}

pub Echoed-other :
    (fd d : ℕ) (s : EpollServer) (out : Option (Unit {0}) × EpollServer)
    → d ≢ fd
    → Local fd s out.1
    → Echoed d (some tt, s)
    → Echoed d out
Echoed-other fd d s out ne l e = record {
  rest = e.rest;
  prefix = l.received d ne ∙ e.prefix ∙ ap (λ (t : Text). t ++ e.rest) (sym (l.sent d ne));
  settled = λ h c. e.settled refl (sym (l.is_closed d ne) ∙ c);
}

-- A call on one connection keeps the rest.
pub EchoAfter-of :
    (fd : ℕ) (s : EpollServer) (out : Option (Unit {0}) × EpollServer)
    → EchoInv s
    → Local fd s out.1 × Echoed fd out
    → EchoAfter out
EchoAfter-of fd s out inv p d = elim (ℕ_discrete d fd) [
  | yes e ↦ rw e p.1
  | no ne ↦ Echoed-other fd d s out ne p.0 (inv d)
]

-- A call that is none of read, write, accept and close.
abbrev pub IsSilent : Call → Type 0
IsSilent c =
    (d : ℕ) (t : Trace)
    → (received d (c ∷ t) ≡ received d t)
      × (sent d (c ∷ t) ≡ sent d t)
      × (is_closed d (c ∷ t) ≡ is_closed d t)

pub EchoInv-silent :
    (c : Call) (s s' : EpollServer) → IsSilent c → s'.trace ≡ c ∷ s.trace → EchoInv s → EchoInv s'
EchoInv-silent c s s' quiet e inv d =
    let (r, w, o) = quiet d s.trace in
    record {
      rest = (inv d).rest;
      prefix =
          ap (received d) e
          ∙ r
          ∙ (inv d).prefix
          ∙ ap (λ (t : Text). t ++ (inv d).rest) (sym (ap (sent d) e ∙ w));
      settled = λ h c'. (inv d).settled refl (sym (ap (is_closed d) e ∙ o) ∙ c');
    }

pub read_failed-IsSilent : (fd : ℕ) (n : Errno) → IsSilent (read_call fd (read_failed n))
unfolding received sent is_closed
read_failed-IsSilent fd n d t = (refl, refl, refl)

pub wait-IsSilent : (a : WaitAnswer) → IsSilent (wait_call a)
unfolding received sent is_closed
wait-IsSilent a d t = (refl, refl, refl)

pub signal-IsSilent : (whole : Bool) → IsSilent (signal_call whole)
unfolding received sent is_closed
signal-IsSilent whole d t = (refl, refl, refl)

pub nodelay-IsSilent : (fd : ℕ) → IsSilent (nodelay_call fd)
unfolding received sent is_closed
nodelay-IsSilent fd d t = (refl, refl, refl)

pub add-IsSilent : (fd : ℕ) (edge added : Bool) → IsSilent (add_call fd edge added)
unfolding received sent is_closed
add-IsSilent fd edge added d t = (refl, refl, refl)

pub accept_failed-IsSilent : (n : Errno) → IsSilent (accept_call (accept_failed n))
unfolding received sent is_closed
accept_failed-IsSilent n d t = (refl, refl, refl)
