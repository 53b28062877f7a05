-- ===== src/Evserver/Epoll/Rounds.antt =====
-- read_loop of evserver/src/server_epoll.cpp, one round at a time, and the rule for the loop.
use linux_internals.Prelude.{
  ℕ, zero, suc, ◌≡◌, refl, ap, ◌∙◌, ◌⊎◌, inl, inr, Bool, true, false, Option, none, some, [], ◌∷◌,
  Bool-cases, Text,
}
use linux_internals.Evserver.Stats.{bump_eagain}
use linux_internals.Evserver.Kernel.{eagain, eintr, other, ReadAnswer, got, read_failed, Kernel}
use linux_internals.Evserver.Epoll.{
  EpollServer, edge_triggered, count, close_connection, read_once, echo, read_loop,
}

module _ (k : Kernel) (f fd : ℕ) (s : EpollServer) where
  abbrev read_here : ReadAnswer × EpollServer
  read_here = read_once k fd s

  pub read_loop_end :
      read_here.0 ≡ got [] → read_loop k (suc f) fd s ≡ close_connection fd read_here.1
  unfolding read_loop
  read_loop_end h = rw (h, read_loop)

  pub read_loop_error :
      (e : ℕ)
      → read_here.0 ≡ read_failed (other e)
      → read_loop k (suc f) fd s ≡ close_connection fd read_here.1
  unfolding read_loop
  read_loop_error e h = rw (h, read_loop)

  pub read_loop_drained :
      read_here.0 ≡ read_failed eagain → read_loop k (suc f) fd s ≡ count bump_eagain read_here.1
  unfolding read_loop
  read_loop_drained h = rw (h, read_loop)

  pub read_loop_again :
      read_here.0 ≡ read_failed eintr → read_loop k (suc f) fd s ≡ read_loop k f fd read_here.1
  unfolding read_loop
  read_loop_again h = rw (h, read_loop)

  module _ (b : ℕ) (bs : Text) (h : read_here.0 ≡ got (b ∷ bs)) where
    abbrev echo_here : Option Bool × EpollServer
    echo_here = echo k f fd (b ∷ bs) read_here.1

    pub read_loop_spent : echo_here.0 ≡ none → read_loop k (suc f) fd s ≡ (none, echo_here.1)
    unfolding read_loop
    read_loop_spent e = rw (h, e, read_loop)

    pub read_loop_broken :
        echo_here.0 ≡ some false → read_loop k (suc f) fd s ≡ (some tt, echo_here.1)
    unfolding read_loop
    read_loop_broken e = rw (h, e, read_loop)

    pub read_loop_level :
        echo_here.0 ≡ some true
        → edge_triggered echo_here.1 ≡ false
        → read_loop k (suc f) fd s ≡ (some tt, echo_here.1)
    unfolding read_loop
    read_loop_level e m = rw (h, e, m, read_loop)

    pub read_loop_edge :
        echo_here.0 ≡ some true
        → edge_triggered echo_here.1 ≡ true
        → read_loop k (suc f) fd s ≡ read_loop k f fd echo_here.1
    unfolding read_loop
    read_loop_edge e m = rw (h, e, m, read_loop)

-- `P` holds when a round begins, `R f` of what `echo` leaves, and `Q` of what the loop leaves.
module _ (k : Kernel) (fd : ℕ) (P : EpollServer → Type 0) (R : Option Bool × EpollServer → Type 0)
    (Q : Option Unit × EpollServer → Type 0) (spent : (s : EpollServer) → P s → Q (none, s))
    (closes : (s : EpollServer)
      → P s
      → ((read_once k fd s).0 ≡ got []) ⊎ ((e : ℕ) × ((read_once k fd s).0 ≡ read_failed (other e)))
      → Q (close_connection fd (read_once k fd s).1))
    (drained : (s : EpollServer)
      → P s
      → (read_once k fd s).0 ≡ read_failed eagain
      → Q (count bump_eagain (read_once k fd s).1))
    (again : (s : EpollServer)
      → P s
      → (read_once k fd s).0 ≡ read_failed eintr
      → P (read_once k fd s).1)
    (echoes : (f b : ℕ) (bs : Text) (s : EpollServer)
      → P s
      → (read_once k fd s).0 ≡ got (b ∷ bs)
      → R (echo k f fd (b ∷ bs) (read_once k fd s).1))
    (echo_spent : (s : EpollServer) → R (none, s) → Q (none, s))
    (broken : (s : EpollServer) → R (some false, s) → Q (some tt, s))
    (level : (s : EpollServer) → R (some true, s) → edge_triggered s ≡ false → Q (some tt, s))
    (edge : (s : EpollServer) → R (some true, s) → edge_triggered s ≡ true → P s) where
  after_echo :
      (f b : ℕ) (bs : Text) (s : EpollServer)
      → (read_once k fd s).0 ≡ got (b ∷ bs)
      → ((s' : EpollServer) → P s' → Q (read_loop k f fd s'))
      → (r : Option Bool) (s' : EpollServer) → echo k f fd (b ∷ bs) (read_once k fd s).1 ≡ (r, s')
      → R (r, s')
      → Q (read_loop k (suc f) fd s)
  after_echo f b bs s h ih none s' e p =
      rw (read_loop_spent k f fd s b bs h (ap (λ x. x.0) e), ap (λ x. x.1) e) (echo_spent s' p)
  after_echo f b bs s h ih (some false) s' e p =
      rw (read_loop_broken k f fd s b bs h (ap (λ x. x.0) e), ap (λ x. x.1) e) (broken s' p)
  after_echo f b bs s h ih (some true) s' e p =
      let result = ap (λ x. x.0) e in
      let state = ap (λ x. x.1) e in
      elim (Bool-cases (edge_triggered s')) [
        | inl m ↦
            rw (read_loop_edge k f fd s b bs h result (ap edge_triggered state ∙ m), state)
              (ih s' (edge s' p m))
        | inr m ↦
            rw (read_loop_level k f fd s b bs h result (ap edge_triggered state ∙ m), state)
              (level s' p m)
      ]

  round :
      (f : ℕ) (s : EpollServer)
      → P s
      → ((s' : EpollServer) → P s' → Q (read_loop k f fd s'))
      → (a : ReadAnswer) → (read_once k fd s).0 ≡ a
      → Q (read_loop k (suc f) fd s)
  round f s p ih (got []) h = rw (read_loop_end k f fd s h) (closes s p (inl h))
  round f s p ih (got (b ∷ bs)) h =
      let out = echo k f fd (b ∷ bs) (read_once k fd s).1 in
      after_echo f b bs s h ih out.0 out.1 refl (echoes f b bs s p h)
  round f s p ih (read_failed eagain) h = rw (read_loop_drained k f fd s h) (drained s p h)
  round f s p ih (read_failed eintr) h = rw (read_loop_again k f fd s h) (ih _ (again s p h))
  round f s p ih (read_failed (other e)) h =
      rw (read_loop_error k f fd s e h) (closes s p (inr (e, h)))

  pub read_loop_rule : (f : ℕ) (s : EpollServer) → P s → Q (read_loop k f fd s)
  read_loop_rule zero s p = unfold read_loop in spent s p
  read_loop_rule (suc f) s p = round f s p (read_loop_rule f) (read_once k fd s).0 refl
