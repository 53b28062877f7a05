-- ===== src/Evserver/Epoll/Write.antt =====
-- write_all of evserver/src/server_epoll.cpp.
use mathlib.Core.List.{append-nil, append_assoc}
use linux_internals.Prelude.{
  ℕ, zero, suc, ◌+◌, ◌≤◌, ◌<◌, ◌≡◌, refl, sym, ap, ◌∙◌, ◌≢◌, inl, inr, Bool, true, false, Option,
  none, some, ◌∷◌, ◌++◌, arith, ltb, ltb→lt, ltb→le, Bool-cases, length, take, drop, length-drop,
  take-append-take, Text,
}
use linux_internals.Evserver.Kernel.{
  eagain, eintr, other, WriteAnswer, wrote, write_failed, write_call, Trace, Kernel, received, sent,
  is_closed, Posix,
}
use linux_internals.Evserver.Epoll.{
  EpollServer, WriteNext, go_on, give_up, after_write, write_once, write_loop, write_all,
}

-- Of `bytes`, the first `w` have been sent on `fd` after `base`; all of them after a true result, and
-- not all after a false one.
pub record Sent (fd : ℕ) (bytes base : Text) (out : Option Bool × EpollServer) : Type 0 where
  pub count : ℕ
  pub bounded : count ≤ length bytes
  pub exact : sent fd out.1.trace ≡ base ++ take count bytes
  pub complete : out.0 ≡ some true → count ≡ length bytes
  pub partial : out.0 ≡ some false → count < length bytes

module _ (k : Kernel) (f fd : ℕ) (bytes : Text) (written : ℕ) (s : EpollServer) where
  -- The write of one round.
  abbrev write_here : WriteAnswer × EpollServer
  write_here = write_once k fd (drop written bytes) s

  pub write_loop_done :
      ltb written (length bytes) ≡ false → write_loop k (suc f) fd bytes written s ≡ (some true, s)
  unfolding write_loop
  write_loop_done h = rw (h, write_loop)

  pub write_loop_give_up :
      ltb written (length bytes) ≡ true
      → after_write write_here.0 ≡ give_up
      → write_loop k (suc f) fd bytes written s ≡ (some false, write_here.1)
  unfolding write_loop
  write_loop_give_up h a = rw (h, a, write_loop)

  pub write_loop_go_on :
      (n : ℕ)
      → ltb written (length bytes) ≡ true
      → after_write write_here.0 ≡ go_on n
      → write_loop k (suc f) fd bytes written s ≡ write_loop k f fd bytes (written + n) write_here.1
  unfolding write_loop
  write_loop_go_on n h a = rw (h, a, write_loop)

-- The rule for the loop: `P` holds at the start of each round, and `Q` of what it leaves.
module _ (k : Kernel) (fd : ℕ) (bytes : Text) (P : ℕ → EpollServer → Type 0)
    (Q : Option Bool × EpollServer → Type 0)
    (spent : (w : ℕ) (s : EpollServer) → P w s → Q (none, s))
    (done : (w : ℕ) (s : EpollServer) → P w s → ltb w (length bytes) ≡ false → Q (some true, s))
    (stop : (w : ℕ) (s : EpollServer)
      → P w s
      → ltb w (length bytes) ≡ true
      → after_write (write_once k fd (drop w bytes) s).0 ≡ give_up
      → Q (some false, (write_once k fd (drop w bytes) s).1))
    (next : (w n : ℕ) (s : EpollServer)
      → P w s
      → ltb w (length bytes) ≡ true
      → after_write (write_once k fd (drop w bytes) s).0 ≡ go_on n
      → P (w + n) (write_once k fd (drop w bytes) s).1) where
  round :
      (f w : ℕ) (s : EpollServer)
      → P w s
      → ltb w (length bytes) ≡ true
      → ((n : ℕ)
          → P (w + n) (write_once k fd (drop w bytes) s).1
          → Q (write_loop k f fd bytes (w + n) (write_once k fd (drop w bytes) s).1))
      → (a : WriteNext) → after_write (write_once k fd (drop w bytes) s).0 ≡ a
      → Q (write_loop k (suc f) fd bytes w s)
  round f w s p more ih (go_on n) h =
      rw (write_loop_go_on k f fd bytes w s n more h) (ih n (next w n s p more h))
  round f w s p more ih give_up h =
      rw (write_loop_give_up k f fd bytes w s more h) (stop w s p more h)

  pub write_loop_rule : (f w : ℕ) (s : EpollServer) → P w s → Q (write_loop k f fd bytes w s)
  write_loop_rule zero w s p = unfold write_loop in spent w s p
  write_loop_rule (suc f) w s p = elim (Bool-cases (ltb w (length bytes))) [
    | inr all ↦ rw (write_loop_done k f fd bytes w s all) (done w s p all)
    | inl more ↦
        round f w s p more (λ n. write_loop_rule f (w + n) (write_once k fd (drop w bytes) s).1)
          (after_write (write_once k fd (drop w bytes) s).0) refl
  ]

-- A write that does not stop the loop extends what was sent by what it accepted.
sent-write_call :
    (fd : ℕ) (t : Trace) (offered : Text) (a : WriteAnswer) (n : ℕ)
    → ((m : ℕ) → a ≡ wrote m → m ≤ length offered)
    → after_write a ≡ go_on n
    → (n ≤ length offered) × (sent fd (write_call fd offered a ∷ t) ≡ sent fd t ++ take n offered)
unfolding after_write sent
sent-write_call fd t offered (wrote m) n law h = ground (arith, law m refl, append-nil (sent fd t))
sent-write_call fd t offered (write_failed eagain) n law h = ground (arith, append-nil (sent fd t))
sent-write_call fd t offered (write_failed eintr) n law h = ground (arith, append-nil (sent fd t))
sent-write_call fd t offered (write_failed (other e)) n law h = cc

sent-give_up :
    (fd : ℕ) (t : Trace) (offered : Text) (a : WriteAnswer)
    → after_write a ≡ give_up
    → sent fd (write_call fd offered a ∷ t) ≡ sent fd t
unfolding after_write sent
sent-give_up fd t offered (wrote zero) h = ground (arith, append-nil (sent fd t))
sent-give_up fd t offered (wrote (suc m)) h = ground arith
sent-give_up fd t offered (write_failed eagain) h = cc
sent-give_up fd t offered (write_failed eintr) h = cc
sent-give_up fd t offered (write_failed (other e)) h = refl

module _ (k : Kernel) (law : Posix k) (fd : ℕ) (bytes base : Text) where
  -- The first `w` bytes have been sent after `base`.
  record SentSoFar (w : ℕ) (s : EpollServer) : Type 0 where
    bounded : w ≤ length bytes
    exact : sent fd s.trace ≡ base ++ take w bytes

  next-SentSoFar :
      (w n : ℕ) (s : EpollServer)
      → SentSoFar w s
      → ltb w (length bytes) ≡ true
      → after_write (write_once k fd (drop w bytes) s).0 ≡ go_on n
      → SentSoFar (w + n) (write_once k fd (drop w bytes) s).1
  unfolding write_once
  next-SentSoFar w n s p more h =
      let rest = drop w bytes in
      let (fits, grown) =
        sent-write_call fd s.trace rest (k.write s.trace fd rest) n
          (law.write_bound s.trace fd rest) h in
      record {
        bounded = omega (arith, length-drop w bytes, p.bounded, ltb→lt w (length bytes) more);
        exact =
            grown
            ∙ ap (λ (t : Text). t ++ take n rest) p.exact
            ∙ append_assoc base (take w bytes) (take n rest)
            ∙ ap (◌++◌ base) (take-append-take w n bytes);
      }

  stop-SentSoFar :
      (w : ℕ) (s : EpollServer)
      → SentSoFar w s
      → after_write (write_once k fd (drop w bytes) s).0 ≡ give_up
      → SentSoFar w (write_once k fd (drop w bytes) s).1
  unfolding write_once
  stop-SentSoFar w s p h = record {
    bounded = p.bounded;
    exact = sent-give_up fd s.trace (drop w bytes) (k.write s.trace fd (drop w bytes)) h ∙ p.exact;
  }

  Sent-of :
      {out : Option Bool × EpollServer} (w : ℕ)
      → SentSoFar w out.1
      → (out.0 ≡ some true → w ≡ length bytes)
      → (out.0 ≡ some false → w < length bytes)
      → Sent fd bytes base out
  Sent-of w p c d = record {
    count = w;
    bounded = p.bounded;
    exact = p.exact;
    complete = c;
    partial = d;
  }

  -- Over a kernel that keeps `Posix`, write_all adds to what was sent on the descriptor a prefix of
  -- the bytes: the whole of it when it returns true, and less when it returns false.
  pub write_all-Sent :
      (f : ℕ) (s : EpollServer)
      → sent fd s.trace ≡ base
      → Sent fd bytes base (write_all k f fd bytes s)
  unfolding write_all
  write_all-Sent f s e =
      write_loop_rule k fd bytes SentSoFar (Sent fd bytes base)
        (λ w s p. Sent-of w p (λ h. cc) (λ h. cc))
        (λ w s p h.
          Sent-of w p (λ _. omega (arith, p.bounded, ltb→le w (length bytes) h)) (λ h. cc))
        (λ w s p more h.
          Sent-of w (stop-SentSoFar w s p h) (λ h. cc) (λ _. ltb→lt w (length bytes) more))
        next-SentSoFar f 0 s (record { bounded = omega arith; exact = e ∙ sym (append-nil base) })

-- write_all touches nothing but what is sent on its descriptor, and the counters.
pub record Writes (fd : ℕ) (s s' : EpollServer) : Type 0 where
  pub cfg : s'.cfg ≡ s.cfg
  pub received : (d : ℕ) → received d s'.trace ≡ received d s.trace
  pub is_closed : (d : ℕ) → is_closed d s'.trace ≡ is_closed d s.trace
  pub others : (d : ℕ) → d ≢ fd → sent d s'.trace ≡ sent d s.trace

sent-write_call_ne :
    (fd d : ℕ) (t : Trace) (offered : Text) (a : WriteAnswer)
    → d ≢ fd
    → sent d (write_call fd offered a ∷ t) ≡ sent d t
unfolding sent
sent-write_call_ne fd d t offered (wrote n) h = ground (arith, append-nil (sent d t))
sent-write_call_ne fd d t offered (write_failed e) h = refl

module _ (k : Kernel) (fd : ℕ) (bytes : Text) where
  write_once-Writes :
      (offered : Text) {s s' : EpollServer}
      → Writes fd s s'
      → Writes fd s (write_once k fd offered s').1
  unfolding write_once received is_closed
  write_once-Writes offered {s} {s'} p = record {
    cfg = p.cfg;
    received = p.received;
    is_closed = p.is_closed;
    others = λ d ne.
        sent-write_call_ne fd d s'.trace offered (k.write s'.trace fd offered) ne ∙ p.others d ne;
  }

  pub write_all-Writes : (f : ℕ) (s : EpollServer) → Writes fd s (write_all k f fd bytes s).1
  unfolding write_all
  write_all-Writes f s =
      write_loop_rule k fd bytes (λ _ s'. Writes fd s s') (λ out. Writes fd s out.1) (λ w s p. p)
        (λ w s p h. p) (λ w s p more h. write_once-Writes (drop w bytes) p)
        (λ w n s p more h. write_once-Writes (drop w bytes) p) f 0 s
        (record { cfg = refl; received = λ d. refl; is_closed = λ d. refl; others = λ d ne. refl })
