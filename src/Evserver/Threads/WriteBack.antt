-- ===== src/Evserver/Threads/WriteBack.antt =====
-- The loop of serve that writes a request back (evserver/src/server_threads.cpp).
use mathlib.Core.List.{append-nil, append_assoc}
use linux_internals.Evserver.Epoll.{WriteNext, go_on, give_up}
use linux_internals.Evserver.Kernel.{
  eagain, eintr, other, WriteAnswer, wrote, write_failed, write_call, close_call, Trace, Kernel,
  received, sent, Posix,
}
use linux_internals.Prelude.{
  ℕ, zero, suc, ◌+◌, ◌≤◌, ◌≡◌, refl, ap, ◌∙◌, inl, inr, Bool, true, false, Option, some, ◌∷◌, ◌++◌,
  arith, ltb, ltb→lt, ltb→le, Bool-cases, length, take, drop, length-drop, take-append-take, Text,
}
use linux_internals.Evserver.Threads.{after_blocking, Worker, blocking_write, write_back}

-- The last write before the close failed, or wrote nothing.
pub gave_up : Trace → Bool
gave_up (close_call d ∷ write_call fd bytes a ∷ t) = elim (after_blocking a) [
  | go_on n ↦ false
  | give_up ↦ true
]
gave_up _ = false

-- Of `bytes`, the first `count` have been sent on `fd` after `base`, with what that says of the result.
pub record Wrote (fd : ℕ) (bytes base input : Text) (out : Option Bool × Worker) : Type 0 where
  pub count : ℕ
  pub bounded : count ≤ length bytes
  pub exact : sent fd out.1.trace ≡ base ++ take count bytes
  pub input_kept : received fd out.1.trace ≡ input
  pub complete : out.0 ≡ some true → count ≡ length bytes
  pub failed : out.0 ≡ some false → gave_up (close_call fd ∷ out.1.trace) ≡ true

sent-blocking :
    (fd : ℕ) (t : Trace) (offered : Text) (a : WriteAnswer) (n : ℕ)
    → ((m : ℕ) → a ≡ wrote m → m ≤ length offered)
    → after_blocking a ≡ go_on n
    → (n ≤ length offered) × (sent fd (write_call fd offered a ∷ t) ≡ sent fd t ++ take n offered)
unfolding after_blocking sent
sent-blocking fd t offered (wrote m) n law h = ground (arith, law m refl, append-nil (sent fd t))
sent-blocking fd t offered (write_failed eagain) n law h = cc
sent-blocking fd t offered (write_failed eintr) n law h = ground (arith, append-nil (sent fd t))
sent-blocking fd t offered (write_failed (other e)) n law h = cc

sent-blocking_give_up :
    (fd : ℕ) (t : Trace) (offered : Text) (a : WriteAnswer)
    → after_blocking a ≡ give_up
    → sent fd (write_call fd offered a ∷ t) ≡ sent fd t
unfolding after_blocking sent
sent-blocking_give_up fd t offered (wrote zero) h = ground (arith, append-nil (sent fd t))
sent-blocking_give_up fd t offered (wrote (suc m)) h = ground arith
sent-blocking_give_up fd t offered (write_failed eagain) h = refl
sent-blocking_give_up fd t offered (write_failed eintr) h = cc
sent-blocking_give_up fd t offered (write_failed (other e)) h = refl

gave_up_now :
    (fd : ℕ) (offered : Text) (a : WriteAnswer) (t : Trace)
    → after_blocking a ≡ give_up
    → gave_up (close_call fd ∷ write_call fd offered a ∷ t) ≡ true
unfolding gave_up
gave_up_now fd offered a t h = rw (h, gave_up) refl

module _ (k : Kernel) (law : Posix k) (fd : ℕ) (bytes base input : Text) where
  -- The first `w` bytes have been sent after `base`.
  pub record SoFar (w : ℕ) (s : Worker) : Type 0 where
    pub bounded : w ≤ length bytes
    pub exact : sent fd s.trace ≡ base ++ take w bytes
    pub input_kept : received fd s.trace ≡ input

  -- What a write leaves, by what the loop does with its result.
  one_round :
      (w : ℕ) (s : Worker)
      → SoFar w s
      → ltb w (length bytes) ≡ true
      → (rest : ℕ → Option Bool × Worker)
      → ((n : ℕ)
          → SoFar (w + n) (blocking_write k fd (drop w bytes) s).1
          → Wrote fd bytes base input (rest n))
      → (a : WriteNext) → after_blocking (blocking_write k fd (drop w bytes) s).0 ≡ a
      → Wrote fd bytes base input (elim a as (λ _. Option Bool × Worker) [
        | go_on n ↦ rest n
        | give_up ↦ (some false, (blocking_write k fd (drop w bytes) s).1)
      ])
  unfolding blocking_write received
  one_round w s p more rest ih (go_on n) h =
      let offered = drop w bytes in
      let (fits, grown) =
        sent-blocking fd s.trace offered (k.write s.trace fd offered) n
          (law.write_bound s.trace fd offered) h in
      ih n (record {
        bounded = omega (arith, length-drop w bytes, fits, p.bounded, ltb→lt w (length bytes) more);
        exact =
            grown
            ∙ ap (λ (t : Text). t ++ take n offered) p.exact
            ∙ append_assoc base (take w bytes) (take n offered)
            ∙ ap (◌++◌ base) (take-append-take w n bytes);
        input_kept = p.input_kept;
      })
  one_round w s p more rest ih give_up h = record {
    count = w;
    bounded = p.bounded;
    exact =
        sent-blocking_give_up fd s.trace (drop w bytes) (k.write s.trace fd (drop w bytes)) h
        ∙ p.exact;
    input_kept = p.input_kept;
    complete = λ e. cc e;
    failed = λ _. gave_up_now fd (drop w bytes) (k.write s.trace fd (drop w bytes)) s.trace h;
  }

  pub write_back-Wrote :
      (f w : ℕ) (s : Worker) → SoFar w s → Wrote fd bytes base input (write_back k f fd bytes w s)
  unfolding write_back
  write_back-Wrote zero w s p = record {
    count = w;
    bounded = p.bounded;
    exact = p.exact;
    input_kept = p.input_kept;
    complete = λ h. cc h;
    failed = λ h. cc h;
  }
  write_back-Wrote (suc f) w s p = elim (Bool-cases (ltb w (length bytes))) [
    | inr all ↦
        rw (all, write_back)
          (record {
            count = w;
            bounded = p.bounded;
            exact = p.exact;
            input_kept = p.input_kept;
            complete = λ h. omega (arith, p.bounded, ltb→le w (length bytes) all);
            failed = λ h. cc h;
          })
    | inl more ↦
        rw (more, write_back)
          (one_round w s p more
            (λ n. write_back k f fd bytes (w + n) (blocking_write k fd (drop w bytes) s).1)
            (λ n. write_back-Wrote f (w + n) (blocking_write k fd (drop w bytes) s).1)
            (after_blocking (blocking_write k fd (drop w bytes) s).0) refl)
  ]
