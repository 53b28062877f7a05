-- ===== src/Evserver/Threads/Returns.antt =====
-- How many rounds the loop of serve that writes a request back takes (evserver/src/server_threads.cpp).
use linux_internals.Evserver.Epoll.Total.{stalls, Drains, moved, stalled}
use linux_internals.Evserver.Epoll.{WriteNext, go_on, give_up}
use linux_internals.Evserver.Kernel.{
  eagain, eintr, other, WriteAnswer, wrote, write_failed, write_call, Trace, Kernel,
}
use linux_internals.Prelude.{
  ℕ, zero, suc, ◌+◌, ◌-◌, ◌*◌, ◌≤◌, ◌<◌, ◌≡◌, refl, ◌≢◌, inl, inr, Bool, true, false, Option, some,
  ◌∷◌, arith, ltb, ltb→lt, Bool-cases, length, drop, Text,
}
use linux_internals.Evserver.Threads.{
  after_blocking, Worker, blocking_write, write_back, answer_request,
}

module _ (k : Kernel) (b : ℕ) (law : Drains b k) (fd : ℕ) (bytes : Text) where
  -- One round, by the answer of its write.
  blocking_falls :
      (a : WriteAnswer) (w n : ℕ) (t : Trace)
      → w < length bytes
      → ((b ≤ stalls t) → (a ≢ write_failed eagain) × (a ≢ write_failed eintr))
      → after_blocking a ≡ go_on n
      → (length bytes - (w + n)) * suc b + (b - stalls (write_call fd (drop w bytes) a ∷ t))
        < (length bytes - w) * suc b + (b - stalls t)
  unfolding stalls after_blocking
  blocking_falls (wrote zero) w n t h p e = cc
  blocking_falls (wrote (suc m)) w n t h p e =
      omega (arith, moved (length bytes) w n b (b - stalls t) h (ground arith))
  blocking_falls (write_failed eagain) w n t h p e = cc
  blocking_falls (write_failed eintr) w n t h p e =
      stalled (length bytes) w n b (stalls t) (ground arith) (λ c. (p c).1 refl)
  blocking_falls (write_failed (other x)) w n t h p e = cc

  write_back-returns :
      (f w : ℕ) (s : Worker)
      → (length bytes - w) * suc b + (b - stalls s.trace) < f
      → (r : Bool) × ((write_back k f fd bytes w s).0 ≡ some r)
  unfolding write_back blocking_write
  write_back-returns zero w s h = absurd (omega arith)
  write_back-returns (suc f) w s h = elim (Bool-cases (ltb w (length bytes))) [
    | inr done ↦ rw (done, write_back) (true, refl)
    | inl more ↦
        rw (more, write_back)
          (one_round (k.write s.trace fd (drop w bytes))
            (λ n. write_back k f fd bytes (w + n) (blocking_write k fd (drop w bytes) s).1) _
            (λ n l. write_back-returns f (w + n) _ (
              omega (
                arith,
                blocking_falls (k.write s.trace fd (drop w bytes)) w n s.trace
                    (ltb→lt w (length bytes) more) (law s.trace fd (drop w bytes)) l,
              ))))
  ]
    where
      one_round :
          (a : WriteAnswer) (rest : ℕ → Option Bool × Worker) (s' : Worker)
          → ((n : ℕ) → after_blocking a ≡ go_on n → (r : Bool) × ((rest n).0 ≡ some r))
          → (r : Bool) × ((elim (after_blocking a) as (λ _. Option Bool × Worker) [
            | go_on n ↦ rest n
            | give_up ↦ (some false, s')
          ]).0
              ≡ some r)
      one_round a rest s' ih = go (after_blocking a) ih
        where
          go :
              (next : WriteNext)
              → ((n : ℕ) → next ≡ go_on n → (r : Bool) × ((rest n).0 ≡ some r))
              → (r : Bool) × ((elim next as (λ _. Option Bool × Worker) [
                | go_on n ↦ rest n
                | give_up ↦ (some false, s')
              ]).0
                  ≡ some r)
          go (go_on n) more = more n refl
          go give_up more = (false, refl)

-- If at most `b` writes in a row fail with EAGAIN or EINTR, the loop of serve that writes a request
-- back is left within (size + 1) * (b + 1) rounds.
pub answer_request_returns :
    (k : Kernel) (b : ℕ) (fd : ℕ) (bytes : Text) (f : ℕ) (s : Worker)
    → Drains b k
    → (length bytes + 1) * (b + 1) ≤ f
    → (r : Bool) × ((answer_request k f fd bytes s).0 ≡ some r)
unfolding answer_request
answer_request_returns k b fd bytes f s law h =
    write_back-returns k b law fd bytes f 0 _ (grind arith)
