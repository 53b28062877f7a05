-- ===== src/Evserver/Epoll/Total.antt =====
-- How many rounds the loop of write_all of evserver/src/server_epoll.cpp takes.

use linux_internals.Prelude.{
  ℕ, zero, suc, ◌+◌, ◌-◌, ◌*◌, ◌≤◌, ◌<◌, ◌≡◌, refl, ◌≢◌, inl, inr, Bool, true, false, some, ◌∷◌,
  arith, ltb, ltb→lt, Bool-cases, length, drop, Text,
}
use linux_internals.Evserver.Kernel.{
  eagain, eintr, other, WriteAnswer, wrote, write_failed, write_call, Trace, Kernel,
}
use linux_internals.Evserver.Epoll.{
  EpollServer, WriteNext, go_on, give_up, after_write, write_once, write_loop, write_all,
}
use linux_internals.Evserver.Epoll.Write.{write_loop_done, write_loop_give_up, write_loop_go_on}

-- How many writes in a row, up to now, have failed with EAGAIN or EINTR.
unfoldable pub stalls : Trace → ℕ
stalls (write_call fd bytes (write_failed eagain) ∷ t) = suc (stalls t)
stalls (write_call fd bytes (write_failed eintr) ∷ t) = suc (stalls t)
stalls _ = 0

-- A socket whose peer reads, on a kernel that interrupts finitely often: after `b` failures in a row
-- a write moves on, or fails for good.
abbrev pub Drains : ℕ → Kernel → Type 0
Drains b k =
    (t : Trace) (fd : ℕ) (bytes : Text)
    → b ≤ stalls t
    → (k.write t fd bytes ≢ write_failed eagain) × (k.write t fd bytes ≢ write_failed eintr)

pub moved : (l w n b x : ℕ) → w < l → 0 < n → (l - (w + n)) * suc b + b < (l - w) * suc b + x
moved l w n b x h p = grind (arith, fewer)
  where
    fewer : (l - (w + n) + 1) * suc b ≤ (l - w) * suc b
    fewer = grind arith

pub stalled :
    (l w n b x : ℕ)
    → n ≡ 0
    → ¬ (b ≤ x)
    → (l - (w + n)) * suc b + (b - suc x) < (l - w) * suc b + (b - x)
stalled l w n b x e h = rw e (same w (w + 0) (omega arith))
  where
    same : (u v : ℕ) → v ≡ u → (l - v) * suc b + (b - suc x) < (l - u) * suc b + (b - x)
    same u v p = rw p (omega arith)

module _ (k : Kernel) (b : ℕ) (law : Drains b k) (fd : ℕ) (bytes : Text) where
  -- Rounds that may still be made.
  abbrev rounds : ℕ → EpollServer → ℕ
  rounds w s = (length bytes - w) * suc b + (b - stalls s.trace)

  -- One round, by the answer of its write.
  answer_falls :
      (a : WriteAnswer) (w n : ℕ) (t : Trace)
      → w < length bytes
      → ((b ≤ stalls t) → (a ≢ write_failed eagain) × (a ≢ write_failed eintr))
      → after_write a ≡ go_on n
      → (length bytes - (w + n)) * suc b + (b - stalls (write_call fd (drop w bytes) a ∷ t))
        < (length bytes - w) * suc b + (b - stalls t)
  unfolding stalls after_write
  answer_falls (wrote zero) w n t h p e = cc
  answer_falls (wrote (suc m)) w n t h p e =
      omega (arith, moved (length bytes) w n b (b - stalls t) h (ground arith))
  answer_falls (write_failed eagain) w n t h p e =
      stalled (length bytes) w n b (stalls t) (ground arith) (λ c. (p c).0 refl)
  answer_falls (write_failed eintr) w n t h p e =
      stalled (length bytes) w n b (stalls t) (ground arith) (λ c. (p c).1 refl)
  answer_falls (write_failed (other x)) w n t h p e = cc

  rounds_fall :
      (w n : ℕ) (s : EpollServer)
      → w < length bytes
      → after_write (write_once k fd (drop w bytes) s).0 ≡ go_on n
      → rounds (w + n) (write_once k fd (drop w bytes) s).1 < rounds w s
  unfolding write_once
  rounds_fall w n s h e =
      answer_falls (k.write s.trace fd (drop w bytes)) w n s.trace h (law s.trace fd (drop w bytes))
        e

  write_loop_returns :
      (f w : ℕ) (s : EpollServer)
      → rounds w s < f
      → (r : Bool) × ((write_loop k f fd bytes w s).0 ≡ some r)
  write_loop_returns zero w s h = absurd (omega arith)
  write_loop_returns (suc f) w s h = elim (Bool-cases (ltb w (length bytes))) [
    | inr done ↦ rw (write_loop_done k f fd bytes w s done) (true, refl)
    | inl more ↦
        go more (λ n. write_loop_returns f (w + n) _)
          (after_write (write_once k fd (drop w bytes) s).0) refl
  ]
    where
      go :
          ltb w (length bytes) ≡ true
          → ((n : ℕ)
              → rounds (w + n) (write_once k fd (drop w bytes) s).1 < f
              → (r : Bool) × ((write_loop k f fd bytes
                    (w + n)
                    (write_once k fd (drop w bytes) s).1).0
                  ≡ some r))
          → (a : WriteNext) → after_write (write_once k fd (drop w bytes) s).0 ≡ a
          → (r : Bool) × ((write_loop k (suc f) fd bytes w s).0 ≡ some r)
      go more ih give_up e = rw (write_loop_give_up k f fd bytes w s more e) (false, refl)
      go more ih (go_on n) e =
          rw (write_loop_go_on k f fd bytes w s n more e)
            (ih n (omega (arith, rounds_fall w n s (ltb→lt w (length bytes) more) e)))

-- If at most `b` writes in a row fail with EAGAIN or EINTR (on any descriptor), write_all
-- returns within (size + 1) * (b + 1) rounds.
pub write_all_returns :
    (k : Kernel) (b : ℕ) (fd : ℕ) (bytes : Text) (f : ℕ) (s : EpollServer)
    → Drains b k
    → (length bytes + 1) * (b + 1) ≤ f
    → (r : Bool) × ((write_all k f fd bytes s).0 ≡ some r)
unfolding write_all
write_all_returns k b fd bytes f s law h = write_loop_returns k b law fd bytes f 0 s (grind arith)
