-- ===== src/Evserver/Loadgen/Replies.antt =====
-- The loop of worker that reads a reply (evserver/bench/loadgen.cpp).

use linux_internals.Prelude.{
  ℕ, zero, suc, ◌+◌, ◌-◌, ◌≤◌, ◌<◌, ◌≡◌, refl, ap, inl, inr, Bool, true, false, Option, none, some,
  List, [], ◌∷◌, ◌++◌, arith, ltb, ltb→lt, ltb→le, Bool-cases, length, Text,
}
use linux_internals.Evserver.Kernel.{ReadAnswer, got, read_failed, wrote}
use linux_internals.Evserver.Loadgen.{
  clock_read, payload_written, reply_read, Exchanges, Peer, Client, noted, read_reply,
}

-- The bytes that the writes took, and those that the reads gave.
unfoldable pub bytes_sent : Exchanges → ℕ
bytes_sent [] = 0
bytes_sent (payload_written (wrote n) ∷ t) = bytes_sent t + n
bytes_sent (e ∷ t) = bytes_sent t

unfoldable pub bytes_received : Exchanges → ℕ
bytes_received [] = 0
bytes_received (reply_read (got bytes) ∷ t) = bytes_received t + length bytes
bytes_received (e ∷ t) = bytes_received t

-- The last reading of the clock.
unfoldable pub latest : Exchanges → ℕ
latest [] = 0
latest (clock_read t ∷ more) = t
latest (e ∷ more) = latest more

-- All of them, in order.
unfoldable pub clocks : Exchanges → List ℕ
clocks [] = []
clocks (clock_read t ∷ more) = clocks more ++ (t ∷ [])
clocks (e ∷ more) = clocks more

-- write(2) and read(2) as documented, and a clock that never goes back.
pub record Honest (k : Peer) : Type 0 where
  pub write_bound :
      (t : Exchanges) (bytes : Text) (n : ℕ) → k.write t bytes ≡ wrote n → n ≤ length bytes
  pub read_bound :
      (t : Exchanges) (n : ℕ) (bytes : Text) → k.read t n ≡ got bytes → length bytes ≤ n
  pub steady : (t : Exchanges) → latest t ≤ k.now t

-- The read loop, entered with `count` bytes of the reply in s, has now `size` or fewer of them, and that
-- many when it gives true; it changed nothing else.
pub record Reply (size count : ℕ) (s : Client) (out : Option Bool × Client) : Type 0 where
  pub bytes : ℕ
  pub bounded : bytes ≤ size
  pub exact : bytes_received out.1.trace + count ≡ bytes_received s.trace + bytes
  pub same_sent : bytes_sent out.1.trace ≡ bytes_sent s.trace
  pub same_clock : latest out.1.trace ≡ latest s.trace
  pub same_clocks : clocks out.1.trace ≡ clocks s.trace
  pub same_requests : out.1.requests ≡ s.requests
  pub same_latencies : out.1.latencies ≡ s.latencies
  pub whole : out.0 ≡ some true → bytes ≡ size
  pub partial : out.0 ≡ some false → bytes < size

module _ (k : Peer) (law : Honest k) (size : ℕ) where
  -- The trace has grown by an exchange that none of the four functions reads.
  silent-Reply :
      (count : ℕ) (s : Client) (t : Exchanges) (r : Option Bool)
      → count ≤ size
      → bytes_received t ≡ bytes_received s.trace
      → bytes_sent t ≡ bytes_sent s.trace
      → latest t ≡ latest s.trace
      → clocks t ≡ clocks s.trace
      → (r ≡ some true → count ≡ size)
      → (r ≡ some false → count < size)
      → Reply size count s (r, record s { trace = t })
  silent-Reply count s t r b h1 h2 h3 h4 w p = record {
    bytes = count;
    bounded = b;
    exact = ap (λ n. n + count) h1;
    same_sent = h2;
    same_clock = h3;
    same_clocks = h4;
    same_requests = refl;
    same_latencies = refl;
    whole = w;
    partial = p;
  }

  next-Reply :
      (count : ℕ) (s : Client) (bytes : Text) (out : Option Bool × Client)
      → Reply size (count + length bytes) (noted (reply_read (got bytes)) s) out
      → Reply size count s out
  unfolding bytes_received bytes_sent latest clocks
  next-Reply count s bytes out r = record {
    bytes = r.bytes;
    bounded = r.bounded;
    exact = omega (arith, r.exact);
    same_sent = r.same_sent;
    same_clock = r.same_clock;
    same_clocks = r.same_clocks;
    same_requests = r.same_requests;
    same_latencies = r.same_latencies;
    whole = r.whole;
    partial = r.partial;
  }

  answered-Reply :
      (count : ℕ) (s : Client)
      → count < size
      → (rest : ℕ → Client → Option Bool × Client)
      → ((n : ℕ) (c : Client) → n ≤ size → Reply size n c (rest n c))
      → (a : ReadAnswer) → ((bytes : Text) → a ≡ got bytes → length bytes ≤ size - count)
      → Reply size count s (elim a as (λ _. Option Bool × Client) [
        | got [] ↦ (some false, noted (reply_read a) s)
        | got (b ∷ bs) ↦ rest (count + length (b ∷ bs)) (noted (reply_read a) s)
        | read_failed e ↦ (some false, noted (reply_read a) s)
      ])
  unfolding bytes_received bytes_sent latest clocks
  answered-Reply count s more rest ih (got []) fits =
      silent-Reply count s _ (some false) (omega (arith, more)) (omega arith) refl refl refl
        (λ h. cc h) (λ h. more)
  answered-Reply count s more rest ih (got (b ∷ bs)) fits =
      next-Reply count s (b ∷ bs) _
        (ih (count + length (b ∷ bs)) _ (omega (arith, more, fits (b ∷ bs) refl)))
  answered-Reply count s more rest ih (read_failed e) fits =
      silent-Reply count s _ (some false) (omega (arith, more)) refl refl refl refl (λ h. cc h)
        (λ h. more)

  pub read_reply-Reply :
      (f count : ℕ) (s : Client) → count ≤ size → Reply size count s (read_reply k size f count s)
  unfolding read_reply
  read_reply-Reply zero count s b =
      silent-Reply count s s.trace none b refl refl refl refl (λ h. cc h) (λ h. cc h)
  read_reply-Reply (suc f) count s b = elim (Bool-cases (ltb count size)) [
    | inr all ↦
        rw (all, read_reply)
          (silent-Reply count s s.trace (some true) b refl refl refl refl
            (λ h. omega (arith, b, ltb→le count size all)) (λ h. cc h))
    | inl more ↦
        rw (more, read_reply)
          (answered-Reply count s (ltb→lt count size more) (read_reply k size f)
            (λ n c. read_reply-Reply f n c) (k.read s.trace (size - count))
            (law.read_bound s.trace (size - count)))
  ]
