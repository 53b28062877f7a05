-- ===== src/Evserver/Loadgen/Counts.antt =====
-- The counts and the latencies of a worker of evserver/bench/loadgen.cpp at each stage of a request.
use linux_internals.Prelude.{
  ℕ, ◌+◌, ◌*◌, ◌%◌, ◌^◌, ◌≤◌, ◌<◌, ◌≡◌, refl, sym, ap, ◌∙◌, Bool, true, false, Option, some, List,
  [], ◌∷◌, ◌++◌, arith, length, All, length-append,
}
use mathlib.Core.Path.{subst}
use mathlib.Core.List.{append-nil}
use linux_internals.Evserver.Stats.{bump}
use linux_internals.Evserver.Loadgen.{Exchange, Latency, Client, noted}
use linux_internals.Evserver.Loadgen.Replies.{bytes_sent, bytes_received, latest, clocks, Reply}

abbrev pub rounds : Client → ℕ
rounds c = length c.latencies

abbrev pub InOrder : Latency → Type 0
InOrder l = l.0 ≤ l.1

-- The readings of the clock that the latencies were recorded from, in order.
unfoldable pub readings_of : List Latency → List ℕ
readings_of [] = []
readings_of (l ∷ ls) = l.0 ∷ l.1 ∷ readings_of ls

pub readings_of_more :
    (ls : List Latency) (start finish : ℕ)
    → readings_of (ls ++ ((start, finish) ∷ [])) ≡ (readings_of ls ++ (start ∷ [])) ++ (finish ∷ [])
unfolding readings_of
readings_of_more [] start finish = refl
readings_of_more (l ∷ ls) start finish =
    ap (λ (rs : List ℕ). l.0 ∷ l.1 ∷ rs) (readings_of_more ls start finish)

-- The counts and the latencies agree, with a request that is under way.
pub record Measured (size : ℕ) (c : Client) : Type 0 where
  -- ++requests wraps at 2^64.
  pub counts : c.requests ≡ length c.latencies % 2 ^ 64
  pub ordered : All (λ (l : Latency). l.0 ≤ l.1) c.latencies
  -- The clock was read twice for each latency, and once more for a request that is under way.
  pub under_way : List ℕ
  pub one_at_most : length under_way ≤ 1
  pub readings : clocks c.trace ≡ readings_of c.latencies ++ under_way
  pub asked : bytes_sent c.trace ≤ length c.latencies * size + size
  pub answered : bytes_received c.trace ≤ bytes_sent c.trace
  pub echoed : length c.latencies * size ≤ bytes_received c.trace

-- Between two requests.
pub record AtRound (size : ℕ) (c : Client) : Type 0 where
  pub counts : c.requests ≡ rounds c % 2 ^ 64
  pub ordered : All InOrder c.latencies
  pub readings : clocks c.trace ≡ readings_of c.latencies
  pub all_sent : bytes_sent c.trace ≡ rounds c * size
  pub all_echoed : bytes_received c.trace ≡ rounds c * size

-- No echo that came back whole is missing from the latencies.
abbrev pub Counted : ℕ → Client → Type 0
Counted size c = 0 < size → bytes_received c.trace < length c.latencies * size + size

pub record RoundResult (size : ℕ) (out : Option Bool × Client) : Type 0 where
  pub measured : Measured size out.1
  pub again : out.0 ≡ some true → AtRound size out.1
  pub over : out.0 ≡ some false → Counted size out.1

pub AtRound-Measured : (size : ℕ) (c : Client) → AtRound size c → Measured size c
AtRound-Measured size c p = record {
  counts = p.counts;
  ordered = p.ordered;
  under_way = [];
  one_at_most = omega arith;
  readings = p.readings ∙ sym (append-nil (readings_of c.latencies));
  asked = omega (arith, p.all_sent);
  answered = omega (arith, p.all_sent, p.all_echoed);
  echoed = omega (arith, p.all_echoed);
}

pub AtRound-Counted : (size : ℕ) (c : Client) → AtRound size c → Counted size c
AtRound-Counted size c p h = omega (arith, p.all_echoed, h)

-- An exchange that neither sends nor receives nor reads the clock.
pub noted-AtRound :
    (size : ℕ) (c : Client) (e : Exchange)
    → bytes_sent (e ∷ c.trace) ≡ bytes_sent c.trace
    → bytes_received (e ∷ c.trace) ≡ bytes_received c.trace
    → clocks (e ∷ c.trace) ≡ clocks c.trace
    → AtRound size c
    → AtRound size (noted e c)
noted-AtRound size c e hs hr hc p = record {
  counts = p.counts;
  ordered = p.ordered;
  readings = hc ∙ p.readings;
  all_sent = hs ∙ p.all_sent;
  all_echoed = hr ∙ p.all_echoed;
}

-- The payload was written in part or in full, and nothing was read since.
pub record Asked (size start w : ℕ) (c : Client) : Type 0 where
  pub counts : c.requests ≡ rounds c % 2 ^ 64
  pub ordered : All InOrder c.latencies
  pub written : bytes_sent c.trace ≡ rounds c * size + w
  pub fits : w ≤ size
  pub none_read : bytes_received c.trace ≡ rounds c * size
  pub clock : latest c.trace ≡ start
  pub started : clocks c.trace ≡ readings_of c.latencies ++ (start ∷ [])

pub partial-RoundResult :
    (size start w : ℕ) (c : Client) → Asked size start w c → RoundResult size (some false, c)
partial-RoundResult size start w c p = record {
  measured = record {
    counts = p.counts;
    ordered = p.ordered;
    under_way = start ∷ [];
    one_at_most = omega arith;
    readings = p.started;
    asked = omega (arith, p.written, p.fits);
    answered = omega (arith, p.written, p.none_read);
    echoed = omega (arith, p.none_read);
  };
  again = λ h. cc h;
  over = λ h g. omega (arith, p.none_read, g);
}

pub counts_next : (a n : ℕ) → a ≡ n % 2 ^ 64 → bump a 1 ≡ (n + 1) % 2 ^ 64
unfolding bump
counts_next a n h = omega (arith, h)

pub one_more : (xs : List Latency) (l : Latency) → length (xs ++ (l ∷ [])) ≡ length xs + 1
one_more xs l = length-append xs (l ∷ [])

pub times_next : (m n size : ℕ) → m ≡ n + 1 → m * size ≡ n * size + size
times_next m n size h = rw h (omega arith)

-- The payload was written in full, and b bytes of the reply have come.
pub record Heard (size start b : ℕ) (c : Client) : Type 0 where
  pub counts : c.requests ≡ rounds c % 2 ^ 64
  pub ordered : All InOrder c.latencies
  pub all_sent : bytes_sent c.trace ≡ rounds c * size + size
  pub bounded : b ≤ size
  pub heard : bytes_received c.trace ≡ rounds c * size + b
  pub clock : latest c.trace ≡ start
  pub started : clocks c.trace ≡ readings_of c.latencies ++ (start ∷ [])

pub Reply-Heard :
    (size start : ℕ) (c : Client) (out : Option Bool × Client)
    → Asked size start size c
    → (q : Reply size 0 c out) → Heard size start q.bytes out.1
Reply-Heard size start c out p q =
    let same : rounds out.1 ≡ rounds c = ap (λ (ls : List Latency). length ls) q.same_latencies in
    record {
      counts = q.same_requests ∙ p.counts ∙ ap (λ n. n % 2 ^ 64) (sym same);
      ordered = subst (λ (ls : List Latency). All InOrder ls) (sym q.same_latencies) p.ordered;
      all_sent = q.same_sent ∙ p.written ∙ ap (λ n. n * size + size) (sym same);
      bounded = q.bounded;
      heard =
          omega (arith, q.exact)
          ∙ ap (λ n. n + q.bytes) p.none_read
          ∙ ap (λ n. n * size + q.bytes) (sym same);
      clock = q.same_clock ∙ p.clock;
      started =
          q.same_clocks
          ∙ p.started
          ∙ ap (λ (ls : List Latency). readings_of ls ++ (start ∷ [])) (sym q.same_latencies);
    }

pub Heard-Measured : (size start b : ℕ) (c : Client) → Heard size start b c → Measured size c
Heard-Measured size start b c p = record {
  counts = p.counts;
  ordered = p.ordered;
  under_way = start ∷ [];
  one_at_most = omega arith;
  readings = p.started;
  asked = omega (arith, p.all_sent);
  answered = omega (arith, p.all_sent, p.heard, p.bounded);
  echoed = omega (arith, p.heard);
}
