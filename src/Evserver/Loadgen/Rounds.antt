-- ===== src/Evserver/Loadgen/Rounds.antt =====
-- One request of a worker of evserver/bench/loadgen.cpp.
use linux_internals.Prelude.{
  ℕ, ◌+◌, ◌*◌, ◌%◌, ◌^◌, ◌≤◌, ◌<◌, ◌≡◌, refl, sym, ap, ◌∙◌, inl, inr, Bool, true, false, Option,
  none, some, List, [], ◌∷◌, ◌++◌, arith, ==_iff, Bool-cases, length, All, length-replicate,
  All-append,
}
use mathlib.Core.Path.{subst}
use linux_internals.Evserver.Kernel.{WriteAnswer, wrote, write_failed}
use linux_internals.Evserver.Loadgen.{
  clock_read, payload_written, Exchanges, Peer, Client, payload_of, all_written, keep_latency,
  noted, read_clock, finish_request, one_request,
}
use linux_internals.Evserver.Loadgen.Replies.{
  bytes_sent, bytes_received, latest, clocks, Honest, read_reply-Reply,
}
use linux_internals.Evserver.Loadgen.Counts.{
  rounds, InOrder, readings_of, readings_of_more, AtRound, RoundResult, AtRound-Measured, Asked,
  partial-RoundResult, counts_next, one_more, times_next, Heard, Reply-Heard, Heard-Measured,
}

module _ (k : Peer) (law : Honest k) (size : ℕ) where
  finished-AtRound :
      (start : ℕ) (c : Client)
      → c.requests ≡ rounds c % 2 ^ 64
      → All InOrder c.latencies
      → bytes_sent c.trace ≡ rounds c * size + size
      → bytes_received c.trace ≡ rounds c * size + size
      → latest c.trace ≡ start
      → clocks c.trace ≡ readings_of c.latencies ++ (start ∷ [])
      → AtRound size (finish_request k size start c)
  unfolding finish_request read_clock keep_latency bytes_sent bytes_received clocks
  finished-AtRound start c counts ordered s r clock started =
      let finish = k.now c.trace in
      let more = one_more c.latencies (start, finish) in
      let grown = times_next _ (length c.latencies) size more in
      record {
        counts = counts_next c.requests (rounds c) counts ∙ ap (λ n. n % 2 ^ 64) (sym more);
        ordered =
            All-append InOrder c.latencies ((start, finish) ∷ []) ordered
              (omega (arith, law.steady c.trace, clock), tt);
        readings =
            ap (λ (ts : List ℕ). ts ++ (finish ∷ [])) started
            ∙ sym (readings_of_more c.latencies start finish);
        all_sent = s ∙ sym grown;
        all_echoed = r ∙ sym grown;
      }

  replied-RoundResult :
      (start : ℕ) (r : Option Bool) (d : Client) (b : ℕ)
      → Heard size start b d
      → (r ≡ some true → b ≡ size)
      → (r ≡ some false → b < size)
      → RoundResult size (elim r as (λ _. Option Bool × Client) [
        | none ↦ (none, d)
        | some false ↦ (some false, d)
        | some true ↦ (some true, finish_request k size start d)
      ])
  replied-RoundResult start none d b p whole partial = record {
    measured = Heard-Measured size start b d p;
    again = λ h. cc h;
    over = λ h. cc h;
  }
  replied-RoundResult start (some false) d b p whole partial = record {
    measured = Heard-Measured size start b d p;
    again = λ h. cc h;
    over = λ h g. omega (arith, p.heard, partial refl);
  }
  replied-RoundResult start (some true) d b p whole partial =
      let done =
        finished-AtRound start d p.counts p.ordered p.all_sent
          (p.heard ∙ ap (λ n. rounds d * size + n) (whole refl)) p.clock p.started in
      record { measured = AtRound-Measured size _ done; again = λ h. done; over = λ h. cc h }

  payload_bound : (t : Exchanges) (n : ℕ) → k.write t (payload_of size) ≡ wrote n → n ≤ size
  payload_bound t n e =
      omega (arith, law.write_bound t (payload_of size) n e, length-replicate {A = ℕ} size 120)

  after_write-Asked :
      (start : ℕ) (s : Client) (a : WriteAnswer)
      → AtRound size s
      → ((n : ℕ) → a ≡ wrote n → n ≤ size)
      → (w : ℕ) × Asked size start w (noted (payload_written a) (noted (clock_read start) s))
        × (all_written size a ≡ true → w ≡ size)
  unfolding bytes_sent bytes_received latest clocks all_written
  after_write-Asked start s (wrote n) p fits = (
    n,
    record {
      counts = p.counts;
      ordered = p.ordered;
      written = ap (λ m. m + n) p.all_sent;
      fits = fits n refl;
      none_read = p.all_echoed;
      clock = refl;
      started = ap (λ (ts : List ℕ). ts ++ (start ∷ [])) p.readings;
    },
    λ h. (==_iff n size).0 h,
  )
  after_write-Asked start s (write_failed e) p fits = (
    0,
    record {
      counts = p.counts;
      ordered = p.ordered;
      written = omega (arith, p.all_sent);
      fits = omega arith;
      none_read = p.all_echoed;
      clock = refl;
      started = ap (λ (ts : List ℕ). ts ++ (start ∷ [])) p.readings;
    },
    λ h. cc h,
  )

  pub one_request-RoundResult :
      (f : ℕ) (s : Client) → AtRound size s → RoundResult size (one_request k size f s)
  unfolding one_request read_clock bytes_sent bytes_received latest clocks
  one_request-RoundResult f s p =
      let start = k.now s.trace in
      let s1 = noted (clock_read start) s in
      let answer = k.write s1.trace (payload_of size) in
      let (w, asked, full) =
        after_write-Asked start s answer p (λ n e. payload_bound s1.trace n e) in
      let s2 = noted (payload_written answer) s1 in
      let q = read_reply-Reply k law size f 0 s2 (omega arith) in
      elim (Bool-cases (all_written size answer)) [
        | inr part ↦ rw (part, one_request) (partial-RoundResult size start w s2 asked)
        | inl all ↦
            rw (all, one_request)
              (replied-RoundResult start _ _ q.bytes
                (Reply-Heard size start s2 _ (subst (λ n. Asked size start n s2) (full all) asked)
                  q)
                q.whole q.partial)
      ]
