-- ===== src/Evserver/Loadgen/Measured.antt =====
-- What a worker of evserver/bench/loadgen.cpp measures.
use linux_internals.Evserver.Loadgen.Counts.{
  readings_of, Measured, AtRound, Counted, RoundResult, AtRound-Measured, AtRound-Counted,
  noted-AtRound,
}
use linux_internals.Prelude.{
  ℕ, zero, suc, ◌≡◌, refl, Bool, true, false, Option, none, some, arith, ℤ, pos, negsuc,
}
use linux_internals.Evserver.Setup.{Net, Setup, drop_socket, connect_tcp, set_nodelay}
use linux_internals.Evserver.Loadgen.{
  stop_read, Peer, Client, new_client, noted, one_request, request_loop, worker,
}
use linux_internals.Evserver.Loadgen.Replies.{bytes_sent, bytes_received, clocks, Honest}
use linux_internals.Evserver.Loadgen.Rounds.{one_request-RoundResult}

-- Of the loop, and of worker.
abbrev Result : ℕ → Option (Unit {0}) × Client → Type 0
Result size out = Measured size out.1 × (out.0 ≡ some tt → Counted size out.1)

abbrev pub Worked : ℕ → Option (Unit {0}) × Client × Setup → Type 0
Worked size out = Measured size out.1 × (out.0 ≡ some tt → Counted size out.1)

module _ (k : Peer) (law : Honest k) (size : ℕ) where
  -- What the loop gives holds whether it has returned or not.
  looped :
      (stop : Bool) (s : Client) (out : Option Bool × Client)
      (rest : Client → Option (Unit {0}) × Client)
      → AtRound size s
      → RoundResult size out
      → ((c : Client) → AtRound size c → Result size (rest c))
      → Result size (elim stop as (λ _. Option (Unit {0}) × Client) [
        | true ↦ (some tt, s)
        | false ↦ elim out.0 as (λ _. Option (Unit {0}) × Client) [
          | none ↦ (none, out.1)
          | some false ↦ (some tt, out.1)
          | some true ↦ rest out.1
        ]
      ])
  looped true s out rest p r ih = (AtRound-Measured size s p, λ h. AtRound-Counted size s p)
  looped false s (none, d) rest p r ih = (r.measured, λ h. cc h)
  looped false s (some false, d) rest p r ih = (r.measured, λ h. r.over refl)
  looped false s (some true, d) rest p r ih = ih d (r.again refl)

  request_loop-Result :
      (f : ℕ) (s : Client) → AtRound size s → Result size (request_loop k size f s)
  unfolding request_loop bytes_sent bytes_received clocks
  request_loop-Result zero s p = (AtRound-Measured size s p, λ h. cc h)
  request_loop-Result (suc f) s p =
      let s' = noted (stop_read (k.stopped s.trace)) s in
      let p' = noted-AtRound size s (stop_read (k.stopped s.trace)) refl refl refl p in
      looped (k.stopped s.trace) s' (one_request k size f s') (request_loop k size f) p'
        (one_request-RoundResult k law size f s' p') (request_loop-Result f)

new_client-AtRound : (size : ℕ) → AtRound size new_client
unfolding bytes_sent bytes_received clocks readings_of
new_client-AtRound size = record {
  counts = refl;
  ordered = tt;
  readings = refl;
  all_sent = omega arith;
  all_echoed = omega arith;
}

closed-Result :
    (size : ℕ) (out : Option (Unit {0}) × Client) (s s' : Setup)
    → Result size out
    → Worked size (elim out.0 as (λ _. Option (Unit {0}) × Client × Setup) [
      | none ↦ (none, out.1, s)
      | some u ↦ (some tt, out.1, s')
    ])
closed-Result size (none, c) s s' r = (r.0, λ h. cc h)
closed-Result size (some tt, c) s s' r = (r.0, λ h. r.1 refl)

connected-Worked :
    (net : Net) (size : ℕ) (sock : ℤ) (s : Setup) (out : Option (Unit {0}) × Client)
    → Result size out
    → Worked size (elim sock as (λ _. Option (Unit {0}) × Client × Setup) [
      | negsuc m ↦ (some tt, new_client, s)
      | pos n ↦ elim out.0 as (λ _. Option (Unit {0}) × Client × Setup) [
        | none ↦ (none, out.1, (set_nodelay net n s).1)
        | some u ↦ (some tt, out.1, drop_socket n (set_nodelay net n s).1)
      ]
    ])
connected-Worked net size (pos n) s out r = closed-Result size out _ _ r
connected-Worked net size (negsuc m) s out r = (
  AtRound-Measured size new_client (new_client-AtRound size),
  λ h. AtRound-Counted size new_client (new_client-AtRound size),
)

-- Whatever the server answers, if write and read keep to the sizes given and the clock never goes back:
-- at every moment a worker has recorded one latency for each request counted modulo 2^64; the readings of
-- the clock are the starts and finishes of the latencies in their order, no finish before its start, and
-- the start of a request under way at most; it has sent a payload for each and one more at most, and
-- received no more than it sent and no less than it recorded. Once it has returned, no echo that came
-- back whole is missing.
pub worker-Worked :
    (net : Net) (k : Peer) (f port size : ℕ) (s : Setup)
    → Honest k
    → Worked size (worker net k f port size s)
unfolding worker
worker-Worked net k f port size s law =
    connected-Worked net size (connect_tcp net port s).0 (connect_tcp net port s).1
      (request_loop k size f new_client)
      (request_loop-Result k law size f new_client (new_client-AtRound size))
