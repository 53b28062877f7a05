-- ===== src/Evserver/Loadgen.antt =====
-- evserver/bench/loadgen.cpp: worker, one active connection with strict request and response. What the
-- server, the clock and the flag `stop` answer is any function of what they answered so far, the newest
-- first. A latency is kept as the two readings of the clock that it lies between.
pub mod Options
pub mod Totals
pub mod Replies
pub mod Counts
pub mod Rounds
pub mod Measured
mod Tests
use linux_internals.Prelude.{
  ℕ, zero, suc, ◌+◌, ◌-◌, Bool, true, false, Option, none, some, List, [], ◌∷◌, ◌++◌, ltb, ◌==◌,
  length, replicate, pos, negsuc, Text,
}
use linux_internals.Evserver.Kernel.{ReadAnswer, got, read_failed, WriteAnswer, wrote, write_failed}
use linux_internals.Evserver.Exec.{Exec}
use linux_internals.Evserver.Setup.{Net, Setup, drop_socket, connect_tcp, set_nodelay}
use linux_internals.Evserver.Stats.{bump}

pub data Exchange : Type 0 where
  stop_read : Bool → Exchange
  clock_read : ℕ → Exchange
  payload_written : WriteAnswer → Exchange
  reply_read : ReadAnswer → Exchange

abbrev pub Exchanges : Type 0
Exchanges = List Exchange

pub record Peer : Type 0 where
  pub stopped : Exchanges → Bool
  -- nanoseconds of std::chrono::steady_clock
  pub now : Exchanges → ℕ
  pub write : Exchanges → Text → WriteAnswer
  pub read : Exchanges → ℕ → ReadAnswer

abbrev pub Latency : Type 0
Latency = ℕ × ℕ

-- struct Result, and the exchanges so far.
pub record Client : Type 0 where
  pub requests : ℕ
  pub latencies : List Latency
  pub trace : Exchanges

abbrev pub new_client : Client
new_client = record { requests = 0; latencies = []; trace = [] }

-- const std::string payload(opt.payload, 'x')
abbrev pub payload_of : ℕ → Text
payload_of size = replicate size 120

-- The result of write is static_cast<ssize_t>(payload.size()), which is below 2^63.
pub all_written : ℕ → WriteAnswer → Bool
all_written size (wrote n) = n == size
all_written size (write_failed e) = false

-- latencies_us.push_back and ++requests
pub keep_latency : ℕ → ℕ → Client → Client
keep_latency start finish s = record s {
  requests = bump s.requests 1;
  latencies = s.latencies ++ ((start, finish) ∷ []);
}

abbrev pub noted : Exchange → Client → Client
noted e s = record s { trace = e ∷ s.trace }

module _ (k : Peer) (size : ℕ) where
  -- while (got < payload.size()); false is the return.
  pub read_reply : ℕ → ℕ → Exec Client Bool
  read_reply zero count s = (none, s)
  read_reply (suc f) count s =
      let answer = k.read s.trace (size - count) in
      let s' = noted (reply_read answer) s in
      elim (ltb count size) [
        | false ↦ (some true, s)
        | true ↦ elim answer [
          | got [] ↦ (some false, s')
          | got (b ∷ bs) ↦ read_reply f (count + length (b ∷ bs)) s'
          | read_failed e ↦ (some false, s')
        ]
      ]

  -- Clock::now()
  pub read_clock : Client → ℕ × Client
  read_clock s = let t = k.now s.trace in (t, noted (clock_read t) s)

  -- What follows a reply that is there in full.
  pub finish_request : ℕ → Client → Client
  finish_request start s = let (finish, s') = read_clock s in keep_latency start finish s'

  -- The body of the loop; false is a return from it.
  pub one_request : ℕ → Exec Client Bool
  one_request f s =
      let (start, s1) = read_clock s in
      let answer = k.write s1.trace (payload_of size) in
      let s2 = noted (payload_written answer) s1 in
      let (reply, s3) = read_reply f 0 s2 in
      elim (all_written size answer) [
        | false ↦ (some false, s2)
        | true ↦ elim reply [
          | none ↦ (none, s3)
          | some false ↦ (some false, s3)
          | some true ↦ (some true, finish_request start s3)
        ]
      ]

  -- while (!stop.load())
  pub request_loop : ℕ → Exec Client Unit
  request_loop zero s = (none, s)
  request_loop (suc f) s =
      let stop = k.stopped s.trace in
      let s' = noted (stop_read stop) s in
      let (more, s'') = one_request f s' in
      elim stop [
        | true ↦ (some tt, s')
        | false ↦ elim more [
          | none ↦ (none, s'')
          | some false ↦ (some tt, s'')
          | some true ↦ request_loop f s''
        ]
      ]

-- connect_tcp and set_nodelay come first; a worker that could not connect leaves its Result as it was.
-- `sock` is closed when the loop is left.
pub worker : Net → Peer → ℕ → ℕ → ℕ → Setup → Option (Unit {0}) × Client × Setup
worker net k f port size s =
    let (sock, s') = connect_tcp net port s in
    let (result, client) = request_loop k size f new_client in
    elim sock [
      | negsuc m ↦ (some tt, new_client, s')
      | pos n ↦
          let (quick, s'') = set_nodelay net n s' in
          elim result [ none ↦ (none, client, s'') | some u ↦ (some tt, client, drop_socket n s'') ]
    ]
