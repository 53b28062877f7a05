-- ===== src/Evserver/Uring.antt =====
-- evserver/src/server_uring.cpp: the io_uring echo server.
-- A `Conn` lives while connections_ owns it; a `Conn *` is its number, and using it afterwards is a
-- fault (`none`). What the kernel does with a connection stands in the fields `delivered` and
-- `returned`, the bytes received from the peer and sent to it, which the program does not have.
pub mod Table
pub mod Inv
pub mod Steps
pub mod Safety
pub mod Runs
pub mod Sessions
pub mod Changes
pub mod Refines
pub mod Reactions
pub mod Reacts
pub mod Loop
mod Tests
use mathlib.Core.Option
use linux_internals.Prelude.{
  ℕ, ◌+◌, ◌-◌, Bool, true, false, ◌&&◌, Option, none, some, List, [], ◌∷◌, ◌++◌, map, ltb, ◌==◌,
  if◌then◌else◌, length, take, drop, replicate, Text,
}
use linux_internals.Evserver.Server.{Config}
use linux_internals.Evserver.Stats.{
  Stats, zero_stats, bump, bump_accepted, bump_closed, bump_request,
}

-- The user_data of a queue entry: accept_op_, signal_op_, or an op of a connection.
pub data Op : Type 0 where
  accept_op signal_op : Op
  recv_op send_op : ℕ → Op

pub record Conn : Type 0 where
  pub id : ℕ
  pub fd : ℕ
  pub buffer : Text
  pub pending : ℕ
  pub delivered : Text
  pub returned : Text

-- Calls of liburing that show whether a submission queue entry is free.
pub data RingCall : Type 0 where
  get_sqe_call : Bool → RingCall
  submit_call : RingCall

-- Whether io_uring_get_sqe gives an entry, after the calls made so far.
abbrev pub Ring : Type 0
Ring = List RingCall → Bool

pub record UringServer : Type 0 where
  pub cfg : Config
  pub running : Bool
  pub connections : List Conn
  pub next_id : ℕ
  pub stats : Stats
  -- entries that were queued and whose completion was not yet handled
  pub outstanding : List Op
  pub ring_calls : List RingCall

-- The pointer of an op: the connection, if it is still there.
unfoldable pub find : ℕ → List Conn → Option Conn
find id [] = none
find id (c ∷ cs) = if c.id == id then some c else find id cs

-- A write through the pointer.
pub update : Conn → List Conn → List Conn
update d [] = []
update d (c ∷ cs) = if c.id == d.id then d ∷ cs else c ∷ update d cs

-- connections_.erase(fd), which destroys the connection; the map's key is its `fd`.
pub erase : ℕ → List Conn → List Conn
erase fd [] = []
erase fd (c ∷ cs) = if c.fd == fd then cs else c ∷ erase fd cs

bump_kernel_entry : Stats → Stats
unfolding bump
bump_kernel_entry s = record s { syscalls = bump s.syscalls 1 }

bump_recv : Stats → Stats
unfolding bump
bump_recv s = record s { read_calls = bump s.read_calls 1 }

bump_send : Stats → Stats
unfolding bump
bump_send s = record s { write_calls = bump s.write_calls 1 }

-- close_connection, through a valid pointer: `fd` is not negative before the erase.
pub close_connection : Conn → UringServer → UringServer
close_connection c s = record s {
  connections = erase c.fd s.connections;
  stats = bump_closed (bump_kernel_entry s.stats);
}

-- What follows next_sqe(); false is a null entry.
pub queue_op : Op → Bool → UringServer → UringServer
queue_op op true s = record s { outstanding = op ∷ s.outstanding }
queue_op op false s = s

pub queue_recv : Conn → Bool → UringServer → UringServer
queue_recv c true s = record s {
  outstanding = recv_op c.id ∷ s.outstanding;
  stats = bump_recv s.stats;
}
queue_recv c false s = close_connection c s

pub queue_send : Conn → ℕ → Bool → UringServer → UringServer
queue_send c n true s = record s {
  connections = update (record c { pending = n }) s.connections;
  outstanding = send_op c.id ∷ s.outstanding;
  stats = bump_send s.stats;
}
queue_send c n false s = close_connection c s

module _ (ring : Ring) where
  pub get_sqe : UringServer → Bool × UringServer
  get_sqe s =
      let free = ring s.ring_calls in
      (free, record s { ring_calls = get_sqe_call free ∷ s.ring_calls })

  -- A full queue is flushed, and asked once more.
  pub flushed : UringServer → Bool × UringServer
  flushed s =
      get_sqe
        (record s { ring_calls = submit_call ∷ s.ring_calls; stats = bump_kernel_entry s.stats })

  pub or_flushed : Bool → UringServer → Bool × UringServer
  or_flushed true s = (true, s)
  or_flushed false s = flushed s

  pub next_sqe : UringServer → Bool × UringServer
  next_sqe s = let (free, s') = get_sqe s in or_flushed free s'

  pub submit_accept : UringServer → UringServer
  submit_accept s = let (free, s') = next_sqe s in queue_op accept_op free s'

  pub submit_signal_poll : UringServer → UringServer
  submit_signal_poll s = let (free, s') = next_sqe s in queue_op signal_op free s'

  pub submit_recv : Conn → UringServer → UringServer
  submit_recv c s = let (free, s') = next_sqe s in queue_recv c free s'

  pub submit_send : Conn → ℕ → UringServer → UringServer
  submit_send c n s = let (free, s') = next_sqe s in queue_send c n free s'

  -- cqe->res of an accept: a descriptor, or a negative error.
  pub on_accept : Option ℕ → UringServer → UringServer
  on_accept none s = submit_accept s
  on_accept (some fd) s =
      let s' = submit_accept s in
      let c : Conn = record {
        id = s'.next_id;
        fd = fd;
        buffer = replicate s'.cfg.buffer_size 0;
        pending = 0;
        delivered = [];
        returned = [];
      } in
      submit_recv c (record s' {
        connections = c ∷ erase fd s'.connections;
        next_id = s'.next_id + 1;
        stats = bump_accepted s'.stats;
      })

  -- Of a recv: the bytes, which the kernel has put at the start of the buffer; none is an error.
  pub on_recv : Option Text → Conn → UringServer → UringServer
  on_recv none c s = close_connection c s
  on_recv (some []) c s = close_connection c s
  on_recv (some (b ∷ bs)) c s =
      let bytes = b ∷ bs in
      let c' = record c {
        buffer = bytes ++ drop (length bytes) c.buffer;
        delivered = c.delivered ++ bytes;
      } in
      submit_send c' (length bytes) (record s {
        connections = update c' s.connections;
        stats = bump_request (length bytes) s.stats;
      })

  -- Of a send: how many bytes of the buffer went out; none is an error.
  pub on_send : Option ℕ → Conn → UringServer → UringServer
  on_send none c s = close_connection c s
  on_send (some n) c s =
      let out = record c { returned = c.returned ++ take n c.buffer } in
      let left = c.pending - n in
      let moved = record out { buffer = take left (drop n c.buffer) ++ drop left c.buffer } in
      if ltb 0 n && ltb n c.pending
      then submit_send moved left (record s { connections = update moved s.connections })
      else submit_recv out (record s { connections = update out s.connections })

-- A completion: the op, and what the kernel reports of it.
pub data Completion : Type 0 where
  signalled : Completion
  accepted : Option ℕ → Completion
  received : ℕ → Option Text → Completion
  sent : ℕ → Option ℕ → Completion

pub op_of : Completion → Op
op_of signalled = signal_op
op_of (accepted r) = accept_op
op_of (received id r) = recv_op id
op_of (sent id r) = send_op id

-- handle_completion; `none` is a use of a connection that was destroyed.
pub handle_completion : Ring → Completion → UringServer → Option UringServer
handle_completion ring signalled s = some (record s { running = false })
handle_completion ring (accepted r) s = some (on_accept ring r s)
handle_completion ring (received id r) s =
    Option.map (λ c. on_recv ring r c s) (find id s.connections)
handle_completion ring (sent id r) s = Option.map (λ c. on_send ring r c s) (find id s.connections)

-- After start(): the accept and the poll of the signalfd are queued, and nobody is connected.
pub start : Ring → Config → UringServer
start ring cfg = submit_signal_poll ring (
    submit_accept ring (record {
      cfg = cfg;
      running = true;
      connections = [];
      next_id = 0;
      stats = zero_stats;
      outstanding = [];
      ring_calls = [];
    }))
