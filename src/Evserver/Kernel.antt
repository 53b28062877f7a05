-- ===== src/Evserver/Kernel.antt =====
-- The system calls that the servers of evserver/src/ make, as a parameter: what the kernel answers
-- is any function of the calls made so far. A trace lists those calls, the newest first, and is the
-- only thing that the model adds to the program's state.
use linux_internals.Prelude.{
  ℕ, ◌≤◌, ◌≡◌, Bool, true, false, ◌||◌, List, [], ◌∷◌, ◌++◌, ◌==◌, if◌then◌else◌, length, take,
  Text,
}

-- EAGAIN and EWOULDBLOCK are one number on Linux. `other` is any further errno.
pub data Errno : Type 0 where
  eagain eintr : Errno
  other : ℕ → Errno

-- `got []` is a read that returns 0, the end of the stream.
pub data ReadAnswer : Type 0 where
  got : Text → ReadAnswer
  read_failed : Errno → ReadAnswer

pub data WriteAnswer : Type 0 where
  wrote : ℕ → WriteAnswer
  write_failed : Errno → WriteAnswer

pub data AcceptAnswer : Type 0 where
  accepted_fd : ℕ → AcceptAnswer
  accept_failed : Errno → AcceptAnswer

-- One entry of the array that epoll_wait fills; of the mask only the bits that the code tests.
pub record EpollEvent : Type 0 where
  pub fd : ℕ
  pub hup : Bool
  pub err : Bool

pub data WaitAnswer : Type 0 where
  ready : List EpollEvent → WaitAnswer
  wait_failed : Errno → WaitAnswer

-- A call with what it returned.
pub data Call : Type 0 where
  read_call : ℕ → ReadAnswer → Call
  write_call : ℕ → Text → WriteAnswer → Call
  accept_call : AcceptAnswer → Call
  add_call : ℕ → Bool → Bool → Call
  delete_call : ℕ → Call
  close_call : ℕ → Call
  nodelay_call : ℕ → Call
  wait_call : WaitAnswer → Call
  signal_call : Bool → Call

abbrev pub Trace : Type 0
Trace = List Call

pub record Kernel : Type 0 where
  -- read(fd, buffer, count)
  pub read : Trace → ℕ → ℕ → ReadAnswer
  -- write(fd, data, size)
  pub write : Trace → ℕ → Text → WriteAnswer
  pub accept : Trace → AcceptAnswer
  -- epoll_ctl(ADD), with EPOLLET or without; true is success
  pub epoll_add : Trace → ℕ → Bool → Bool
  pub epoll_wait : Trace → ℕ → WaitAnswer
  -- whether reading the signalfd gives a whole signalfd_siginfo
  pub read_signal : Trace → Bool

-- The bytes that the connection on `fd` has delivered, and those it was given back, in order, since
-- it was accepted. A descriptor's number is used again after a close.
unfoldable pub received : ℕ → Trace → Text
received fd [] = []
received fd (read_call d (got bytes) ∷ t) = received fd t ++ (if d == fd then bytes else [])
received fd (accept_call (accepted_fd d) ∷ t) =
    let before = received fd t in if d == fd then [] else before
received fd (c ∷ t) = received fd t

unfoldable pub sent : ℕ → Trace → Text
sent fd [] = []
sent fd (write_call d bytes (wrote n) ∷ t) = sent fd t ++ (if d == fd then take n bytes else [])
sent fd (accept_call (accepted_fd d) ∷ t) = let before = sent fd t in if d == fd then [] else before
sent fd (c ∷ t) = sent fd t

-- The last thing that happened to the number `fd` was a close.
unfoldable pub is_closed : ℕ → Trace → Bool
is_closed fd [] = false
is_closed fd (accept_call (accepted_fd d) ∷ t) =
    let before = is_closed fd t in if d == fd then false else before
is_closed fd (close_call d ∷ t) = d == fd || is_closed fd t
is_closed fd (c ∷ t) = is_closed fd t

-- read(2) and write(2), as documented: a count never exceeds what was asked for, and a descriptor that
-- was closed is not valid (EBADF).
pub record Posix (k : Kernel) : Type 0 where
  pub write_bound :
      (t : Trace) (fd : ℕ) (bytes : Text) (n : ℕ) → k.write t fd bytes ≡ wrote n → n ≤ length bytes
  pub read_closed :
      (t : Trace) (fd n : ℕ)
      → is_closed fd t ≡ true
      → (e : ℕ) × (k.read t fd n ≡ read_failed (other e))
