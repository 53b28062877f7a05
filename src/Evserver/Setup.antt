-- ===== src/Evserver/Setup.antt =====
-- listen_tcp, connect_tcp, set_nonblocking and set_nodelay of evserver/src/socket.cpp, signal_fd of
-- evserver/src/signals.cpp, and start() of the servers. What the kernel answers
-- is any function of the calls made so far; strerror is a parameter.
pub mod Start
pub mod Descriptors
mod Tests
use linux_internals.Prelude.{
  ℕ, ◌+◌, ◌/◌, ◌%◌, Bool, true, false, Option, none, some, List, ◌∷◌, ◌++◌, ◌==◌, if◌then◌else◌, ℤ,
  pos, negsuc, Text, codes,
}

pub data Request : Type 0 where
  tcp_socket : Request
  reuse_address : ℕ → Request
  no_delay : ℕ → Request
  bind_to : ℕ → ℕ → Request
  listen_on : ℕ → ℕ → Request
  connect_to : ℕ → ℕ → Request
  set_flags : ℕ → ℕ → Request
  block_signals : Request
  new_signalfd : Request
  new_epoll : Request
  init_ring : ℕ → Request
  epoll_ctl_add : ℕ → ℕ → ℕ → Request

-- A call that makes a descriptor gives its number or an errno.
pub data Opened : Type 0 where
  fd : ℕ → Opened
  failed : ℕ → Opened

-- A call with its answer, none being success; the newest first.
pub data Event : Type 0 where
  opened_call : Request → Opened → Event
  made : Request → Option ℕ → Event
  flags_read : ℕ → Option ℕ → Event
  closed_call : ℕ → Event

pub record Net : Type 0 where
  pub opening : List Event → Request → Opened
  pub answer : List Event → Request → Option ℕ
  -- fcntl(F_GETFL); none is -1.
  pub get_flags : List Event → ℕ → Option ℕ
  pub strerror : ℕ → Text

-- `wanted` is error != nullptr; `error` is what *error was set to.
pub record Setup : Type 0 where
  pub wanted : Bool
  pub error : Option Text
  pub trace : List Event

pub set_error : Text → Setup → Setup
set_error text s = if s.wanted then record s { error = some text } else s

-- A Socket in a local variable goes out of scope.
pub drop_socket : ℕ → Setup → Setup
drop_socket n s = record s { trace = closed_call n ∷ s.trace }

abbrev pub invalid : ℤ
invalid = negsuc 0

-- *error = errno_message(what), where errno is e.
abbrev pub errno_message : Net → Text → ℕ → Text
errno_message net what e = what ++ (codes ": " ++ net.strerror e)

module _ (net : Net) where
  unfoldable pub open_new : Request → Setup → Opened × Setup
  open_new r s =
      let a = net.opening s.trace r in (a, record s { trace = opened_call r a ∷ s.trace })

  unfoldable pub ask : Request → Setup → Option ℕ × Setup
  ask r s = let a = net.answer s.trace r in (a, record s { trace = made r a ∷ s.trace })

  -- A call on the local socket n that is followed by `next`, or by a message and Socket().
  unfoldable pub attempt : ℕ → Request → Text → (Setup → ℤ × Setup) → Setup → ℤ × Setup
  attempt n r what next s =
      let (a, s') = ask r s in
      elim a [
        | none ↦ next s'
        | some e ↦ (invalid, drop_socket n (set_error (errno_message net what e) s'))
      ]

  -- Socket(::call()) and the test of valid().
  unfoldable pub with_socket : Request → Text → (ℕ → Setup → ℤ × Setup) → Setup → ℤ × Setup
  with_socket r what next s =
      let (a, s') = open_new r s in
      elim a [ fd n ↦ next n s' | failed e ↦ (invalid, set_error (errno_message net what e) s') ]

  pub listen_tcp : ℕ → ℕ → Setup → ℤ × Setup
  listen_tcp port backlog = with_socket tcp_socket (codes "socket") (λ n.
      attempt n (reuse_address n) (codes "setsockopt(SO_REUSEADDR)") (
        attempt n (bind_to n port) (codes "bind")
          (attempt n (listen_on n backlog) (codes "listen") (λ s. (pos n, s)))))

  unfoldable pub connect_tcp : ℕ → Setup → ℤ × Setup
  connect_tcp port =
      with_socket tcp_socket (codes "socket")
        (λ n. attempt n (connect_to n port) (codes "connect") (λ s. (pos n, s)))

  unfoldable pub is_done : Option ℕ → Bool
  is_done none = true
  is_done (some e) = false

  unfoldable pub set_nodelay : ℕ → Setup → Bool × Setup
  set_nodelay n s = let (a, s') = ask (no_delay n) s in (is_done a, s')

  -- flags | O_NONBLOCK
  pub with_nonblock : ℕ → ℕ
  with_nonblock flags = if flags / 2048 % 2 == 1 then flags else flags + 2048

  pub set_nonblocking : ℕ → Setup → Bool × Setup
  set_nonblocking n s =
      let flags = net.get_flags s.trace n in
      let s' = record s { trace = flags_read n flags ∷ s.trace } in
      elim flags [
        | none ↦ (false, s')
        | some old ↦ let (a, s'') = ask (set_flags n (with_nonblock old)) s' in (is_done a, s'')
      ]

  pub signal_fd : Setup → ℤ × Setup
  signal_fd s =
      let (a, s') = ask block_signals s in
      elim a [
        | some e ↦ (invalid, set_error (errno_message net (codes "sigprocmask") e) s')
        | none ↦ with_socket new_signalfd (codes "signalfd") (λ n s. (pos n, s)) s'
      ]
