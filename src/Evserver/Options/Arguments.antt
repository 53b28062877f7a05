-- ===== src/Evserver/Options/Arguments.antt =====
-- The options of evserver written out and read back (evserver/src/main.cpp).

use linux_internals.Evserver.Server.{
  Backend, thread_per_connection, epoll_level, epoll_edge, io_uring, parse_backend,
}
use linux_internals.Prelude.{
  ℕ, ◌%◌, ◌^◌, ◌<◌, ◌≡◌, refl, ◌∙◌, Bool, true, false, ◌&&◌, List, [], ◌∷◌, ◌++◌, leb,
  if◌then◌else◌, lt→ltb, to_string, in_range, stoi, modulo, stoul, scan_number-to_string, pos, Text,
  codes, text_eq, after_prefix,
}
use linux_internals.Evserver.Options.{
  Choice, default_choice, start, thrown, to_uint16, with_backend, with_port, with_buffer,
  with_max_events, apply_option, parse_options, has_vector, construct, main,
}

-- The name by which parse_backend knows a backend.
pub backend_option : Backend → Text
backend_option thread_per_connection = codes "threads"
backend_option epoll_level = codes "epoll"
backend_option epoll_edge = codes "epoll-et"
backend_option io_uring = codes "uring"

pub arguments : Backend → ℕ → ℕ → ℕ → List Text
arguments backend port buffer max_events =
    (codes "--backend=" ++ backend_option backend)
    ∷ (codes "--port=" ++ to_string port)
    ∷ (codes "--buffer=" ++ to_string buffer)
    ∷ (codes "--max-events=" ++ to_string max_events)
    ∷ []

option_accepted :
    (c c' : Choice) (arg : Text) (args : List Text)
    → apply_option c arg ≡ start c'
    → parse_options c (arg ∷ args) ≡ parse_options c' args
unfolding parse_options
option_accepted c c' arg args e = rw (e, parse_options)

no_more_options : (c : Choice) → parse_options c [] ≡ start c
unfolding parse_options
no_more_options c = refl

module _ (c : Choice) where
  backend_accepted :
      (b : Backend)
      → apply_option c (codes "--backend=" ++ backend_option b) ≡ start (record c { backend = b })
  unfolding apply_option after_prefix with_backend backend_option parse_backend text_eq
  backend_accepted thread_per_connection = refl
  backend_accepted epoll_level = refl
  backend_accepted epoll_edge = refl
  backend_accepted io_uring = refl

  port_accepted :
      (n : ℕ)
      → n < 2 ^ 31
      → apply_option c (codes "--port=" ++ to_string n) ≡ start (record c { port = n % 2 ^ 16 })
  unfolding apply_option after_prefix with_port stoi in_range to_uint16 text_eq
  port_accepted n h = rw (scan_number-to_string n, lt→ltb n (2 ^ 31) h)

  buffer_accepted :
      (n : ℕ)
      → n < 2 ^ 64
      → apply_option c (codes "--buffer=" ++ to_string n) ≡ start (record c { buffer_size = n })
  unfolding apply_option after_prefix with_buffer stoul modulo text_eq
  buffer_accepted n h = rw (scan_number-to_string n, lt→ltb n (2 ^ 64) h)

  max_events_accepted :
      (n : ℕ)
      → n < 2 ^ 31
      → apply_option c (codes "--max-events=" ++ to_string n)
        ≡ start (record c { max_events = pos n })
  unfolding apply_option after_prefix with_max_events stoi in_range text_eq
  max_events_accepted n h = rw (scan_number-to_string n, lt→ltb n (2 ^ 31) h)

-- The backends that stand for an EpollServer.
pub is_epoll : Backend → Bool
is_epoll thread_per_connection = false
is_epoll io_uring = false
is_epoll _ = true

construct-is_epoll :
    (c : Choice) (b : Backend)
    → c.backend ≡ b
    → construct c ≡ (if is_epoll b && leb (2 ^ 63) c.buffer_size then thrown else start c)
unfolding construct has_vector is_epoll
construct-is_epoll c thread_per_connection e = rw (e, has_vector)
construct-is_epoll c epoll_level e = rw (e, has_vector)
construct-is_epoll c epoll_edge e = rw (e, has_vector)
construct-is_epoll c io_uring e = rw (e, has_vector)

-- If the numbers fit the types that they are parsed as, main starts a server with the backend, the
-- buffer size and the number of events that its options name and the port modulo 2^16, but an exception
-- ends it if the backend is one of epoll's and the buffer size is 2^63 or more.
pub main-arguments_port :
    (backend : Backend) (port buffer max_events : ℕ)
    → port < 2 ^ 31
    → buffer < 2 ^ 64
    → max_events < 2 ^ 31
    → main (arguments backend port buffer max_events) ≡ (
        if is_epoll backend && leb (2 ^ 63) buffer
        then thrown
        else start (record {
          backend = backend;
          port = port % 2 ^ 16;
          max_events = pos max_events;
          buffer_size = buffer;
        }))
unfolding main arguments
main-arguments_port backend port buffer max_events hp hb hm =
    let c0 = default_choice in
    let c1 = record c0 { backend = backend } in
    let c2 = record c1 { port = port % 2 ^ 16 } in
    let c3 = record c2 { buffer_size = buffer } in
    let c4 = record c3 { max_events = pos max_events } in
    let parsed =
      option_accepted c0 c1 _ _ (backend_accepted c0 backend)
      ∙ (option_accepted c1 c2 _ _ (port_accepted c1 port hp)
          ∙ (option_accepted c2 c3 _ _ (buffer_accepted c2 buffer hb)
              ∙ (option_accepted c3 c4 _ _ (max_events_accepted c3 max_events hm)
                  ∙ no_more_options c4))) in
    rw (parsed, main) (construct-is_epoll c4 backend refl)
