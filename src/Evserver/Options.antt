-- ===== src/Evserver/Options.antt =====
-- The options of evserver/src/main.cpp and the constructor of the server that they name: the
-- configuration that main calls start() with, or how it ends before that. What is printed is left out.
pub mod Arguments
mod Tests
use linux_internals.Evserver.Server.{
  Backend, thread_per_connection, epoll_level, epoll_edge, io_uring, default_config, parse_backend,
}
use linux_internals.Prelude.{
  ℕ, suc, ◌-◌, ◌%◌, ◌^◌, Bool, true, false, ◌&&◌, ◌||◌, Option, none, some, List, [], ◌∷◌, leb,
  if◌then◌else◌, stoi, stoul, ℤ, pos, negsuc, Text, codes, text_eq, after_prefix,
}

-- struct Config as the options fill it; max_events is an int.
pub record Choice : Type 0 where
  pub backend : Backend
  pub port : ℕ
  pub max_events : ℤ
  pub buffer_size : ℕ

abbrev pub default_choice : Choice
default_choice = record {
  backend = default_config.backend;
  port = default_config.port;
  max_events = pos default_config.max_events;
  buffer_size = default_config.buffer_size;
}

-- `thrown` is an exception that nobody catches, of std::stoi, of std::stoul or of the constructor.
pub data Outcome : Type 0 where
  start : Choice → Outcome
  exit : ℕ → Outcome
  thrown : Outcome

-- static_cast<uint16_t>
unfoldable pub to_uint16 : ℤ → ℕ
to_uint16 (pos n) = n % 2 ^ 16
to_uint16 (negsuc n) = (2 ^ 16 - suc n % 2 ^ 16) % 2 ^ 16

unfoldable pub with_backend : Choice → Option Backend → Outcome
with_backend c none = exit 2
with_backend c (some b) = start (record c { backend = b })

unfoldable pub with_port : Choice → Option ℤ → Outcome
with_port c none = thrown
with_port c (some n) = start (record c { port = to_uint16 n })

unfoldable pub with_buffer : Choice → Option ℕ → Outcome
with_buffer c none = thrown
with_buffer c (some n) = start (record c { buffer_size = n })

unfoldable pub with_max_events : Choice → Option ℤ → Outcome
with_max_events c none = thrown
with_max_events c (some n) = start (record c { max_events = n })

-- The chain of tests for one argument.
unfoldable pub apply_option : Choice → Text → Outcome
apply_option c arg =
    if text_eq arg (codes "-h") || text_eq arg (codes "--help")
    then exit 0
    else elim (after_prefix (codes "--backend=") arg) [
      | some v ↦ with_backend c (parse_backend v)
      | none ↦ elim (after_prefix (codes "--port=") arg) [
        | some v ↦ with_port c (stoi v)
        | none ↦ elim (after_prefix (codes "--buffer=") arg) [
          | some v ↦ with_buffer c (stoul v)
          | none ↦ elim (after_prefix (codes "--max-events=") arg) [
            | some v ↦ with_max_events c (stoi v)
            | none ↦ exit 2
          ]
        ]
      ]
    ]

unfoldable pub parse_options : Choice → List Text → Outcome
parse_options c [] = start c
parse_options c (arg ∷ args) = elim (apply_option c arg) [
  | start c' ↦ parse_options c' args
  | exit code ↦ exit code
  | thrown ↦ thrown
]

-- The epoll server holds a std::vector<char> of the buffer's size, whose constructor throws
-- length_error above PTRDIFF_MAX; the others make their buffers later. Memory is taken to suffice.
unfoldable pub has_vector : Backend → Bool
has_vector thread_per_connection = false
has_vector epoll_level = true
has_vector epoll_edge = true
has_vector io_uring = false

unfoldable pub construct : Choice → Outcome
construct c = if has_vector c.backend && leb (2 ^ 63) c.buffer_size then thrown else start c

unfoldable pub main : List Text → Outcome
main args = elim (parse_options default_choice args) [
  | start c ↦ construct c
  | exit code ↦ exit code
  | thrown ↦ thrown
]
