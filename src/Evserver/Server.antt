-- ===== src/Evserver/Server.antt =====
-- evserver/include/ev/server.hpp and evserver/src/server.cpp: the backends by name.
use linux_internals.Prelude.{ℕ, Option, none, some, Text, codes, text_eq, if◌then◌else◌}

pub data Backend : Type 0 where
  thread_per_connection epoll_level epoll_edge io_uring : Backend

pub record Config : Type 0 where
  pub backend : Backend
  pub port : ℕ
  pub max_events : ℕ
  pub buffer_size : ℕ

-- The field initialisers of `struct Config`.
abbrev pub default_config : Config
default_config = record { backend = epoll_level; port = 9000; max_events = 256; buffer_size = 4096 }

-- The class that make_server instantiates.
pub data ServerClass : Type 0 where
  thread_server epoll_server uring_server : ServerClass

pub make_server : Config → ServerClass
make_server cfg = by_backend cfg.backend
  where
    by_backend : Backend → ServerClass
    by_backend thread_per_connection = thread_server
    by_backend epoll_level = epoll_server
    by_backend epoll_edge = epoll_server
    by_backend io_uring = uring_server

unfoldable pub backend_name : Backend → Text
backend_name thread_per_connection = codes "thread-per-connection"
backend_name epoll_level = codes "epoll (level-triggered)"
backend_name epoll_edge = codes "epoll (edge-triggered)"
backend_name io_uring = codes "io_uring"

-- `none` leaves *out as it was and returns false.
unfoldable pub parse_backend : Text → Option Backend
parse_backend text =
    if text_eq text (codes "threads")
    then some thread_per_connection
    else if text_eq text (codes "epoll")
    then some epoll_level
    else if text_eq text (codes "epoll-et")
    then some epoll_edge
    else if text_eq text (codes "uring")
    then some io_uring
    else none
