-- ===== src/Evserver/Program.antt =====
-- main of evserver/src/main.cpp up to server->run(): the options, the server that make_server makes, its
-- start(), and its destructor where start() fails.
pub mod Ends
pub mod Counters
mod Tests
use linux_internals.Evserver.Setup.Start.{Members, server_start}
use linux_internals.Evserver.Options.{Choice, start, exit, thrown, main}
use linux_internals.Evserver.Server.{Config, ServerClass, make_server}
use linux_internals.Prelude.{ℕ, suc, ◌-◌, ◌%◌, ◌^◌, Bool, true, false, List, ℤ, pos, negsuc, Text}
use linux_internals.Evserver.Setup.{Net, Setup, drop_socket}

-- How main goes on: it returns an exit code, an exception ends it, or it calls run() on a server.
pub data Finish : Type 0 where
  exits : ℕ → Finish
  aborts : Finish
  serves : ServerClass → Members → Finish

-- The destructor of a Socket.
pub close_owned : ℤ → Setup → Setup
close_owned (pos n) s = drop_socket n s
close_owned (negsuc n) s = s

-- The members are destroyed in the reverse order of their declarations.
pub close_members : Members → Setup → Setup
close_members m s = close_owned m.listener (close_owned m.signal (close_owned m.epoll s))

-- static_cast<size_t>, as the constructor of a vector of max_events elements converts it.
pub to_size : ℤ → ℕ
to_size (pos n) = n
to_size (negsuc n) = 2 ^ 64 - suc n % 2 ^ 64

pub config_of : Choice → Config
config_of c = record {
  backend = c.backend;
  port = c.port;
  max_events = to_size c.max_events;
  buffer_size = c.buffer_size;
}

-- What follows start(), by its result.
pub after_start : ServerClass → Bool → Members → Setup → Finish × Setup
after_start class true m s = (serves class m, s)
after_start class false m s = (exits 1, close_members m s)

-- start() of a server that make_server has given: an exception of its constructor is an Outcome of main
-- in Options.
pub start_server : Net → Choice → Setup → Finish × Setup
start_server net c s =
    let class = make_server (config_of c) in
    let (ok, m, s') = server_start class net c.port s in after_start class ok m s'

pub program : Net → List Text → Setup → Finish × Setup
program net args s = elim (main args) [
  | start c ↦ start_server net c s
  | exit code ↦ (exits code, s)
  | thrown ↦ (aborts, s)
]
