-- ===== src/Evserver/Stats.antt =====
-- evserver/include/ev/stats.hpp: the counters.
use linux_internals.Prelude.{ℕ, ◌+◌, ◌%◌, ◌^◌, ◌≡◌}

-- std::atomic<uint64_t>: fetch_add wraps.
abbrev pub uint64_mod : ℕ
uint64_mod = 2 ^ 64

pub record Stats : Type 0 where
  pub accepted : ℕ
  pub closed : ℕ
  pub requests : ℕ
  pub bytes : ℕ
  pub read_calls : ℕ
  pub write_calls : ℕ
  pub wait_calls : ℕ
  pub eagain : ℕ
  pub threads_spawned : ℕ
  pub syscalls : ℕ

abbrev pub zero_stats : Stats
zero_stats = record {
  accepted = 0;
  closed = 0;
  requests = 0;
  bytes = 0;
  read_calls = 0;
  write_calls = 0;
  wait_calls = 0;
  eagain = 0;
  threads_spawned = 0;
  syscalls = 0;
}

-- Stats::bump, on the counter's value.
unfoldable pub bump : ℕ → ℕ → ℕ
bump counter by = (counter + by) % uint64_mod

-- The bumps that the backends make together.
unfoldable pub bump_accepted : Stats → Stats
unfolding bump
bump_accepted c = record c { accepted = bump c.accepted 1 }

unfoldable pub bump_closed : Stats → Stats
unfolding bump
bump_closed c = record c { closed = bump c.closed 1 }

unfoldable pub bump_request : ℕ → Stats → Stats
unfolding bump
bump_request n c = record c { requests = bump c.requests 1; bytes = bump c.bytes n }

unfoldable pub bump_eagain : Stats → Stats
unfolding bump
bump_eagain c = record c { eagain = bump c.eagain 1 }

unfoldable pub bump_read : Stats → Stats
unfolding bump
bump_read c = record c { read_calls = bump c.read_calls 1; syscalls = bump c.syscalls 1 }

unfoldable pub bump_write : Stats → Stats
unfolding bump
bump_write c = record c { write_calls = bump c.write_calls 1; syscalls = bump c.syscalls 1 }

unfoldable pub bump_wait : Stats → Stats
unfolding bump
bump_wait c = record c { wait_calls = bump c.wait_calls 1; syscalls = bump c.syscalls 1 }

-- The kernel entries counted are the reads, writes and waits counted, modulo the counters' width.
abbrev pub SyscallsAddUp : Stats → Type 0
SyscallsAddUp s =
    s.syscalls % uint64_mod ≡ (s.read_calls + s.write_calls + s.wait_calls) % uint64_mod
