-- ===== src/Evserver/Program/Counters.antt =====
-- What main of evserver/src/main.cpp prints: where the server listens, and its counters once run() has
-- returned.
use linux_internals.Prelude.{
  ℕ, [], ◌++◌, ltb, if◌then◌else◌, to_string, Text, codes, of_integer, divide, fixed,
}
use linux_internals.Evserver.Server.{Backend, backend_name}
use linux_internals.Evserver.Stats.{Stats}

-- Each line's text, with a number after it.
unfoldable pub counter_line : Text → ℕ → Text
counter_line text n = text ++ (to_string n ++ codes "\n")

-- `pid` is what getpid returns.
pub banner : Backend → ℕ → ℕ → Text
banner backend port pid =
    codes "evserver listening on port "
    ++ (counter_line [] port
        ++ (codes "  backend: "
            ++ (backend_name backend
                ++ (codes "\n  pid:     "
                    ++ (to_string pid
                        ++ (codes "  (inspect with: procmon show "
                            ++ (to_string pid ++ codes ")\n\nCtrl-C to stop.\n")))))))

pub call_counters : Stats → Text
call_counters s =
    counter_line (codes "  connections accepted   ") s.accepted
    ++ (counter_line (codes "  connections closed     ") s.closed
        ++ (counter_line (codes "  requests echoed        ") s.requests
            ++ (counter_line (codes "  bytes echoed           ") s.bytes
                ++ (counter_line (codes "  read() calls           ") s.read_calls
                    ++ (counter_line (codes "  write() calls          ") s.write_calls
                        ++ (codes "  wait calls             "
                            ++ (to_string s.wait_calls
                                ++ (codes "   (epoll_wait / poll)\n"
                                    ++ counter_line (codes "  reads returning EAGAIN ")
                                        s.eagain))))))))

pub threads_counter : Stats → Text
threads_counter s =
    if ltb 0 s.threads_spawned
    then counter_line (codes "  threads spawned        ") s.threads_spawned
    else []

unfoldable pub requests_counters : Stats → Text
requests_counters s =
    if ltb 0 s.requests
    then counter_line (codes "  kernel entries         ") s.syscalls
      ++ (codes "\n  syscalls per request   "
          ++ (fixed 2 (divide (of_integer s.syscalls) (of_integer s.requests)) ++ codes "\n"))
    else []

pub closing_report : Backend → Stats → Text
closing_report backend s =
    codes "\n--- "
    ++ (backend_name backend
        ++ (codes " ---\n" ++ (call_counters s ++ (threads_counter s ++ requests_counters s))))
