-- ===== src/Minicontainer/Container/Run.antt =====
-- run_container of minicontainer/src/container.cpp from pipe() to its return: what it asks of the
-- system, what it prints and what it returns. The system's answers are parameters; those on files
-- depend on the calls made so far.
use mathlib.Core.Option
use linux_internals.Prelude.{
  ℕ, zero, suc, ◌+◌, ◌^◌, true, false, Option, none, some, List, [], ◌∷◌, ◌++◌, if◌then◌else◌,
  to_string, ℤ, pos, negsuc, Text, codes,
}
use linux_internals.Minicontainer.Config.{ContainerConfig}
use linux_internals.Minicontainer.Host.{Log, Host, Failure, Outcome, done, failed}
use linux_internals.Minicontainer.Cgroup.{create, destroy, oom_kill_count}
use linux_internals.Minicontainer.Container.{
  Wait, exited, killed, stopped, interrupted, wait_failed, exit_status,
}
use linux_internals.Minicontainer.Container.Setup.{limit_of, has_limit, set_up}
use linux_internals.Minicontainer.Namespaces.{Links, print_namespaces}

-- `pipe` has the read end and the write end, and `clone` the child's pid, by the flags; none is an
-- error. `waits` is what waitpid answers, one call after the other.
pub record System : Type 0 where
  pub pipe : Option (ℕ × ℕ)
  pub clone : ℕ → Option ℕ
  pub host : Host
  pub links : Links
  pub waits : List Wait
  pub strsignal : ℕ → Text

-- What *error tells, if it is told anything.
pub data Broken : Type 0 where
  no_pipe : Broken
  no_clone : Broken
  no_wait : Broken

-- The descriptors closed, in order; the failures and the text printed; and the calls on files.
pub record Run : Type 0 where
  pub status : Option ℕ
  pub error : Option Broken
  pub closed : List ℕ
  pub failures : List Failure
  pub text : Text
  pub log : Log

-- CLONE_NEWPID | CLONE_NEWNS | CLONE_NEWUTS | CLONE_NEWIPC | SIGCHLD, and CLONE_NEWNET.
unfoldable pub clone_flags : ContainerConfig → ℕ
clone_flags cfg =
    let flags = 2 ^ 29 + 2 ^ 17 + 2 ^ 26 + 2 ^ 27 + 17 in
    if cfg.isolate_network then flags + 2 ^ 30 else flags

unfoldable pub unstarted : Broken → Run
unstarted e = record {
  status = none;
  error = some e;
  closed = [];
  failures = [];
  text = [];
  log = [];
}

-- The path_ of the Cgroup once the block that sets it up is left; empty without a cgroup.
unfoldable pub path_of : Outcome Text → Text
path_of (done path) = path
path_of (failed e) = []

unfoldable pub cgroup_path : Host → ContainerConfig → ℕ → Text
cgroup_path h cfg pid = elim (has_limit (limit_of cfg.memory_limit) (limit_of cfg.pids_limit)) [
  | false ↦ []
  | true ↦ path_of (create h (codes "mc-" ++ to_string pid) []).0
]

unfoldable pub pid_text : System → ℕ → Text
pid_text sys pid =
    codes "  container pid on host   "
    ++ (to_string pid
        ++ (codes "\n"
            ++ (print_namespaces sys.links (to_string pid) (codes "container namespaces")
                ++ codes "\n")))

unfoldable pub oom_text : ℤ → Text
oom_text (pos (suc n)) =
    codes "\n  cgroup OOM kills: "
    ++ (to_string (suc n) ++ codes "  (the memory limit was enforced)\n")
oom_text (pos zero) = []
oom_text (negsuc n) = []

-- if (cgroup.valid()) ...
unfoldable pub oom_report : Host → Text → Log → Text × Log
oom_report h [] log = ([], log)
oom_report h (c ∷ path) log =
    let (kills, log') = oom_kill_count h (c ∷ path) log in (oom_text kills, log')

unfoldable pub killed_text : System → Wait → Text
killed_text sys (killed sig) =
    codes "  container killed by signal "
    ++ (to_string sig ++ (codes " (" ++ (sys.strsignal sig ++ codes ")\n")))
killed_text sys w = []

-- The answer with which the loop over waitpid ends.
unfoldable pub last_wait : List Wait → Option Wait
last_wait [] = none
last_wait (w ∷ ws) =
    let rest = last_wait ws in
    elim w [
      | interrupted ↦ rest
      | exited n ↦ some (exited n)
      | killed sig ↦ some (killed sig)
      | stopped ↦ some stopped
      | wait_failed ↦ some wait_failed
    ]

-- What follows the loop; `text` and `log` are those from before it. The destructor of `cgroup` comes last.
unfoldable pub after_wait : System → Text → List ℕ → List Failure → Text → Log → Wait → Run
after_wait sys path closed failures text log wait_failed = record {
  status = none;
  error = some no_wait;
  closed = closed;
  failures = failures;
  text = text;
  log = destroy sys.host path log;
}
after_wait sys path closed failures text log w =
    let (oom, log') = oom_report sys.host path log in
    record {
      status = exit_status w;
      error = none;
      closed = closed;
      failures = failures;
      text = text ++ (oom ++ killed_text sys w);
      log = destroy sys.host path log';
    }

unfoldable pub with_child : System → ContainerConfig → ℕ → ℕ → ℕ → Option Run
with_child sys cfg read_end write_end pid =
    let (failures, log) = set_up sys.host cfg pid [] in
    let path = cgroup_path sys.host cfg pid in
    Option.map (after_wait sys path (read_end ∷ write_end ∷ []) failures (pid_text sys pid) log)
      (last_wait sys.waits)

-- none if the answers of waitpid end before its loop does.
unfoldable pub run_container : System → ContainerConfig → Option Run
run_container sys cfg = elim sys.pipe [
  | none ↦ some (unstarted no_pipe)
  | some ends ↦ elim (sys.clone (clone_flags cfg)) [
    | none ↦ some (unstarted no_clone)
    | some pid ↦ with_child sys cfg ends.0 ends.1 pid
  ]
]
