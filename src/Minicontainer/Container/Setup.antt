-- ===== src/Minicontainer/Container/Setup.antt =====
-- The block of run_container (minicontainer/src/container.cpp) that puts the child in a cgroup. It
-- runs before the parent releases the barrier, and the child goes on whatever comes out of it.
use linux_internals.Prelude.{
  ℕ, zero, suc, Bool, true, false, Option, none, some, List, [], ◌∷◌, ◌++◌, to_string, ℤ, pos,
  negsuc, Text, codes,
}
use linux_internals.Minicontainer.Config.{ContainerConfig}
use linux_internals.Minicontainer.Host.{Log, Host, Failure, Outcome, done, failed, Task}
use linux_internals.Minicontainer.Cgroup.{create, set_memory_limit, set_pids_limit, add_process}

-- limit > 0.
unfoldable pub limit_of : ℤ → Option ℕ
limit_of (negsuc n) = none
limit_of (pos zero) = none
limit_of (pos (suc n)) = some (suc n)

unfoldable pub has_limit : Option ℕ → Option ℕ → Bool
has_limit none none = false
has_limit none (some n) = true
has_limit (some n) pids = true

-- What is printed of a step: its failure, if it fails.
unfoldable pub printed : Outcome Unit → List Failure
printed (done u) = []
printed (failed e) = e ∷ []

abbrev pub Reported : Type 0
Reported = Log → List Failure × Log

unfoldable pub reported : Task Unit → Reported
reported m log = let (r, log') = m log in (printed r, log')

-- if (limit > 0 && !set(limit)) print the error.
unfoldable pub when_limit : (ℕ → Task Unit) → Option ℕ → Reported
when_limit set none log = ([], log)
when_limit set (some n) log = reported (set n) log

module _ (h : Host) where
  -- Past a create that succeeded.
  unfoldable pub apply_limits : Text → Option ℕ → Option ℕ → ℕ → Reported
  apply_limits path memory pids pid log =
      let (m, log1) = when_limit (set_memory_limit h path) memory log in
      let (p, log2) = when_limit (set_pids_limit h path) pids log1 in
      let (a, log3) = reported (add_process h path pid) log2 in (m ++ (p ++ a), log3)

  unfoldable pub after_create : Option ℕ → Option ℕ → ℕ → Outcome Text → Reported
  after_create memory pids pid (failed e) log = (e ∷ [], log)
  after_create memory pids pid (done path) log = apply_limits path memory pids pid log

  unfoldable pub set_up_limits : Option ℕ → Option ℕ → ℕ → Reported
  set_up_limits memory pids pid log = elim (has_limit memory pids) [
    | false ↦ ([], log)
    | true ↦
        let (r, log') = create h (codes "mc-" ++ to_string pid) log in
        after_create memory pids pid r log'
  ]

  unfoldable pub set_up : ContainerConfig → ℕ → Reported
  set_up cfg pid = set_up_limits (limit_of cfg.memory_limit) (limit_of cfg.pids_limit) pid
