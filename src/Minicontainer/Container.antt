-- ===== src/Minicontainer/Container.antt =====
-- minicontainer/src/container.cpp: the child's way to the command, the pipe that holds it back
-- until the parent has set the limits, and the status that run_container returns.
pub mod Barrier
pub mod Root
pub mod Setup
pub mod Limits
pub mod Run
use linux_internals.Prelude.{
  ℕ, ◌+◌, Bool, true, false, Option, none, some, List, [], ◌∷◌, if◌then◌else◌, Text,
}

-- The calls of the child, with what tells them apart.
pub data Call : Type 0 where
  sethostname : Call
  mount_private : Call
  bind_rootfs : Call
  mkdir_put_old : Call
  pivot_root : Call
  chdir_root : Call
  umount_old_root : Call
  rmdir_old_root : Call
  mkdir_proc : Call
  mount_procfs : Call
  execvp : Call

-- What a call returns: whether it succeeded, and if not whether errno is EEXIST.
pub data Answer : Type 0 where
  succeeded : Answer
  exists : Answer
  failed : Answer

-- The kernel, and the calls made so far with their answers, the last one first.
abbrev pub Trace : Type 0
Trace = List (Call × Answer)

abbrev pub Kernel : Type 0
Kernel = Trace → Call → Answer

-- A step that can fail: whether it succeeded, and the calls.
abbrev pub Attempt : Type 0
Attempt = Trace → Bool × Trace

unfoldable pub is_ok : Answer → Bool
is_ok succeeded = true
is_ok exists = false
is_ok failed = false

-- errno == EEXIST is no failure of a mkdir.
unfoldable pub is_made : Answer → Bool
is_made succeeded = true
is_made exists = true
is_made failed = false

-- if (a fails) return false; then b.
unfoldable pub then_step : Attempt → Attempt → Attempt
then_step a b t = let (ok, t') = a t in elim ok [ true ↦ b t' | false ↦ (false, t') ]

module _ (k : Kernel) where
  unfoldable pub call : Call → Attempt
  call c t = let answer = k t c in (is_ok answer, (c, answer) ∷ t)

  unfoldable pub make_dir : Call → Attempt
  make_dir c t = let answer = k t c in (is_made answer, (c, answer) ∷ t)

  -- A call whose result is not looked at.
  unfoldable pub ignored : Call → Attempt
  ignored c t = (true, (c, k t c) ∷ t)

  unfoldable pub setup_rootfs : Attempt
  setup_rootfs = then_step (call mount_private) (
      then_step (call bind_rootfs) (
        then_step (make_dir mkdir_put_old) (
          then_step (call pivot_root) (
            then_step (call chdir_root)
              (then_step (call umount_old_root) (ignored rmdir_old_root))))))

  unfoldable pub mount_proc : Attempt
  mount_proc = then_step (make_dir mkdir_proc) (call mount_procfs)

  -- if (!cfg.rootfs.empty()) ...
  unfoldable pub change_root : Text → Attempt
  change_root [] t = (true, t)
  change_root (c ∷ rootfs) t = setup_rootfs t

  -- What child_main does before execvp, past the barrier.
  unfoldable pub prepare : Text → Attempt
  prepare rootfs = then_step (call sethostname) (then_step (change_root rootfs) mount_proc)

  -- The exit status of child_main, or none when the command has taken over the process.
  unfoldable pub child_main : Text → Trace → Option ℕ × Trace
  child_main rootfs t =
      let (ready, t') = prepare rootfs t in
      elim ready [
        | false ↦ (some 1, t')
        | true ↦ let (ran, t'') = call execvp t' in (if ran then none else some 127, t'')
      ]

-- waitpid: a status, EINTR or another error.
pub data Wait : Type 0 where
  exited : ℕ → Wait
  killed : ℕ → Wait
  stopped : Wait
  interrupted : Wait
  wait_failed : Wait

-- What run_container returns; none stands for -1.
unfoldable pub exit_status : Wait → Option ℕ
exit_status (exited n) = some n
exit_status (killed sig) = some (128 + sig)
exit_status stopped = none
exit_status interrupted = none
exit_status wait_failed = none

-- while (::waitpid(...) < 0), and what follows it, on the answers of waitpid one after the other.
-- The outer option is none when they end before the loop does.
unfoldable pub wait_loop : List Wait → Option (Option ℕ)
wait_loop [] = none
wait_loop (interrupted ∷ ws) = wait_loop ws
wait_loop (exited n ∷ ws) = some (exit_status (exited n))
wait_loop (killed sig ∷ ws) = some (exit_status (killed sig))
wait_loop (stopped ∷ ws) = some (exit_status stopped)
wait_loop (wait_failed ∷ ws) = some (exit_status wait_failed)
