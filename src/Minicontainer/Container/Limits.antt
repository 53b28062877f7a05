-- ===== src/Minicontainer/Container/Limits.antt =====
-- The block of run_container (minicontainer/src/container.cpp) that sets the limits, where it prints no
-- error.

use mathlib.Core.Path.{subst}
use linux_internals.Minicontainer.Config.{ContainerConfig}
use linux_internals.Minicontainer.Cgroup.Create.{create-Enabled}
use linux_internals.Prelude.{
  ℕ, ◌≡◌, refl, sym, ap, ◌⊎◌, inl, inr, true, false, Option, none, some, List, [], ◌∷◌, ◌++◌,
  Bool-cases, to_string, length, Text, codes,
}
use linux_internals.Minicontainer.Host.{
  open_call, write_call, Log, Host, Failure, Outcome, done, failed, Task, ignore, write_file,
}
use linux_internals.Minicontainer.Host.Logs.{
  Grows, Has, Wrote, Grows-refl, Grows-trans, Grows-call, Has-call, Has-Grows, Adds-out, >>=-done,
  write_file-Adds, write_file_shut, write_file-done, write_file_calls,
}
use linux_internals.Minicontainer.Cgroup.{
  parent, create, set_memory_limit, set_pids_limit, add_process,
}
use linux_internals.Minicontainer.Container.Setup.{
  limit_of, has_limit, printed, reported, when_limit, apply_limits, after_create, set_up_limits,
  set_up,
}

-- The limit, where there is one, was written to its file, the whole of it.
abbrev pub Applied : Text → Option ℕ → Log → Type 0
Applied file none log = Unit
Applied file (some n) log = Wrote file (to_string n) log

-- The value was offered to the path by a write, or the path did not open.
abbrev pub Tried : Text → Text → Log → Type 0
Tried path value log =
    Has (open_call path false) log ⊎ ((answer : Option ℕ) × Has (write_call path value answer) log)

-- The memory limit, where there is one, was written whole, and 0 was tried for the swap, without which
-- the limit bounds little.
abbrev pub MemoryApplied : Text → Option ℕ → Log → Type 0
MemoryApplied dir none log = Unit
MemoryApplied dir (some n) log =
    Wrote (dir ++ codes "/memory.max") (to_string n) log
    × Tried (dir ++ codes "/memory.swap.max") (codes "0") log

-- The directory of the child's cgroup.
abbrev pub cgroup_of : ℕ → Text
cgroup_of pid = parent ++ (codes "/" ++ (codes "mc-" ++ to_string pid))

Applied-Grows :
    (file : Text) (limit : Option ℕ) {a b : Log}
    → Applied file limit a
    → Grows a b
    → Applied file limit b
Applied-Grows file none w g = tt
Applied-Grows file (some n) w g = Has-Grows w g

Tried-Grows : {path value : Text} {a b : Log} → Tried path value a → Grows a b → Tried path value b
Tried-Grows (inl shut) g = inl (Has-Grows shut g)
Tried-Grows (inr (n, wrote)) g = inr (n, Has-Grows wrote g)

MemoryApplied-Grows :
    (dir : Text) (limit : Option ℕ) {a b : Log}
    → MemoryApplied dir limit a
    → Grows a b
    → MemoryApplied dir limit b
MemoryApplied-Grows dir none w g = tt
MemoryApplied-Grows dir (some n) w g = (Has-Grows w.0 g, Tried-Grows w.1 g)

printed-nil : (r : Outcome Unit) → printed r ≡ [] → r ≡ done tt
unfolding printed
printed-nil (done u) e = refl
printed-nil (failed x) e = cc

reported-silent :
    (m : Task Unit) (log out : Log) → reported m log ≡ ([], out) → m log ≡ (done tt, out)
unfolding reported
reported-silent m log out e = λ i. (printed-nil (m log).0 (ap (λ r. r.0) e) i, (e i).1)

append-nil-left : (xs ys : List Failure) → xs ++ ys ≡ [] → (xs ≡ []) × (ys ≡ [])
append-nil-left [] ys e = (refl, e)
append-nil-left (x ∷ xs) ys e = cc

module _ (h : Host) where
  write_file-Tried :
      (path value : Text) (log : Log) → Tried path value (write_file h path value log).1
  write_file-Tried path value log = elim (Bool-cases (h.opens log path)) [
    | inl ok ↦
        let (n, calls) = write_file_calls h path value log ok in inr (n, rw calls (Has-call _ _))
    | inr shut ↦ inl (rw (write_file_shut h path value log shut) (Has-call _ _))
  ]

  set_memory_limit-done :
      (path : Text) (n : ℕ) (log out : Log)
      → set_memory_limit h path n log ≡ (done tt, out)
      → MemoryApplied path (some n) out
  unfolding set_memory_limit
  set_memory_limit-done path n log out e =
      let (_, mid, first, second) =
        >>=-done (write_file h (path ++ codes "/memory.max") (to_string n)) _ log e in
      let wrote : Wrote (path ++ codes "/memory.max") (to_string n) mid =
        rw (write_file-done h (path ++ codes "/memory.max") (to_string n) log mid first)
          (Has-call _ _) in
      let swap = path ++ codes "/memory.swap.max" in
      (
        Has-Grows wrote (
            Adds-out (ignore (write_file h swap (codes "0"))) mid
              (write_file-Adds h swap (codes "0")) second),
        subst (Tried swap (codes "0")) (ap (λ r. r.1) second)
            (write_file-Tried swap (codes "0") mid),
      )

  set_pids_limit-done :
      (path : Text) (n : ℕ) (log out : Log)
      → set_pids_limit h path n log ≡ (done tt, out)
      → Wrote (path ++ codes "/pids.max") (to_string n) out
  unfolding set_pids_limit
  set_pids_limit-done path n log out e =
      rw (write_file-done h (path ++ codes "/pids.max") (to_string n) log out e) (Has-call _ _)

  when_limit-silent :
      (Is : Option ℕ → Log → Type 0) (set : ℕ → Task Unit)
      → ((log : Log) → Is none log)
      → ((n : ℕ) (log out : Log) → set n log ≡ (done tt, out) → Is (some n) out)
      → (limit : Option ℕ) (log : Log) → (when_limit set limit log).0 ≡ []
      → Is limit (when_limit set limit log).1
  unfolding when_limit
  when_limit-silent Is set u s none log e = u log
  when_limit-silent Is set u s (some n) log e =
      s n log (reported (set n) log).1
        (reported-silent (set n) log _ (λ i. (e i, (reported (set n) log).1)))

  pids_limit-Adds :
      (path : Text) (limit : Option ℕ) (log : Log)
      → Grows log (when_limit (set_pids_limit h path) limit log).1
  unfolding when_limit reported set_pids_limit
  pids_limit-Adds path none log = Grows-refl log
  pids_limit-Adds path (some n) log =
      write_file-Adds h (path ++ codes "/pids.max") (to_string n) log

  apply_limits-silent :
      (path : Text) (memory pids : Option ℕ) (pid : ℕ) (log out : Log)
      → apply_limits h path memory pids pid log ≡ ([], out)
      → (older : Log) × (out
          ≡ write_call
              (path ++ codes "/cgroup.procs")
              (to_string pid)
              (some (length (to_string pid)))
            ∷ older)
        × MemoryApplied path memory older
        × Applied (path ++ codes "/pids.max") pids older
  unfolding apply_limits
  apply_limits-silent path memory pids pid log out e =
      let first = when_limit (set_memory_limit h path) memory log in
      let second = when_limit (set_pids_limit h path) pids first.1 in
      let (quiet1, rest) = append-nil-left first.0 _ (ap (λ r. r.0) e) in
      let (quiet2, quiet3) = append-nil-left second.0 _ rest in
      let added =
        reported-silent (add_process h path pid) second.1 out (λ i. (quiet3 i, (e i).1)) in
      let opened = open_call (path ++ codes "/cgroup.procs") true ∷ second.1 in
      (
        opened,
        write_file-done h (path ++ codes "/cgroup.procs") (to_string pid) second.1 out
            (unfold add_process in added),
        MemoryApplied-Grows path memory
            (when_limit-silent (MemoryApplied path) (set_memory_limit h path) (λ l. tt)
              (set_memory_limit-done path) memory log quiet1)
            (Grows-trans (pids_limit-Adds path pids first.1) (Grows-call _ second.1)),
        Applied-Grows (path ++ codes "/pids.max") pids
            (when_limit-silent (Applied (path ++ codes "/pids.max")) (set_pids_limit h path)
              (λ l. tt) (set_pids_limit-done path) pids first.1 quiet2)
            (Grows-call _ second.1),
      )

  after_create-silent :
      (memory pids : Option ℕ) (pid : ℕ) (log mid out : Log) (r : Outcome Text)
      → create h (codes "mc-" ++ to_string pid) log ≡ (r, mid)
      → after_create h memory pids pid r mid ≡ ([], out)
      → apply_limits h (cgroup_of pid) memory pids pid mid ≡ ([], out)
  unfolding after_create
  after_create-silent memory pids pid log mid out (failed x) c e = cc
  after_create-silent memory pids pid log mid out (done path) c e =
      rw (sym (create-Enabled h (codes "mc-" ++ to_string pid) log mid path c).0) e

  set_up_limits-silent :
      (memory pids : Option ℕ) (pid : ℕ) (log out : Log)
      → has_limit memory pids ≡ true
      → set_up_limits h memory pids pid log ≡ ([], out)
      → after_create h memory pids pid
          (create h (codes "mc-" ++ to_string pid) log).0
          (create h (codes "mc-" ++ to_string pid) log).1
        ≡ ([], out)
  unfolding set_up_limits
  set_up_limits-silent memory pids pid log out lim e = rw (lim, set_up_limits) at e

  -- If a limit was asked for and nothing was printed, the last thing that was done is to put the
  -- child into its cgroup, and every limit asked for was applied by then.
  pub set_up-Applied :
      (cfg : ContainerConfig) (pid : ℕ) (log out : Log)
      → has_limit (limit_of cfg.memory_limit) (limit_of cfg.pids_limit) ≡ true
      → set_up h cfg pid log ≡ ([], out)
      → (older : Log) × (out
          ≡ write_call
              (cgroup_of pid ++ codes "/cgroup.procs")
              (to_string pid)
              (some (length (to_string pid)))
            ∷ older)
        × MemoryApplied (cgroup_of pid) (limit_of cfg.memory_limit) older
        × Applied (cgroup_of pid ++ codes "/pids.max") (limit_of cfg.pids_limit) older
  unfolding set_up
  set_up-Applied cfg pid log out lim e =
      let memory = limit_of cfg.memory_limit in
      let pids = limit_of cfg.pids_limit in
      apply_limits-silent (cgroup_of pid) memory pids pid _ out (
        after_create-silent memory pids pid log _ out _ refl
          (set_up_limits-silent memory pids pid log out lim e))
