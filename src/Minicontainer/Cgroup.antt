-- ===== src/Minicontainer/Cgroup.antt =====
-- minicontainer/src/cgroup.cpp: a cgroup v2 directory and the limits that are written into it. A
-- Cgroup is its path_, which is empty until create succeeds.
pub mod Create
pub mod Vacate
mod Tests
use linux_internals.Prelude.{
  ℕ, zero, suc, ◌+◌, ◌-◌, ◌/◌, ◌%◌, ◌^◌, max, Bool, true, false, Option, none, some, [], ◌∷◌, ◌++◌,
  ltb, leb, ◌==◌, if◌then◌else◌, find_byte, find_text, to_string, scan_number, length, take, drop,
  ℤ, pos, negsuc, negative, Text, codes,
}
use linux_internals.Minicontainer.Host.{
  rmdir_call, statfs_call, Log, Host, cannot_read, not_cgroup2, no_controllers, done, failed, Task,
  pure, fail, ignore, ◌>>=◌, ◌>>◌, write_file, read_file, make_directory,
}

abbrev pub root : Text
root = codes "/sys/fs/cgroup"

abbrev pub parent : Text
parent = codes "/sys/fs/cgroup/minicontainer"

abbrev pub cgroup2_magic : ℕ
cgroup2_magic = 0x63677270

-- `end` of vacate_root's loop: the next newline, or the size.
unfoldable pub line_end : Text → ℕ
line_end s = elim (find_byte 10 s) [ none ↦ length s | some e ↦ e ]

unfoldable pub holds : Text → Text → Bool
holds s p = elim (find_text p s) [ none ↦ false | some rest ↦ true ]

-- What is asked for of the controllers that the directory has.
unfoldable pub wanted : Text → Text
wanted available =
    (if holds available (codes "memory") then codes "+memory " else [])
    ++ (if holds available (codes "pids") then codes "+pids" else [])

-- std::strtoll: 0 where there is no number, and the nearest bound out of range.
unfoldable pub saturate : Option (Bool × ℕ) → ℤ
saturate none = pos 0
saturate (some (true, n)) = if leb n (2 ^ 63) then negative n else negative (2 ^ 63)
saturate (some (false, n)) = if ltb n (2 ^ 63) then pos n else pos (2 ^ 63 - 1)

unfoldable pub strtoll : Text → ℤ
strtoll s = saturate (scan_number s)

unfoldable pub number_or_absent : Option Text → ℤ
number_or_absent none = negsuc 0
number_or_absent (some s) = strtoll s

unfoldable pub oom_kills : Option Text → ℤ
oom_kills none = negsuc 0
oom_kills (some events) = number_or_absent (find_text (codes "oom_kill ") events)

-- The low 32 bits of f_type.
unfoldable pub is_cgroup2 : Option ℕ → Bool
is_cgroup2 none = false
is_cgroup2 (some f_type) = f_type % 2 ^ 32 == cgroup2_magic

module _ (h : Host) where
  unfoldable pub move_pid : Text → Text → Task Unit
  move_pid leaf [] = pure tt
  move_pid leaf (c ∷ pid) = ignore (write_file h (leaf ++ codes "/cgroup.procs") (c ∷ pid))

  -- while (start < procs->size()) of vacate_root, on what is left from `start`. A round takes at
  -- least one byte.
  unfoldable pub move_pids : ℕ → Text → Text → Task Unit
  move_pids zero leaf s = pure tt
  move_pids (suc f) leaf [] = pure tt
  move_pids (suc f) leaf (c ∷ s) =
      let e = line_end (c ∷ s) in
      move_pid leaf (take e (c ∷ s)) >> move_pids f leaf (drop (e + 1) (c ∷ s))

  unfoldable pub vacate_to : Text → Text → Task Unit
  vacate_to leaf procs = make_directory h leaf >> move_pids (length procs) leaf procs

  unfoldable pub vacate_some : Option Text → Task Unit
  vacate_some none = pure tt
  vacate_some (some []) = pure tt
  vacate_some (some (c ∷ procs)) = vacate_to (root ++ codes "/init") (c ∷ procs)

  unfoldable pub vacate_root : Task Unit
  vacate_root log =
      let (procs, log') = read_file h (root ++ codes "/cgroup.procs") log in vacate_some procs log'

  unfoldable pub enable : Text → Text → Task Unit
  enable dir [] = fail (no_controllers dir)
  enable dir (c ∷ names) = write_file h (dir ++ codes "/cgroup.subtree_control") (c ∷ names)

  unfoldable pub enable_available : Text → Option Text → Task Unit
  enable_available dir none = fail (cannot_read (dir ++ codes "/cgroup.controllers"))
  enable_available dir (some available) = enable dir (wanted available)

  unfoldable pub enable_controllers : Text → Task Unit
  enable_controllers dir log =
      let (available, log') = read_file h (dir ++ codes "/cgroup.controllers") log in
      enable_available dir available log'

  unfoldable pub cgroup_v2_available : Log → Bool × Log
  cgroup_v2_available log =
      let f_type = h.statfs log root in (is_cgroup2 f_type, statfs_call root f_type ∷ log)

  unfoldable pub require_v2 : Task Unit
  require_v2 log =
      let (ok, log') = cgroup_v2_available log in
      ((if ok then done tt else failed (not_cgroup2 root)), log')

  -- Cgroup::create; the result is what path_ becomes.
  unfoldable pub create : Text → Task Text
  create name = do
    require_v2
    vacate_root
    enable_controllers root
    make_directory h parent
    enable_controllers parent
    make_directory h (parent ++ (codes "/" ++ name))
    pure (parent ++ (codes "/" ++ name))

  -- The limits are given as they are set: not negative.
  unfoldable pub set_memory_limit : Text → ℕ → Task Unit
  set_memory_limit path bytes = do
    write_file h (path ++ codes "/memory.max") (to_string bytes)
    ignore (write_file h (path ++ codes "/memory.swap.max") (codes "0"))

  unfoldable pub set_pids_limit : Text → ℕ → Task Unit
  set_pids_limit path count = write_file h (path ++ codes "/pids.max") (to_string count)

  unfoldable pub add_process : Text → ℕ → Task Unit
  add_process path pid = write_file h (path ++ codes "/cgroup.procs") (to_string pid)

  -- ~Cgroup.
  unfoldable pub destroy : Text → Log → Log
  destroy [] log = log
  destroy (c ∷ path) log = rmdir_call (c ∷ path) ∷ log

  unfoldable pub oom_kill_count : Text → Log → ℤ × Log
  oom_kill_count path log =
      let (events, log') = read_file h (path ++ codes "/memory.events") log in
      (oom_kills events, log')

  unfoldable pub current_memory : Text → Log → ℤ × Log
  current_memory path log =
      let (current, log') = read_file h (path ++ codes "/memory.current") log in
      (number_or_absent current, log')
