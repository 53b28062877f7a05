-- ===== src/Minicontainer/Cgroup/Tests.antt =====
-- A host with cgroup v2 whose root holds two processes, and the theorems on cgroups there.
use linux_internals.Minicontainer.Container.Barrier.{
  released, past, Barrier, after_clone, steps_left, Step, close_read_end, set_limits, release,
  close_write_end, read_eof, Reach, first, later, past_barrier_released, past_barrier-Applied,
  barrier_opens,
}
use linux_internals.Minicontainer.Container.Limits.{Applied, MemoryApplied, cgroup_of}
use linux_internals.Minicontainer.Cgroup.Create.{Enabled, Made, create-Enabled}
use linux_internals.Prelude.{
  ◌<◌, ◌≡◌, refl, ◌⊎◌, true, false, some, [], ◌∷◌, ◌++◌, map, if◌then◌else◌, find_byte, find_text,
  unlines, to_string, length, pos, Text, codes, text_eq, after_prefix,
}
use linux_internals.Minicontainer.Container.Setup.{
  limit_of, has_limit, printed, reported, when_limit, apply_limits, after_create, set_up_limits,
  set_up,
}
use linux_internals.Minicontainer.Cgroup.Vacate.{attempted, init_procs, vacate_root-attempted}
use linux_internals.Minicontainer.Host.{
  made, write_call, Log, Host, done, is_whole, pop_blanks, open_file, write_value, write_file,
  read_file, make_directory,
}
use linux_internals.Minicontainer.Config.{ContainerConfig, default_config}
use linux_internals.Minicontainer.Cgroup.{
  root, parent, cgroup2_magic, line_end, holds, wanted, is_cgroup2, move_pid, move_pids, vacate_to,
  vacate_some, vacate_root, enable, enable_available, enable_controllers, cgroup_v2_available,
  require_v2, create, set_memory_limit, set_pids_limit, add_process,
}

abbrev content : Text → Text
content path =
    if text_eq path (root ++ codes "/cgroup.procs")
    then unlines (map to_string (1 ∷ 22 ∷ []))
    else codes "cpu memory pids\n"

-- Every file opens, every write is whole and every mkdir succeeds.
abbrev v2_host : Host
v2_host = record {
  opens = λ log path. true;
  writes = λ log path value. some (length value);
  reads = λ log path. some (content path);
  mkdir = λ log path. made;
  statfs = λ log path. some cgroup2_magic;
}

vacate_root-attempted_example :
    attempted init_procs (vacate_root v2_host []).1
    ≡ attempted init_procs [] ++ map to_string (1 ∷ 22 ∷ [])
vacate_root-attempted_example =
    vacate_root-attempted v2_host (λ l. refl) (1 ∷ 22 ∷ []) [] procs (λ e. cc)
  where
    procs :
        v2_host.reads [] (root ++ codes "/cgroup.procs")
        ≡ some (unlines (map to_string (1 ∷ 22 ∷ [])))
    procs = unfold text_eq in refl

abbrev limited_config : ContainerConfig
limited_config = record default_config { memory_limit = pos 4096; pids_limit = pos 8 }

quiet : (set_up v2_host limited_config 7 []).0 ≡ []
unfolding set_up limit_of set_up_limits has_limit create require_v2 cgroup_v2_available is_cgroup2
    vacate_root vacate_some vacate_to move_pids move_pid line_end enable_controllers
    enable_available enable wanted holds find_text after_prefix make_directory write_file open_file
    write_value is_whole read_file pop_blanks after_create apply_limits when_limit reported printed
    set_memory_limit set_pids_limit add_process text_eq find_byte unlines to_string
quiet = refl

asked_for :
    has_limit (limit_of limited_config.memory_limit) (limit_of limited_config.pids_limit) ≡ true
unfolding has_limit limit_of
asked_for = refl

-- The child waits, with its own write end closed, until the parent is done.
abbrev opened : Barrier
opened = record {
  parent = released;
  child = past;
  parent_end = false;
  child_end = false;
  failures = (set_up v2_host limited_config 7 []).0;
  log = (set_up v2_host limited_config 7 []).1;
}

opened-Reach : Reach v2_host limited_config 7 opened
unfolding after_clone
opened-Reach =
    later
      (later
        (later (later (later first (close_write_end after_clone refl)) (close_read_end _ refl))
          (set_limits _ refl))
        (release _ refl))
      (read_eof _ refl refl refl)

past_barrier_released_example :
    (opened.parent ≡ released)
    × (set_up v2_host limited_config 7 [] ≡ (opened.failures, opened.log))
past_barrier_released_example = past_barrier_released v2_host limited_config 7 opened-Reach refl

past_barrier-Applied_example :
    (older : Log) × (opened.log
      ≡ write_call
          (cgroup_of 7 ++ codes "/cgroup.procs")
          (to_string 7)
          (some (length (to_string 7)))
        ∷ older)
    × MemoryApplied (cgroup_of 7) (limit_of (pos 4096)) older
    × Applied (cgroup_of 7 ++ codes "/pids.max") (limit_of (pos 8)) older
past_barrier-Applied_example =
    past_barrier-Applied v2_host limited_config 7 opened-Reach refl asked_for quiet

barrier_opens_example :
    (opened.child ≡ past)
    ⊎ ((b' : Barrier) × Step v2_host limited_config 7 opened b'
        × (steps_left b' < steps_left opened))
barrier_opens_example = barrier_opens v2_host limited_config 7 opened-Reach

created : (create v2_host (codes "mc-7") []).0 ≡ done (parent ++ codes "/mc-7")
unfolding set_up limit_of set_up_limits has_limit create require_v2 cgroup_v2_available is_cgroup2
    vacate_root vacate_some vacate_to move_pids move_pid line_end enable_controllers
    enable_available enable wanted holds find_text after_prefix make_directory write_file open_file
    write_value is_whole read_file pop_blanks after_create apply_limits when_limit reported printed
    set_memory_limit set_pids_limit add_process text_eq find_byte unlines to_string
created = refl

abbrev create_log : Log
create_log = (create v2_host (codes "mc-7") []).1

create-Enabled_example :
    (parent ++ codes "/mc-7" ≡ parent ++ codes "/mc-7")
    × Made (parent ++ codes "/mc-7") create_log
    × Made parent create_log
    × Enabled root create_log
    × Enabled parent create_log
create-Enabled_example =
    create-Enabled v2_host (codes "mc-7") [] create_log (parent ++ codes "/mc-7")
      (λ i. (created i, create_log))
