-- ===== src/Minicontainer/Tests.antt =====
-- The theorems on minicontainer/ at inputs that meet their hypotheses, and runs.

use linux_internals.Minicontainer.Cgroup.{destroy}
use linux_internals.Minicontainer.Host.{refused, Host}
use linux_internals.Minicontainer.Container.Setup.{limit_of, has_limit, set_up_limits, set_up}
use linux_internals.Minicontainer.Container.Run.{
  System, Run, clone_flags, cgroup_path, oom_report, last_wait, after_wait, with_child,
  run_container,
}
use linux_internals.Minicontainer.Config.{default_config}
use linux_internals.Minicontainer.Namespaces.{
  Links, namespace_id, pad_right, id_text, namespace_lines,
}
use linux_internals.Minicontainer.Commands.Options.{arguments, main-arguments}
use linux_internals.Minicontainer.Commands.{run, main}
use linux_internals.Minicontainer.Container.Root.{Accepted, child_main-Accepted}
use linux_internals.Minicontainer.Container.{
  sethostname, mount_private, bind_rootfs, mkdir_put_old, pivot_root, chdir_root, umount_old_root,
  rmdir_old_root, mkdir_proc, mount_procfs, execvp, succeeded, Kernel, is_ok, is_made, then_step,
  call, make_dir, ignored, setup_rootfs, mount_proc, change_root, prepare, child_main, killed,
  interrupted, exit_status,
}
use linux_internals.Prelude.{
  ℕ, ◌*◌, ◌<◌, ◌≡◌, refl, true, false, Option, none, some, [], ◌∷◌, ◌++◌, map, arith, ◌==◌,
  if◌then◌else◌, to_string, decimal_value, AllDigits, length, All, pos, Text, codes, text_eq,
  is_digit, round_half_even, shift_down, of_integer, below, pad_zeros, fixed, scale_units,
}
use linux_internals.Minicontainer.Size.{checked, parse_size, human_bytes}
use linux_internals.Minicontainer.Size.Grammar.{
  Suffix, upper_m, suffix_text, factor, parse_size_digits, parse_size_accepts,
}

parse_size_digits_example :
    parse_size (codes "64" ++ suffix_text upper_m)
    ≡ checked (decimal_value 0 (codes "64") * factor upper_m)
unfolding is_digit
parse_size_digits_example = parse_size_digits (codes "64") upper_m (refl, (refl, tt)) (omega arith)

parse_size_accepts_example :
    (ds : Text) × (u : Suffix) × (codes "64M" ≡ ds ++ suffix_text u)
    × AllDigits ds
    × (0 < length ds)
    × (67108864 ≡ decimal_value 0 ds * factor u)
unfolding parse_size
parse_size_accepts_example = parse_size_accepts (codes "64M") 67108864 refl

-- A kernel that grants everything.
abbrev generous : Kernel
generous t c = succeeded

runs_command : (child_main generous (codes "/img") []).0 ≡ none
unfolding child_main prepare change_root setup_rootfs mount_proc then_step call make_dir ignored
    is_ok is_made
runs_command = refl

child_main-Accepted_example :
    (map (λ x. x.0) (child_main generous (codes "/img") []).1
      ≡ execvp ∷ mount_procfs ∷ mkdir_proc ∷ rmdir_old_root ∷ umount_old_root ∷ chdir_root
        ∷ pivot_root ∷ mkdir_put_old ∷ bind_rootfs ∷ mount_private ∷ sethostname ∷ [])
    × All Accepted (child_main generous (codes "/img") []).1
child_main-Accepted_example = child_main-Accepted generous 47 (codes "img") runs_command

main-arguments_example :
    main true (arguments (codes "/img") (codes "box") 4096 8 true (codes "sh" ∷ []))
    ≡ run (record {
      rootfs = codes "/img";
      hostname = codes "box";
      memory_limit = pos 4096;
      pids_limit = pos 8;
      isolate_network = false;
      command = codes "sh" ∷ [];
    })
main-arguments_example =
    main-arguments (codes "/img") (codes "box") 4096 8 true (codes "sh") [] (omega arith)
      (omega arith)

limit_printed : human_bytes (pos 67108864) ≡ codes "64.0M"
unfolding human_bytes scale_units of_integer shift_down round_half_even fixed pad_zeros below
    to_string
limit_printed = refl

abbrev one_link : Links
one_link path =
    if text_eq path (codes "/proc/self/ns/pid") then some (codes "pid:[4026531836]") else none

namespace_lines_printed :
    namespace_lines one_link (codes "self") (codes "pid" ∷ codes "cgroup" ∷ [])
    ≡ codes "    pid     pid:[4026531836]\n    cgroup  (unavailable)\n"
unfolding namespace_lines namespace_id pad_right id_text text_eq
namespace_lines_printed = refl

abbrev plain_host : Host
plain_host = record {
  opens = λ log path. true;
  writes = λ log path text. some (length text);
  reads = λ log path. none;
  mkdir = λ log path. refused;
  statfs = λ log path. none;
}

abbrev killed_system : System
killed_system = record {
  pipe = some (3, 4);
  clone = λ flags. if flags == 1812070417 then some 42 else none;
  host = plain_host;
  links = one_link;
  waits = interrupted ∷ killed 9 ∷ [];
  strsignal = λ sig. codes "Killed";
}

abbrev run_result : Option Run → Option ℕ
run_result none = none
run_result (some r) = r.status

killed_status : run_result (run_container killed_system default_config) ≡ some 137
unfolding run_container with_child clone_flags last_wait after_wait set_up set_up_limits limit_of
    has_limit cgroup_path exit_status oom_report destroy
killed_status = refl
