-- ===== src/Minicontainer/Commands.antt =====
-- minicontainer/src/main.cpp: the options of run, and which command main carries out.
pub mod Options
use mathlib.Core.Option
use linux_internals.Prelude.{
  ℕ, Bool, true, false, ◌||◌, Option, none, some, List, [], ◌∷◌, if◌then◌else◌, stoll, ℤ, pos, Text,
  codes, text_eq, after_prefix,
}
use linux_internals.Minicontainer.Config.{ContainerConfig, default_config}
use linux_internals.Minicontainer.Size.{Size, nullopt, bytes, undefined, parse_size}

-- What one option does: a new configuration, an error (exit status 2), an exception of std::stoll
-- that nobody catches, or parse_size's undefined behaviour.
pub data OptionResult : Type 0 where
  accept : ContainerConfig → OptionResult
  reject : OptionResult
  throw : OptionResult
  misbehave : OptionResult

unfoldable pub with_rootfs : ContainerConfig → Text → OptionResult
with_rootfs cfg value = accept (record cfg { rootfs = value })

unfoldable pub with_hostname : ContainerConfig → Text → OptionResult
with_hostname cfg value = accept (record cfg { hostname = value })

unfoldable pub with_size : ContainerConfig → Size → OptionResult
with_size cfg nullopt = reject
with_size cfg (bytes n) = accept (record cfg { memory_limit = pos n })
with_size cfg undefined = misbehave

unfoldable pub with_memory : ContainerConfig → Text → OptionResult
with_memory cfg value = with_size cfg (parse_size value)

unfoldable pub with_count : ContainerConfig → Option ℤ → OptionResult
with_count cfg none = throw
with_count cfg (some n) = accept (record cfg { pids_limit = n })

unfoldable pub with_pids : ContainerConfig → Text → OptionResult
with_pids cfg value = with_count cfg (stoll value)

-- `else if`: the next test only if the option does not begin like this.
abbrev pub or_else : Option OptionResult → OptionResult → OptionResult
or_else none r = r
or_else (some a) r = a

unfoldable pub flag : ContainerConfig → Text → OptionResult
flag cfg arg =
    if text_eq arg (codes "--share-net")
    then accept (record cfg { isolate_network = false })
    else reject

unfoldable pub apply_option : ContainerConfig → Text → OptionResult
apply_option cfg arg =
    or_else (Option.map (with_rootfs cfg) (after_prefix (codes "--rootfs=") arg)) (
      or_else (Option.map (with_hostname cfg) (after_prefix (codes "--hostname=") arg)) (
        or_else (Option.map (with_memory cfg) (after_prefix (codes "--memory=") arg)) (
          or_else (Option.map (with_pids cfg) (after_prefix (codes "--pids=") arg))
            (flag cfg arg))))

-- What main does: it exits, prints namespaces, runs a container, or does not get that far.
pub data Start : Type 0 where
  exit : ℕ → Start
  ns : Text → Start
  run : ContainerConfig → Start
  uncaught : Start
  undefined_behaviour : Start

-- Past the options: the rest of the arguments is the command.
unfoldable pub with_command : Bool → ContainerConfig → List Text → Start
with_command is_root cfg [] = exit 2
with_command is_root cfg (c ∷ command) =
    if is_root then run (record cfg { command = c ∷ command }) else exit 1

-- The loop over the options.
unfoldable pub parse_options : Bool → ContainerConfig → List Text → Start
parse_options is_root cfg [] = with_command is_root cfg []
parse_options is_root cfg (arg ∷ args) = elim (text_eq arg (codes "--")) [
  | true ↦ with_command is_root cfg args
  | false ↦ elim (apply_option cfg arg) [
    | accept cfg' ↦ parse_options is_root cfg' args
    | reject ↦ exit 2
    | throw ↦ uncaught
    | misbehave ↦ undefined_behaviour
  ]
]

unfoldable pub ns_of : List Text → Text
ns_of [] = codes "self"
ns_of (pid ∷ args) = pid

-- `is_root` is geteuid() == 0.
unfoldable pub main : Bool → List Text → Start
main is_root [] = exit 2
main is_root (command ∷ args) =
    if text_eq command (codes "-h") || text_eq command (codes "--help")
    then exit 0
    else if text_eq command (codes "ns")
    then ns (ns_of args)
    else if text_eq command (codes "run")
    then parse_options is_root default_config args
    else exit 2

-- main's exit status for the result of run_container; none stands for a negative one.
unfoldable pub exit_code : Option ℕ → ℕ
exit_code none = 1
exit_code (some status) = status
