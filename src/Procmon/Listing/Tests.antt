-- ===== src/Procmon/Listing/Tests.antt =====
-- cmd_list over two processes.

use linux_internals.Procmon.Listing.Orders.{pid_key}
use linux_internals.Procmon.Util.{all_digits, is_number}
use linux_internals.Procmon.Listing.Top.{Shows, cmd_list-Shows}
use linux_internals.Procmon.Listing.{
  ListOptions, with_limit, limit_option, sort_option, list_option, parse_list, collect, cmd_list,
}
use linux_internals.Procmon.Process.Threads.{Dirs, stoi_digits, insert, sort, pids_of, list_pids}
use linux_internals.Procmon.Process.{Files}
use linux_internals.Prelude.{
  refl, some, List, [], ◌∷◌, decimal_value, digits, past_spaces, scan_unsigned, scan_signed,
  scan_number, modulo, stoul, Text, codes, text_eq, after_prefix, is_digit, is_space,
}

abbrev one_stat : Files
one_stat path = some (some (codes "7 (a)b) S 1\n") ∷ [])

abbrev two_dirs : Dirs
two_dirs path = codes "10" ∷ codes "self" ∷ codes "2" ∷ []

abbrev pid_options : ListOptions
pid_options = record { sort_key = codes "pid"; limit = 1 }

abbrev pid_args : List Text
pid_args = codes "--sort=pid" ∷ codes "--limit=1" ∷ []

cmd_list-Shows_example :
    Shows 100 pid_options
      (collect one_stat 4096 (2 ∷ 10 ∷ []))
      (cmd_list one_stat two_dirs 4096 100 pid_args)
unfolding parse_list list_option sort_option after_prefix limit_option with_limit stoul modulo
    scan_number scan_signed past_spaces is_space scan_unsigned digits is_digit decimal_value
    list_pids insert pids_of sort stoi_digits all_digits is_number text_eq
cmd_list-Shows_example =
    cmd_list-Shows one_stat two_dirs 4096 100 pid_args pid_options (2 ∷ 10 ∷ []) refl refl pid_key
