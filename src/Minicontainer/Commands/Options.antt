-- ===== src/Minicontainer/Commands/Options.antt =====
-- The options of `minicontainer run` written out and read back (minicontainer/src/main.cpp).

use mathlib.Core.List.{append-nil}
use linux_internals.Minicontainer.Size.Grammar.{plain, parse_size_digits}
use linux_internals.Prelude.{
  ℕ, ◌*◌, ◌^◌, ◌≤◌, ◌<◌, ◌≡◌, refl, sym, ap, ◌∙◌, Bool, true, false, not, List, [], ◌∷◌, ◌++◌,
  arith, lt→ltb, le→ltb, to_string, decimal_value-to_string, to_string-AllDigits, length-to_string,
  in_range, stoll, scan_number-to_string, pos, Text, codes, text_eq, after_prefix,
}
use linux_internals.Minicontainer.Size.{int64_max, bytes, checked, parse_size}
use linux_internals.Minicontainer.Config.{ContainerConfig, default_config}
use linux_internals.Minicontainer.Commands.{
  accept, with_rootfs, with_hostname, with_size, with_memory, with_count, with_pids, flag,
  apply_option, run, with_command, parse_options, main,
}

option_accepted :
    (is_root : Bool) (cfg cfg' : ContainerConfig) (arg : Text) (args : List Text)
    → text_eq arg (codes "--") ≡ false
    → apply_option cfg arg ≡ accept cfg'
    → parse_options is_root cfg (arg ∷ args) ≡ parse_options is_root cfg' args
unfolding parse_options
option_accepted is_root cfg cfg' arg args e a = rw (e, a, parse_options)

parse_size-to_string : (n : ℕ) → n ≤ int64_max → parse_size (to_string n) ≡ bytes n
unfolding checked
parse_size-to_string n h =
    ap parse_size (sym (append-nil (to_string n)))
    ∙ (parse_size_digits (to_string n) plain (to_string-AllDigits n) (length-to_string n)
        ∙ rw (decimal_value-to_string n) (in_bounds (n * 1) (omega arith)))
  where
    in_bounds : (v : ℕ) → v ≡ n → checked v ≡ bytes n
    in_bounds v e = rw (e, le→ltb int64_max n h)

module _ (cfg : ContainerConfig) where
  rootfs_option :
      (v : Text) → apply_option cfg (codes "--rootfs=" ++ v) ≡ accept (record cfg { rootfs = v })
  unfolding apply_option after_prefix with_rootfs
  rootfs_option v = refl

  hostname_option :
      (v : Text)
      → apply_option cfg (codes "--hostname=" ++ v) ≡ accept (record cfg { hostname = v })
  unfolding apply_option after_prefix with_hostname
  hostname_option v = refl

  memory_option :
      (n : ℕ)
      → n ≤ int64_max
      → apply_option cfg (codes "--memory=" ++ to_string n)
        ≡ accept (record cfg { memory_limit = pos n })
  unfolding apply_option after_prefix with_memory with_size
  memory_option n h = ap (with_size cfg) (parse_size-to_string n h)

  pids_option :
      (n : ℕ)
      → n < 2 ^ 63
      → apply_option cfg (codes "--pids=" ++ to_string n)
        ≡ accept (record cfg { pids_limit = pos n })
  unfolding apply_option after_prefix with_pids with_count stoll in_range
  pids_option n h = rw (scan_number-to_string n, lt→ltb n (2 ^ 63) h)

  share_option :
      apply_option cfg (codes "--share-net") ≡ accept (record cfg { isolate_network = false })
  unfolding apply_option after_prefix flag text_eq
  share_option = refl

share_args : Bool → List Text
share_args true = codes "--share-net" ∷ []
share_args false = []

-- The arguments of main for a configuration: every option, then the command.
pub arguments : Text → Text → ℕ → ℕ → Bool → List Text → List Text
arguments rootfs hostname memory pids share command =
    codes "run"
    ∷ (codes "--rootfs=" ++ rootfs)
    ∷ (codes "--hostname=" ++ hostname)
    ∷ (codes "--memory=" ++ to_string memory)
    ∷ (codes "--pids=" ++ to_string pids)
    ∷ (share_args share ++ (codes "--" ∷ command))

end_of_options :
    (cfg : ContainerConfig) (command : List Text)
    → parse_options true cfg (codes "--" ∷ command) ≡ with_command true cfg command
unfolding parse_options text_eq
end_of_options cfg command = refl

share_no_end : text_eq (codes "--share-net") (codes "--") ≡ false
unfolding text_eq
share_no_end = refl

parse_share :
    (cfg : ContainerConfig) (share : Bool) (command : List Text)
    → parse_options true
        (record cfg { isolate_network = true })
        (share_args share ++ (codes "--" ∷ command))
      ≡ with_command true (record cfg { isolate_network = not share }) command
unfolding share_args
parse_share cfg true command =
    option_accepted true (record cfg { isolate_network = true })
      (record cfg { isolate_network = false }) (codes "--share-net") (codes "--" ∷ command)
      share_no_end (share_option (record cfg { isolate_network = true }))
    ∙ end_of_options (record cfg { isolate_network = false }) command
parse_share cfg false command = end_of_options (record cfg { isolate_network = true }) command

-- As root, main runs the configuration whose options and command it is given, for limits that fit a
-- long long and a command that is not empty.
pub main-arguments :
    (rootfs hostname : Text) (memory pids : ℕ) (share : Bool) (c : Text) (command : List Text)
    → memory ≤ int64_max
    → pids < 2 ^ 63
    → main true (arguments rootfs hostname memory pids share (c ∷ command))
      ≡ run (record {
        rootfs = rootfs;
        hostname = hostname;
        memory_limit = pos memory;
        pids_limit = pos pids;
        isolate_network = not share;
        command = c ∷ command;
      })
unfolding main arguments text_eq
main-arguments rootfs hostname memory pids share c command hm hp =
    let cfg0 = default_config in
    let cfg1 = record cfg0 { rootfs = rootfs } in
    let cfg2 = record cfg1 { hostname = hostname } in
    let cfg3 = record cfg2 { memory_limit = pos memory } in
    let cfg4 = record cfg3 { pids_limit = pos pids } in
    option_accepted true cfg0 cfg1 (codes "--rootfs=" ++ rootfs) _ refl (rootfs_option cfg0 rootfs)
    ∙ (option_accepted true cfg1 cfg2 (codes "--hostname=" ++ hostname) _ refl
          (hostname_option cfg1 hostname)
        ∙ (option_accepted true cfg2 cfg3 (codes "--memory=" ++ to_string memory) _ refl
              (memory_option cfg2 memory hm)
            ∙ (option_accepted true cfg3 cfg4 (codes "--pids=" ++ to_string pids) _ refl
                  (pids_option cfg3 pids hp)
                ∙ (parse_share cfg4 share (c ∷ command) ∙ unfold with_command in refl))))
