-- ===== src/Procmon/Process.antt =====
-- procmon/src/process.cpp: a process, its memory regions and its threads, from /proc. A file's
-- contents come from `Files`, which gives what its reads return.
pub mod Stat
pub mod Maps
pub mod Regions
pub mod Threads
pub mod Pids
use linux_internals.Prelude.{
  ℕ, ◌+◌, ◌-◌, ◌*◌, ◌%◌, ◌^◌, Option, none, some, List, [], ◌∷◌, ◌++◌, map, ltb, ◌==◌,
  if◌then◌else◌, find_byte, rfind_byte, to_string, get_elem?, take, drop, ℤ, pos, negsuc, negative,
  Text, codes,
}
use linux_internals.Procmon.Util.{
  Stream, read_file, View, view, text_of, split_ws, trim, lookup, parse_kv, to_ll,
}
use mathlib.Core.Option

abbrev pub Files : Type 0
Files = Text → Stream

pub record StatFields : Type 0 where
  pub comm : Text
  pub buffer : Text
  pub after_comm : List View

-- substr(from, until - from).
unfoldable pub between : ℕ → ℕ → Text → Text
between from until s = take (until - from) (drop from s)

-- What parse_stat makes of the content once it has looked for the parentheses.
unfoldable pub stat_between : Text → Option ℕ → Option ℕ → Option StatFields
stat_between content none close_paren = none
stat_between content (some open_paren) none = none
stat_between content (some open_paren) (some close_paren) =
    let buffer = drop (close_paren + 1) content in
    if ltb close_paren open_paren
    then none
    else some (record {
      comm = between (open_paren + 1) close_paren content;
      buffer = buffer;
      after_comm = split_ws buffer;
    })

unfoldable pub parse_content : Text → Option StatFields
parse_content content = stat_between content (find_byte 40 content) (rfind_byte 41 content)

unfoldable pub parse_stat : Stream → Option StatFields
parse_stat path = elim (read_file path) [ none ↦ none | some content ↦ parse_content content ]

-- std::optional's value_or.
unfoldable pub value_or : ℤ → Option ℤ → ℤ
value_or d none = d
value_or d (some n) = n

-- Fields are numbered from 1, and the first one after comm is 3; a size_t below 3 wraps around.
unfoldable pub stat_field : StatFields → ℕ → ℤ
stat_field f one_based_index =
    elim (get_elem? f.after_comm ((one_based_index + 2 ^ 64 - 3) % 2 ^ 64)) [
      | none ↦ pos 0
      | some v ↦ value_or (pos 0) (to_ll (text_of v))
    ]

unfoldable pub kv_number : List (Text × Text) → Text → ℤ
kv_number kv key = elim (lookup key kv) [ none ↦ negsuc 0 | some v ↦ value_or (negsuc 0) (to_ll v) ]

-- static_cast<int>: the low 32 bits, with the sign.
unfoldable pub of_low_bits : ℕ → ℤ
of_low_bits m = if ltb m (2 ^ 31) then pos m else negsuc (2 ^ 32 - 1 - m)

unfoldable pub to_int : ℤ → ℤ
to_int (pos n) = of_low_bits (n % 2 ^ 32)
to_int (negsuc n) = of_low_bits (2 ^ 32 - 1 - n % 2 ^ 32)

-- Times the page size; the product is within a long long for what the kernel reports.
unfoldable pub times : ℤ → ℕ → ℤ
times (pos n) k = pos (n * k)
times (negsuc n) k = negative ((n + 1) * k)

pub record ProcessInfo : Type 0 where
  pub pid : ℕ
  pub ppid : ℤ
  pub comm : Text
  pub cmdline : Text
  pub state : ℕ
  pub num_threads : ℤ
  pub vsize_bytes : ℤ
  pub rss_bytes : ℤ
  pub utime_ticks : ℤ
  pub stime_ticks : ℤ
  pub start_time_ticks : ℤ
  pub priority : ℤ
  pub nice : ℤ
  pub policy : ℤ
  pub last_cpu : ℤ
  pub minor_faults : ℤ
  pub major_faults : ℤ
  pub rss_anon_kb : ℤ
  pub rss_file_kb : ℤ
  pub rss_shmem_kb : ℤ
  pub vm_data_kb : ℤ
  pub vm_stk_kb : ℤ
  pub vm_exe_kb : ℤ
  pub vm_lib_kb : ℤ
  pub vm_swap_kb : ℤ
  pub vm_hwm_kb : ℤ
  pub voluntary_ctxt : ℤ
  pub nonvoluntary_ctxt : ℤ

-- The first byte of the state field; '?' is what a ProcessInfo starts with.
unfoldable pub first_state : List View → ℕ
first_state [] = 63
first_state (view at [] ∷ vs) = 63
first_state (view at (c ∷ s) ∷ vs) = c

-- std::replace of '\0' by ' '.
unfoldable pub zero_to_space : Text → Text
zero_to_space [] = []
zero_to_space (c ∷ s) = (if c == 0 then 32 else c) ∷ zero_to_space s

-- Of /proc/<pid>/cmdline; a ProcessInfo starts with an empty one.
unfoldable pub cmdline_of : Stream → Text
cmdline_of path = elim (read_file path) [
  | none ↦ []
  | some [] ↦ []
  | some (c ∷ s) ↦ trim (zero_to_space (c ∷ s))
]

unfoldable pub process_of : ℕ → ℕ → StatFields → List (Text × Text) → Text → ProcessInfo
process_of page_size pid fields status cmdline = record {
  pid = pid;
  ppid = to_int (stat_field fields 4);
  comm = fields.comm;
  cmdline = cmdline;
  state = first_state fields.after_comm;
  num_threads = stat_field fields 20;
  vsize_bytes = stat_field fields 23;
  rss_bytes = times (stat_field fields 24) page_size;
  utime_ticks = stat_field fields 14;
  stime_ticks = stat_field fields 15;
  start_time_ticks = stat_field fields 22;
  priority = stat_field fields 18;
  nice = stat_field fields 19;
  policy = stat_field fields 41;
  last_cpu = to_int (stat_field fields 39);
  minor_faults = stat_field fields 10;
  major_faults = stat_field fields 12;
  rss_anon_kb = kv_number status (codes "RssAnon");
  rss_file_kb = kv_number status (codes "RssFile");
  rss_shmem_kb = kv_number status (codes "RssShmem");
  vm_data_kb = kv_number status (codes "VmData");
  vm_stk_kb = kv_number status (codes "VmStk");
  vm_exe_kb = kv_number status (codes "VmExe");
  vm_lib_kb = kv_number status (codes "VmLib");
  vm_swap_kb = kv_number status (codes "VmSwap");
  vm_hwm_kb = kv_number status (codes "VmHWM");
  voluntary_ctxt = kv_number status (codes "voluntary_ctxt_switches");
  nonvoluntary_ctxt = kv_number status (codes "nonvoluntary_ctxt_switches");
}

unfoldable pub base_of : ℕ → Text
base_of pid = codes "/proc/" ++ to_string pid

unfoldable pub read_process : Files → ℕ → ℕ → Option ProcessInfo
read_process files page_size pid =
    Option.map
      (λ fields.
        process_of page_size pid fields (parse_kv (files (base_of pid ++ codes "/status")))
          (cmdline_of (files (base_of pid ++ codes "/cmdline"))))
      (parse_stat (files (base_of pid ++ codes "/stat")))
