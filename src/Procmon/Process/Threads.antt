-- ===== src/Procmon/Process/Threads.antt =====
-- list_pids, read_threads and the names of states and policies (procmon/src/process.cpp). The
-- entries of a directory come in any order, from `Dirs`.
use mathlib.Core.Option
use linux_internals.Prelude.{
  ℕ, ◌+◌, ◌^◌, String, Option, none, some, List, [], ◌∷◌, ◌++◌, ltb, leb, ◌==◌, if◌then◌else◌,
  to_string, decimal_value, ℤ, pos, negsuc, Text, codes,
}
use linux_internals.Procmon.Util.{parse_kv, is_number}
use linux_internals.Procmon.Process.{
  Files, StatFields, parse_stat, stat_field, kv_number, to_int, first_state, base_of,
}

abbrev pub Dirs : Type 0
Dirs = Text → List Text

-- std::stoi on a text of digits; none is the out_of_range that it throws.
unfoldable pub stoi_digits : Text → Option ℕ
stoi_digits name = let n = decimal_value 0 name in if ltb n (2 ^ 31) then some n else none

-- std::sort, by a key.
module _ {A : Type 0} (key : A → ℕ) where
  unfoldable pub insert : A → List A → List A
  insert a [] = a ∷ []
  insert a (b ∷ bs) = let rest = insert a bs in if leb (key a) (key b) then a ∷ b ∷ bs else b ∷ rest

  unfoldable pub sort : List A → List A
  sort [] = []
  sort (a ∷ more) = insert a (sort more)

-- The loop of list_pids over the names under /proc; none is an exception.
unfoldable pub pids_of : List Text → Option (List ℕ)
pids_of [] = some []
pids_of (name ∷ names) =
    let rest = pids_of names in
    if is_number name
    then elim (stoi_digits name) [ none ↦ none | some pid ↦ Option.map (λ ps. pid ∷ ps) rest ]
    else rest

unfoldable pub list_pids : Dirs → Option (List ℕ)
list_pids dirs = Option.map (sort (λ p. p)) (pids_of (dirs (codes "/proc")))

pub record ThreadInfo : Type 0 where
  pub tid : ℕ
  pub comm : Text
  pub state : ℕ
  pub utime_ticks : ℤ
  pub stime_ticks : ℤ
  pub last_cpu : ℤ
  pub priority : ℤ
  pub nice : ℤ
  pub voluntary_ctxt : ℤ
  pub nonvoluntary_ctxt : ℤ

unfoldable pub thread_of : ℕ → StatFields → List (Text × Text) → ThreadInfo
thread_of tid fields status = record {
  tid = tid;
  comm = fields.comm;
  state = first_state fields.after_comm;
  utime_ticks = stat_field fields 14;
  stime_ticks = stat_field fields 15;
  last_cpu = to_int (stat_field fields 39);
  priority = stat_field fields 18;
  nice = stat_field fields 19;
  voluntary_ctxt = kv_number status (codes "voluntary_ctxt_switches");
  nonvoluntary_ctxt = kv_number status (codes "nonvoluntary_ctxt_switches");
}

-- The loop of read_threads over the names under /proc/<pid>/task; none is an exception.
unfoldable pub threads_of : Files → Text → List Text → Option (List ThreadInfo)
threads_of files task_dir [] = some []
threads_of files task_dir (name ∷ names) =
    let rest = threads_of files task_dir names in
    let path = task_dir ++ codes "/" ++ name in
    if is_number name
    then elim (parse_stat (files (path ++ codes "/stat"))) [
      | none ↦ rest
      | some fields ↦ elim (stoi_digits name) [
        | none ↦ none
        | some tid ↦
            Option.map
              (λ ts. thread_of tid fields (parse_kv (files (path ++ codes "/status"))) ∷ ts) rest
      ]
    ]
    else rest

unfoldable pub read_threads : Files → Dirs → ℕ → Option (List ThreadInfo)
read_threads files dirs pid =
    let task_dir = base_of pid ++ codes "/task" in
    Option.map (sort (λ t. t.tid)) (threads_of files task_dir (dirs task_dir))

pub state_name : ℕ → String
state_name state =
    if state == 82
    then "Running (on CPU or runnable)"
    else if state == 83
    then "Sleeping (interruptible)"
    else if state == 68
    then "Disk sleep (uninterruptible, usually I/O)"
    else if state == 90
    then "Zombie (exited, not yet reaped)"
    else if state == 84
    then "Stopped (SIGSTOP)"
    else if state == 116
    then "Tracing stop (debugger)"
    else if state == 88
    then "Dead"
    else if state == 73
    then "Idle (idle kernel thread)"
    else "Unknown"

-- std::to_string of a signed number.
unfoldable pub to_string_signed : ℤ → Text
to_string_signed (pos n) = to_string n
to_string_signed (negsuc n) = 45 ∷ to_string (n + 1)

pub unknown_policy : ℤ → Text
unknown_policy policy = codes "Unknown(" ++ to_string_signed policy ++ codes ")"

pub policy_name : ℤ → Text
policy_name (negsuc n) = unknown_policy (negsuc n)
policy_name (pos n) =
    if n == 0
    then codes "SCHED_OTHER (CFS)"
    else if n == 1
    then codes "SCHED_FIFO (real-time)"
    else if n == 2
    then codes "SCHED_RR (real-time)"
    else if n == 3
    then codes "SCHED_BATCH"
    else if n == 5
    then codes "SCHED_IDLE"
    else if n == 6
    then codes "SCHED_DEADLINE"
    else unknown_policy (pos n)
