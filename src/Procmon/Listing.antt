-- ===== src/Procmon/Listing.antt =====
-- cmd_list (procmon/src/main.cpp): its options, the processes that it reads and those that it shows.
-- Report has the text of the rows.
-- std::sort leaves the order of equal elements open; here it is an insertion sort.
pub mod Sorted
pub mod Orders
pub mod Top
mod Tests
use linux_internals.Procmon.Format.{cpu_seconds, less}
use linux_internals.Procmon.Process.Threads.{Dirs, list_pids}
use linux_internals.Procmon.Process.{Files, ProcessInfo, read_process}
use linux_internals.Prelude.{
  ℕ, Bool, true, false, Option, none, some, List, [], ◌∷◌, ltb, if◌then◌else◌, stoul, length, take,
  ℤ, pos, negsuc, Text, codes, text_eq, after_prefix,
}

abbrev pub Before : Type 0
Before = ProcessInfo → ProcessInfo → Bool

pub record ListOptions : Type 0 where
  pub sort_key : Text
  pub limit : ℕ

pub data Parsed : Type 0 where
  options : ListOptions → Parsed
  unknown : Text → Parsed
  thrown : Parsed

-- What cmd_list ends with: exit code 2 with the option or the key that it did not know, an exception, or
-- exit code 0 with the processes in the table, the number read and the key.
pub data Listing : Type 0 where
  unknown_option : Text → Listing
  invalid_key : Text → Listing
  exception : Listing
  listed : List ProcessInfo → ℕ → Text → Listing

abbrev pub default_options : ListOptions
default_options = record { sort_key = codes "rss"; limit = 20 }

unfoldable pub with_limit : ListOptions → Option ℕ → Parsed
with_limit o none = thrown
with_limit o (some n) = options (record o { limit = n })

unfoldable pub limit_option : ListOptions → Text → Option Text → Parsed
limit_option o arg none = unknown arg
limit_option o arg (some value) = with_limit o (stoul value)

unfoldable pub sort_option : ListOptions → Text → Option Text → Parsed
sort_option o arg none = limit_option o arg (after_prefix (codes "--limit=") arg)
sort_option o arg (some value) = options (record o { sort_key = value })

unfoldable pub list_option : ListOptions → Text → Parsed
list_option o arg = sort_option o arg (after_prefix (codes "--sort=") arg)

unfoldable pub parse_list : ListOptions → List Text → Parsed
parse_list o [] = options o
parse_list o (arg ∷ args) = elim (list_option o arg) [
  | options o' ↦ parse_list o' args
  | unknown text ↦ unknown text
  | thrown ↦ thrown
]

-- The processes that can be read.
unfoldable pub collect : Files → ℕ → List ℕ → List ProcessInfo
collect files page_size [] = []
collect files page_size (pid ∷ pids) =
    let rest = collect files page_size pids in
    elim (read_process files page_size pid) [ none ↦ rest | some info ↦ info ∷ rest ]

unfoldable pub ltz : ℤ → ℤ → Bool
ltz (pos a) (pos b) = ltb a b
ltz (pos a) (negsuc b) = false
ltz (negsuc a) (pos b) = true
ltz (negsuc a) (negsuc b) = ltb b a

-- The comparison for the key "cpu"; hz is clock_ticks_per_sec().
unfoldable pub more_cpu : ℕ → Before
more_cpu hz a b =
    less (cpu_seconds hz b.utime_ticks b.stime_ticks) (cpu_seconds hz a.utime_ticks a.stime_ticks)

-- The comparison for a key; none is a key that cmd_list does not know.
unfoldable pub comparison : ℕ → Text → Option Before
comparison hz key =
    if text_eq key (codes "rss")
    then some (λ a b. ltz b.rss_bytes a.rss_bytes)
    else if text_eq key (codes "cpu")
    then some (more_cpu hz)
    else if text_eq key (codes "threads")
    then some (λ a b. ltz b.num_threads a.num_threads)
    else if text_eq key (codes "pid")
    then some (λ a b. ltb a.pid b.pid)
    else none

unfoldable pub insert_before : Before → ProcessInfo → List ProcessInfo → List ProcessInfo
insert_before before p [] = p ∷ []
insert_before before p (q ∷ qs) =
    let rest = insert_before before p qs in if before q p then q ∷ rest else p ∷ q ∷ qs

unfoldable pub sort_by : Before → List ProcessInfo → List ProcessInfo
sort_by before [] = []
sort_by before (p ∷ ps) = insert_before before p (sort_by before ps)

unfoldable pub show_sorted : ListOptions → List ProcessInfo → Option Before → Listing
show_sorted o processes none = invalid_key o.sort_key
show_sorted o processes (some before) =
    listed (take o.limit (sort_by before processes)) (length processes) o.sort_key

module _ (files : Files) (dirs : Dirs) (page_size hz : ℕ) where
  unfoldable pub scan : ListOptions → Option (List ℕ) → Listing
  scan o none = exception
  scan o (some pids) = show_sorted o (collect files page_size pids) (comparison hz o.sort_key)

  unfoldable pub cmd_list : List Text → Listing
  cmd_list args = elim (parse_list default_options args) [
    | unknown text ↦ unknown_option text
    | thrown ↦ exception
    | options o ↦ scan o (list_pids dirs)
  ]
