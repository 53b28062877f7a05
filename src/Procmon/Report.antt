-- ===== src/Procmon/Report.antt =====
-- What the commands of procmon print (procmon/src/main.cpp). The tables and fields are put together as
-- the code does; the clock ticks per second are a parameter.
pub mod Show
pub mod Maps
pub mod Memory
mod Tests
use linux_internals.Procmon.Listing.Sorted.{count}
use linux_internals.Prelude.{
  ℕ, zero, suc, ◌+◌, Option, none, some, List, [], ◌∷◌, ◌++◌, map, to_string, length, Text, codes,
}
use mathlib.Core.Option
use linux_internals.Procmon.Listing.{
  Listing, unknown_option, invalid_key, exception, listed, cmd_list,
}
use linux_internals.Procmon.Format.{human_bytes, human_duration, cpu_seconds}
use linux_internals.Procmon.Table.{Table, table, add_row, right_align, print}
use linux_internals.Procmon.Process.{Files, ProcessInfo}
use linux_internals.Procmon.Process.Threads.{Dirs, sort, ThreadInfo, read_threads, to_string_signed}

-- A command's exit code with what it writes to the standard output and to the standard error; or the
-- program ends by an exception that nobody catches; or what it prints is left open, because C++ does
-- not define it, or because a number of /proc/loadavg or /proc/uptime is no plain decimal.
pub data Output : Type 0 where
  exits : ℕ → Text → Text → Output
  uncaught_exception : Output
  left_open : Output

pub report : Option Text → Output
report none = left_open
report (some text) = exits 0 text []

pub failure : ℕ → Text → Output
failure code message = exits code [] message

-- The parts written to the stream one after another.
pub all_parts : List Text → Text
all_parts [] = []
all_parts (part ∷ parts) = part ++ all_parts parts

-- for (i = from; i < from + count; ++i) table.right_align(i)
pub align_columns : ℕ → ℕ → Table → Table
align_columns zero column t = t
align_columns (suc count) column t = align_columns count (column + 1) (right_align column t)

pub with_rows : List (List Text) → Table → Table
with_rows [] t = t
with_rows (cells ∷ rows) t = with_rows rows (add_row cells t)

-- The rows, if none of them is undefined.
pub all_rows : {A : Type 0} → (A → Option (List Text)) → List A → Option (List (List Text))
all_rows row [] = some []
all_rows row (a ∷ more) =
    let rest = all_rows row more in
    elim (row a) [ none ↦ none | some cells ↦ Option.map (λ rows. cells ∷ rows) rest ]

abbrev pub list_headers : List Text
list_headers =
    codes "PID"
    ∷ codes "PPID"
    ∷ codes "S"
    ∷ codes "THR"
    ∷ codes "RSS"
    ∷ codes "VSZ"
    ∷ codes "CPU"
    ∷ codes "MAJFLT"
    ∷ codes "COMMAND"
    ∷ []

module _ (hz : ℕ) where
  pub list_row : ProcessInfo → Option (List Text)
  list_row p =
      Option.map
        (λ (cpu : Text).
          to_string p.pid
          ∷ to_string_signed p.ppid
          ∷ (p.state ∷ [])
          ∷ to_string_signed p.num_threads
          ∷ human_bytes p.rss_bytes
          ∷ human_bytes p.vsize_bytes
          ∷ cpu
          ∷ to_string_signed p.major_faults
          ∷ p.comm
          ∷ [])
        (human_duration (cpu_seconds hz p.utime_ticks p.stime_ticks))

  pub list_text : List ProcessInfo → ℕ → Text → Option Text
  list_text processes total sort_key =
      Option.map
        (λ rows. all_parts (
          print (with_rows rows (align_columns 8 0 (table list_headers)))
          ∷ codes "\n"
          ∷ to_string total
          ∷ codes " processes, showing "
          ∷ to_string (length processes)
          ∷ codes " (sorted by "
          ∷ sort_key
          ∷ codes ").\n"
          ∷ []))
        (all_rows list_row processes)

  pub list_output : Listing → Output
  list_output (unknown_option arg) = failure 2 (codes "Unknown option: " ++ (arg ++ codes "\n"))
  list_output (invalid_key key) = failure 2 (codes "Invalid sort key: " ++ (key ++ codes "\n"))
  list_output exception = uncaught_exception
  list_output (listed processes total sort_key) = report (list_text processes total sort_key)

  pub list_command : Files → Dirs → ℕ → List Text → Output
  list_command files dirs page_size args = list_output (cmd_list files dirs page_size hz args)

abbrev pub thread_headers : List Text
thread_headers =
    codes "TID"
    ∷ codes "S"
    ∷ codes "CPU"
    ∷ codes "CPU#"
    ∷ codes "PRI"
    ∷ codes "NI"
    ∷ codes "VOL-CTX"
    ∷ codes "INVOL-CTX"
    ∷ codes "NAME"
    ∷ []

module _ (hz : ℕ) where
  pub thread_row : ThreadInfo → Option (List Text)
  thread_row t =
      Option.map
        (λ (cpu : Text).
          to_string t.tid
          ∷ (t.state ∷ [])
          ∷ cpu
          ∷ to_string_signed t.last_cpu
          ∷ to_string_signed t.priority
          ∷ to_string_signed t.nice
          ∷ to_string_signed t.voluntary_ctxt
          ∷ to_string_signed t.nonvoluntary_ctxt
          ∷ t.comm
          ∷ [])
        (human_duration (cpu_seconds hz t.utime_ticks t.stime_ticks))

  pub threads_text : ℕ → List ThreadInfo → Option Text
  threads_text pid threads =
      Option.map
        (λ rows. all_parts (
          print (with_rows rows (align_columns 8 0 (table thread_headers)))
          ∷ codes "\n"
          ∷ to_string (length threads)
          ∷ codes " threads, each under /proc/"
          ∷ to_string pid
          ∷ codes "/task/<tid>.\n"
          ∷ codes "  Names are truncated because the kernel caps comm at 15 characters.\n"
          ∷ []))
        (all_rows thread_row threads)

  pub threads_output : ℕ → List ThreadInfo → Output
  threads_output pid [] =
      failure 1 (codes "Cannot read threads for PID " ++ (to_string pid ++ codes ".\n"))
  threads_output pid (t ∷ threads) = report (threads_text pid (t ∷ threads))

  pub cmd_threads : Files → Dirs → ℕ → Output
  cmd_threads files dirs pid = elim (read_threads files dirs pid) [
    | none ↦ uncaught_exception
    | some threads ↦ threads_output pid threads
  ]
