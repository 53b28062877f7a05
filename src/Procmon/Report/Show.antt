-- ===== src/Procmon/Report/Show.antt =====
-- cmd_show of procmon/src/main.cpp.
use linux_internals.Prelude.{
  ℕ, Option, none, some, List, [], ◌∷◌, ◌++◌, to_string, length, ℤ, pos, negsuc, Text, codes,
}
use linux_internals.Procmon.Report.{Output, report, failure, all_parts}
use linux_internals.Procmon.Report.Maps.{to_long_long}
use linux_internals.Procmon.Summary.{Summary, summarise}
use linux_internals.Procmon.Format.{
  human_bytes, human_kb, human_duration, seconds_of, print_section, print_field,
}
use linux_internals.Procmon.Process.{Files, ProcessInfo, read_process}
use linux_internals.Procmon.Process.Maps.{MemoryRegion, regions, read_maps}
use linux_internals.Procmon.Process.Threads.{state_name, to_string_signed, policy_name}
use mathlib.Core.Option

-- What is printed only if the number is not negative.
pub if_known : ℤ → Text → Text
if_known (pos n) text = text
if_known (negsuc n) text = []

pub two_values : Text → Text → Text
two_values a b = a ++ (codes " / " ++ b)

pub cmdline_field : Text → Text
cmdline_field [] = []
cmdline_field (c ∷ s) = print_field (codes "Cmdline") (c ∷ s)

pub identity_text : ProcessInfo → Text
identity_text p = all_parts (
    print_section (codes "Identity")
    ∷ print_field (codes "PID / PPID") (two_values (to_string p.pid) (to_string_signed p.ppid))
    ∷ print_field (codes "Command (comm)") p.comm
    ∷ cmdline_field p.cmdline
    ∷ print_field (codes "State") (p.state ∷ codes " - " ++ codes (state_name p.state))
    ∷ [])

pub switches_fields : ProcessInfo → Text
switches_fields p =
    print_field (codes "Ctx switches (voluntary)") (to_string_signed p.voluntary_ctxt)
    ++ print_field (codes "Ctx switches (involuntary)") (to_string_signed p.nonvoluntary_ctxt)

-- The first two arguments are the user and the kernel time.
pub scheduling_text : Text → Text → ProcessInfo → Text
scheduling_text user kernel p = all_parts (
    print_section (codes "Scheduling")
    ∷ print_field (codes "Policy") (policy_name p.policy)
    ∷ print_field (codes "Priority / nice")
        (two_values (to_string_signed p.priority) (to_string_signed p.nice))
    ∷ print_field (codes "Last CPU") (to_string_signed p.last_cpu)
    ∷ print_field (codes "Threads") (to_string_signed p.num_threads)
    ∷ print_field (codes "CPU time (user)") user
    ∷ print_field (codes "CPU time (kernel)") kernel
    ∷ if_known p.voluntary_ctxt (switches_fields p)
    ∷ [])

pub anon_fields : ProcessInfo → Text
anon_fields p =
    print_field (codes "  anon (heap/stack)") (human_kb p.rss_anon_kb)
    ++ (print_field (codes "  file (mapped files)") (human_kb p.rss_file_kb)
        ++ print_field (codes "  shmem") (human_kb p.rss_shmem_kb))

pub data_fields : ProcessInfo → Text
data_fields p =
    print_field (codes "VmData / VmStk") (two_values (human_kb p.vm_data_kb) (human_kb p.vm_stk_kb))
    ++ print_field (codes "VmExe / VmLib")
        (two_values (human_kb p.vm_exe_kb) (human_kb p.vm_lib_kb))

pub memory_text : ProcessInfo → Text
memory_text p = all_parts (
    print_section (codes "Memory")
    ∷ print_field (codes "VSZ (virtual)") (human_bytes p.vsize_bytes)
    ∷ print_field (codes "RSS (resident)") (human_bytes p.rss_bytes)
    ∷ if_known p.vm_hwm_kb (print_field (codes "Peak RSS (VmHWM)") (human_kb p.vm_hwm_kb))
    ∷ if_known p.rss_anon_kb (anon_fields p)
    ∷ if_known p.vm_data_kb (data_fields p)
    ∷ if_known p.vm_swap_kb (print_field (codes "Swap") (human_kb p.vm_swap_kb))
    ∷ [])

pub faults_text : ProcessInfo → Text
faults_text p =
    print_section (codes "Page faults")
    ++ (print_field (codes "Minor (served from RAM)") (to_string_signed p.minor_faults)
        ++ print_field (codes "Major (needed disk I/O)") (to_string_signed p.major_faults))

abbrev pub no_summary : Summary
no_summary = record { anon = 0; file_backed = 0; exec = 0 }

pub summary_text : ℕ → ℕ → Summary → Text
summary_text pid count s = all_parts (
    print_section (codes "Address space summary")
    ∷ print_field (codes "Regions") (to_string count)
    ∷ print_field (codes "Anonymous + special") (human_bytes (to_long_long s.anon))
    ∷ print_field (codes "File-backed") (human_bytes (to_long_long s.file_backed))
    ∷ print_field (codes "Executable") (human_bytes (to_long_long s.exec))
    ∷ codes "\n  For detail: procmon maps "
    ∷ to_string pid
    ∷ codes "\n"
    ∷ [])

pub regions_text : ℕ → List MemoryRegion → Text
regions_text pid [] = []
regions_text pid (r ∷ regions) =
    summary_text pid (length (r ∷ regions)) (summarise (r ∷ regions) no_summary)

module _ (hz pid : ℕ) where
  pub with_times : ProcessInfo → List MemoryRegion → Text → Text → Text
  with_times p regions user kernel = all_parts (
      identity_text p
      ∷ scheduling_text user kernel p
      ∷ memory_text p
      ∷ faults_text p
      ∷ regions_text pid regions
      ∷ [])

  pub show_text : ProcessInfo → List MemoryRegion → Option Text
  show_text p regions =
      let kernel = human_duration (seconds_of hz p.stime_ticks) in
      elim (human_duration (seconds_of hz p.utime_ticks)) [
        | none ↦ none
        | some user ↦ Option.map (with_times p regions user) kernel
      ]

  pub cmd_show : Files → ℕ → Output
  cmd_show files page_size = elim (read_process files page_size pid) [
    | none ↦ failure 1 (
        codes "Cannot read PID "
        ++ (to_string pid ++ codes " (gone, or insufficient permissions).\n"))
    | some p ↦ report (show_text p (read_maps files pid))
  ]
