-- ===== src/Procmon/Report/Memory.antt =====
-- cmd_mem of procmon/src/main.cpp.
use linux_internals.Procmon.System.Load.{
  Reading, value, nullopt, unspecified, LoadAvg, read_loadavg, read_uptime_seconds,
}
use linux_internals.Procmon.Process.{Files}
use mathlib.Core.Option
use linux_internals.Procmon.Process.Threads.{to_string_signed}
use linux_internals.Prelude.{
  false, Option, none, some, [], ◌∷◌, ◌++◌, ℤ, Text, codes, Double, fixed,
}
use linux_internals.Procmon.Report.Show.{two_values}
use linux_internals.Procmon.Report.{Output, report, failure, all_parts}
use linux_internals.Procmon.Format.{human_kb, human_duration, print_section, print_field}
use linux_internals.Procmon.System.{MemInfo, read_meminfo}

pub kb_field : Text → ℤ → Text
kb_field name kb = print_field name (human_kb kb)

pub system_text : MemInfo → Text
system_text m = all_parts (
    print_section (codes "System memory")
    ∷ kb_field (codes "Total") m.mem_total
    ∷ kb_field (codes "Free") m.mem_free
    ∷ kb_field (codes "Available") m.mem_available
    ∷ [])

pub cache_text : MemInfo → Text
cache_text m = all_parts (
    print_section (codes "Page cache")
    ∷ kb_field (codes "Cached (file contents)") m.cached
    ∷ kb_field (codes "Buffers (block metadata)") m.buffers
    ∷ kb_field (codes "Mapped (mmap'ed)") m.mapped
    ∷ kb_field (codes "Shmem") m.shmem
    ∷ kb_field (codes "Dirty (awaiting writeback)") m.dirty
    ∷ kb_field (codes "Writeback (in flight)") m.writeback
    ∷ [])

pub anonymous_text : MemInfo → Text
anonymous_text m = all_parts (
    print_section (codes "Anonymous memory and swap")
    ∷ kb_field (codes "AnonPages (heap/stack)") m.anon_pages
    ∷ print_field (codes "Swap total / free")
        (two_values (human_kb m.swap_total) (human_kb m.swap_free))
    ∷ kb_field (codes "SwapCached") m.swap_cached
    ∷ [])

pub kernel_text : MemInfo → Text
kernel_text m = all_parts (
    print_section (codes "Kernel")
    ∷ kb_field (codes "Slab") m.slab
    ∷ print_field (codes "Active / Inactive") (two_values (human_kb m.active) (human_kb m.inactive))
    ∷ [])

pub meminfo_text : MemInfo → Text
meminfo_text m = system_text m ++ (cache_text m ++ (anonymous_text m ++ kernel_text m))

-- The buffer holds load averages below 10^16.
pub load_fields : LoadAvg → Text
load_fields la = all_parts (
    print_section (codes "Load")
    ∷ print_field (codes "Load average (1/5/15)") (
        all_parts
          (fixed 2 la.one ∷ codes "  " ∷ fixed 2 la.five ∷ codes "  " ∷ fixed 2 la.fifteen ∷ []))
    ∷ print_field (codes "Runnable / total")
        (two_values (to_string_signed la.runnable) (to_string_signed la.total))
    ∷ [])

pub load_text : Reading LoadAvg → Option Text
load_text (value la) = some (load_fields la)
load_text nullopt = some []
load_text unspecified = none

pub uptime_text : Reading Double → Option Text
uptime_text (value seconds) =
    Option.map (print_field (codes "Uptime"))
      (human_duration (record { minus = false; value = seconds }))
uptime_text nullopt = some []
uptime_text unspecified = none

pub cached_note : Text
cached_note = all_parts (
    codes "\n  Note: \"Cached\" is disk content the kernel keeps in RAM. It does not\n"
    ∷ codes "  count as free, but it is reclaimed under memory pressure - which is why\n"
    ∷ codes "  MemAvailable, not MemFree, is the number that matters.\n"
    ∷ [])

-- The parts that follow meminfo_text, if both are known.
pub with_load : Text → Option Text → Option Text → Option Text
with_load text (some load) (some uptime) = some (text ++ (load ++ (uptime ++ cached_note)))
with_load text (some load) none = none
with_load text none uptime = none

pub cmd_mem : Files → Output
cmd_mem files = elim (read_meminfo files) [
  | none ↦ failure 1 (codes "Cannot read /proc/meminfo.\n")
  | some m ↦ report (
      with_load (meminfo_text m) (load_text (read_loadavg files))
        (uptime_text (read_uptime_seconds files)))
]
