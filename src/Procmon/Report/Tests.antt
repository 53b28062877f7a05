-- ===== src/Procmon/Report/Tests.antt =====
-- The text of cmd_maps for one region, of the kernel's line in cmd_mem, and a thread's row.
use mathlib.Core.Option
use linux_internals.Procmon.System.Load.{fraction, strtod, both, ratio_of}
use linux_internals.Prelude.{
  ◌≡◌, refl, some, [], ◌∷◌, find_byte, to_string, decimal_value, digits, past_spaces, scan_unsigned,
  scan_signed, scan_number, in_range, atoi, pos, negsuc, codes, is_digit, is_space, round_half_even,
  shift_down, shift_up, of_integer, quotient, divide, below, pad_zeros, fixed, scale_units,
}
use linux_internals.Procmon.Report.{thread_row}
use linux_internals.Procmon.Report.Maps.{to_long_long, map_row}
use linux_internals.Procmon.Format.{
  unit_name, show_size, human_bytes, human_duration, plus, seconds_of, cpu_seconds, hex_digit,
  hex_digits, hex_address,
}
use linux_internals.Procmon.Summary.{size, label}
use linux_internals.Procmon.Process.Maps.{MemoryRegion}
use linux_internals.Procmon.Process.Threads.{ThreadInfo, to_string_signed}

abbrev heap_region : MemoryRegion
heap_region = record {
  start = 65536;
  end = 67072;
  perms = codes "rw-p";
  offset = 0;
  dev = codes "00:00";
  inode = 0;
  path = [];
}

region_printed :
    map_row heap_region
    ≡ codes "000000010000"
      ∷ codes "000000010600"
      ∷ codes "rw-p"
      ∷ codes "1.5K"
      ∷ codes "000000000000"
      ∷ codes "[anonymous]"
      ∷ []
unfolding map_row hex_address hex_digits hex_digit pad_zeros human_bytes to_long_long size show_size
    scale_units of_integer shift_down round_half_even fixed below unit_name to_string label
region_printed = refl

abbrev idle_thread : ThreadInfo
idle_thread = record {
  tid = 7;
  comm = codes "idle";
  state = 83;
  utime_ticks = pos 150;
  stime_ticks = negsuc 0;
  last_cpu = pos 1;
  priority = pos 20;
  nice = negsuc 4;
  voluntary_ctxt = negsuc 0;
  nonvoluntary_ctxt = pos 3;
}

thread_printed :
    thread_row 100 idle_thread
    ≡ some (
        codes "7"
        ∷ codes "S"
        ∷ codes "1.49s"
        ∷ codes "1"
        ∷ codes "20"
        ∷ codes "-5"
        ∷ codes "-1"
        ∷ codes "3"
        ∷ codes "idle"
        ∷ [])
unfolding thread_row cpu_seconds plus seconds_of human_duration divide quotient shift_up shift_down
    round_half_even of_integer fixed pad_zeros below to_string to_string_signed
thread_printed = refl

load_read : Option.map (fixed 2) (strtod (codes "12.50")) ≡ some (codes "12.50")
unfolding strtod fraction digits is_digit quotient shift_up shift_down round_half_even fixed
    pad_zeros decimal_value to_string
load_read = refl

ratio_read : ratio_of (codes "1/234") ≡ some (pos 1, pos 234)
unfolding ratio_of find_byte both atoi in_range scan_number scan_signed past_spaces is_space
    scan_unsigned digits is_digit decimal_value
ratio_read = refl
