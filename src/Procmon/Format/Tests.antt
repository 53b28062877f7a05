-- ===== src/Procmon/Format/Tests.antt =====
-- Tests of the texts of procmon/src/format.cpp.
use linux_internals.Procmon.Process.Maps.{strtoull}
use linux_internals.Procmon.Format.Addresses.{strtoull-hex_address}
use linux_internals.Procmon.Format.Rounding.{Printed, human_bytes-Printed}
use linux_internals.Prelude.{
  ◌-◌, ◌^◌, ◌≡◌, refl, some, arith, to_string, pos, codes, round_half_even, shift_down, shift_up,
  of_integer, quotient, divide, below, truncate, pad_zeros, fixed, scale_units,
}
use linux_internals.Procmon.Format.{
  unit_name, show_size, human_bytes, two_digits, human_duration, seconds_of, hex_digit, hex_digits,
  hex_address,
}

size_printed : human_bytes (pos 1536) ≡ codes "1.5K"
unfolding human_bytes show_size scale_units of_integer shift_down round_half_even fixed pad_zeros
    below unit_name to_string
size_printed = refl

almost_a_mega_printed : human_bytes (pos 1048575) ≡ codes "1024.0K"
unfolding human_bytes show_size scale_units of_integer shift_down round_half_even fixed pad_zeros
    below unit_name to_string
almost_a_mega_printed = refl

all_ones_printed : human_bytes (pos (2 ^ 63 - 1)) ≡ codes "8388608.0T"
unfolding human_bytes show_size scale_units of_integer shift_down round_half_even fixed pad_zeros
    below unit_name to_string
all_ones_printed = refl

third_printed : human_duration (seconds_of 100 (pos 1234)) ≡ some (codes "12.34s")
unfolding human_duration seconds_of divide quotient shift_up shift_down round_half_even of_integer
    fixed pad_zeros below truncate two_digits to_string
third_printed = refl

hour_printed : human_duration (seconds_of 100 (pos 372599)) ≡ some (codes "1h02m")
unfolding human_duration seconds_of divide quotient shift_up shift_down round_half_even of_integer
    fixed pad_zeros below truncate two_digits to_string
hour_printed = refl

minute_printed : human_duration (seconds_of 100 (pos 6199)) ≡ some (codes "1m01s")
unfolding human_duration seconds_of divide quotient shift_up shift_down round_half_even of_integer
    fixed pad_zeros below truncate two_digits to_string
minute_printed = refl

address_printed : hex_address 3735928559 ≡ codes "0000deadbeef"
unfolding hex_address pad_zeros hex_digits hex_digit
address_printed = refl

human_bytes-Printed_example : Printed 1048575 (human_bytes (pos 1048575))
human_bytes-Printed_example = human_bytes-Printed 1048575 (omega arith)

strtoull-hex_address_example : strtoull (hex_address 3735928559) 16 ≡ 3735928559
strtoull-hex_address_example = strtoull-hex_address 3735928559 (omega arith)
