-- ===== src/Procmon/Format.antt =====
-- The texts of procmon/src/format.cpp, and cpu_seconds of procmon/src/process.cpp: sizes, durations,
-- addresses, and the lines that print_section and print_field write.
pub mod Rounding
pub mod Addresses
mod Tests
use linux_internals.Prelude.{
  ℕ, zero, suc, ◌+◌, ◌-◌, ◌*◌, ◌/◌, ◌%◌, ◌^◌, Bool, true, false, Option, none, some, [], ◌∷◌, ◌++◌,
  reverse, ltb, ◌==◌, if◌then◌else◌, to_string, length, replicate, ℤ, pos, negsuc, Text, codes,
  Double, of_integer, divide, below, truncate, pad_zeros, fixed, scale_units,
}
use linux_internals.Procmon.Process.{times}

unfoldable pub unit_name : ℕ → Text
unit_name n =
    if n == 0
    then codes "B"
    else if n == 1
    then codes "K"
    else if n == 2
    then codes "M"
    else if n == 3
    then codes "G"
    else codes "T"

unfoldable pub show_size : ℕ → Double × ℕ → Text
show_size bytes (value, unit) =
    (if unit == 0 then to_string bytes else fixed 1 value) ++ unit_name unit

unfoldable pub human_bytes : ℤ → Text
human_bytes (negsuc n) = codes "-"
human_bytes (pos n) = show_size n (scale_units 4 (of_integer n) 0)

-- The product is within a long long for sizes below 2^63.
unfoldable pub human_kb : ℤ → Text
human_kb (negsuc n) = codes "-"
human_kb (pos n) = human_bytes (times (pos n) 1024)

-- A number of seconds: its sign and its magnitude.
pub record Seconds : Type 0 where
  pub minus : Bool
  pub value : Double

-- "%02d" of a number that is not negative.
unfoldable pub two_digits : ℕ → Text
two_digits n = pad_zeros 2 (to_string n)

-- The cast to int of 2^31 seconds or more is undefined, which is none.
unfoldable pub human_duration : Seconds → Option Text
human_duration s =
    let total = truncate s.value in
    if s.minus
    then some (codes "-" ++ (fixed 2 s.value ++ codes "s"))
    else if below s.value 60
    then some (fixed 2 s.value ++ codes "s")
    else if below s.value 3600
    then some (to_string (total / 60) ++ (codes "m" ++ (two_digits (total % 60) ++ codes "s")))
    else if ltb total (2 ^ 31)
    then some
        (to_string (total / 3600) ++ (codes "h" ++ (two_digits (total % 3600 / 60) ++ codes "m")))
    else none

-- The sum of two counts of ticks.
unfoldable pub plus : ℤ → ℤ → ℤ
plus (pos a) (pos b) = pos (a + b)
plus (pos a) (negsuc b) = if ltb b a then pos (a - (b + 1)) else negsuc (b - a)
plus (negsuc a) (pos b) = if ltb a b then pos (b - (a + 1)) else negsuc (a - b)
plus (negsuc a) (negsuc b) = negsuc (a + b + 1)

-- static_cast<double>(ticks) / hz, where hz is clock_ticks_per_sec(), a positive number.
unfoldable pub seconds_of : ℕ → ℤ → Seconds
seconds_of hz (pos n) = record { minus = false; value = divide (of_integer n) (of_integer hz) }
seconds_of hz (negsuc n) = record {
  minus = true;
  value = divide (of_integer (n + 1)) (of_integer hz);
}

-- cpu_seconds of a process or a thread, by its two counts.
unfoldable pub cpu_seconds : ℕ → ℤ → ℤ → Seconds
cpu_seconds hz utime stime = seconds_of hz (plus utime stime)

-- a < b; neither is a negative zero.
unfoldable pub less : Seconds → Seconds → Bool
less a b =
    let magnitude = ltb (a.value.num * b.value.den) (b.value.num * a.value.den) in
    let reverse = ltb (b.value.num * a.value.den) (a.value.num * b.value.den) in
    if a.minus then if b.minus then reverse else true else if b.minus then false else magnitude

unfoldable pub hex_digit : ℕ → ℕ
hex_digit d = if ltb d 10 then 48 + d else 87 + d

-- The digits of `n` in front of `tail`, with `f` rounds of division.
unfoldable pub hex_digits : ℕ → ℕ → Text → Text
hex_digits zero n tail = tail
hex_digits (suc f) n tail =
    let more = hex_digits f (n / 16) (hex_digit (n % 16) ∷ tail) in
    if ltb n 16 then hex_digit n ∷ tail else more

-- "%012llx": a number below 2^64 has sixteen digits at most.
unfoldable pub hex_address : ℕ → Text
hex_address n = pad_zeros 12 (hex_digits 16 n [])

unfoldable pub print_section : Text → Text
print_section title =
    codes "\n" ++ (title ++ (codes "\n" ++ (replicate (length title) 61 ++ codes "\n")))

unfoldable pub label_gap : Text → Text
label_gap label = if ltb (length label) 28 then replicate (28 - length label) 32 else codes " "

unfoldable pub print_field : Text → Text → Text
print_field label value = codes "  " ++ (label ++ (label_gap label ++ (value ++ codes "\n")))
