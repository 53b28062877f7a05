-- ===== src/Minicontainer/Size.antt =====
-- minicontainer/src/util.cpp: sizes such as "64M" (`parse_size`).
-- `long long` is signed: a product or sum past `int64_max` is undefined behaviour in C++, and the
-- model says so with an outcome of its own.
pub mod Grammar
use linux_internals.Prelude.{
  ℕ, ◌+◌, ◌-◌, ◌*◌, ◌^◌, max, ◌&&◌, [], ◌∷◌, ◌++◌, ltb, leb, ◌==◌, if◌then◌else◌, to_string, length,
  ℤ, pos, negsuc, Text, codes, is_digit, Double, of_integer, fixed, scale_units,
}

abbrev pub int64_max : ℕ
int64_max = 2 ^ 63 - 1

-- The result of `parse_size`: std::nullopt, a number of bytes, or signed overflow on the way.
pub data Size : Type 0 where
  nullopt : Size
  bytes : ℕ → Size
  undefined : Size

-- Where the digit loop stops: the value so far and the text not read, or an overflow.
pub data Scanned : Type 0 where
  stopped : ℕ → Text → Scanned
  overflowed : Scanned

-- while (i < text.size() && isdigit(text[i])) { value = value * 10 + (text[i] - '0'); ++i; }
pub scan_digits : ℕ → Text → Scanned
scan_digits value [] = stopped value []
scan_digits value (c ∷ s) =
    let next = value * 10 + (c - 48) in
    let rest = scan_digits next s in
    if is_digit c then (if ltb int64_max next then overflowed else rest) else stopped value (c ∷ s)

pub to_upper : ℕ → ℕ
to_upper c = if leb 97 c && leb c 122 then c - 32 else c

unfoldable pub checked : ℕ → Size
checked n = if ltb int64_max n then undefined else bytes n

-- The switch on the suffix.
pub scale : ℕ → ℕ → Size
scale value c =
    if c == b'K'
    then checked (value * 1024)
    else if c == b'M'
    then checked (value * 1024 * 1024)
    else if c == b'G'
    then checked (value * 1024 * 1024 * 1024)
    else nullopt

pub suffixed : ℕ → Text → Size
suffixed value [] = bytes value
suffixed value (c ∷ []) = scale value (to_upper c)
suffixed value (c ∷ d ∷ s) = nullopt

pub scanned_size : ℕ → Scanned → Size
scanned_size size overflowed = undefined
scanned_size size (stopped value rest) =
    if length rest == size then nullopt else suffixed value rest

unfoldable pub parse_size : Text → Size
unfolding scanned_size scan_digits suffixed scale to_upper checked is_digit
parse_size [] = nullopt
parse_size (c ∷ s) = scanned_size (length (c ∷ s)) (scan_digits 0 (c ∷ s))

size_unit : ℕ → Text
size_unit n =
    if n == 0
    then codes "B"
    else if n == 1
    then codes "K"
    else if n == 2
    then codes "M"
    else codes "G"

show_scaled : ℕ → Double × ℕ → Text
show_scaled size (value, unit) =
    (if unit == 0 then to_string size else fixed 1 value) ++ size_unit unit

unfoldable pub human_bytes : ℤ → Text
unfolding show_scaled size_unit
human_bytes (negsuc n) = codes "max"
human_bytes (pos n) = show_scaled n (scale_units 3 (of_integer n) 0)
