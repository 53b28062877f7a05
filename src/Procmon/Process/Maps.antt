-- ===== src/Procmon/Process/Maps.antt =====
-- read_maps (procmon/src/process.cpp): the memory regions of /proc/<pid>/maps.

use linux_internals.Prelude.{
  ℕ, ◌+◌, ◌-◌, ◌*◌, ◌%◌, ◌^◌, ◌&&◌, ◌||◌, Option, none, some, List, [], ◌∷◌, ◌++◌, ltb, leb, ◌==◌,
  if◌then◌else◌, find_byte, length, take, drop, Text, codes, is_digit,
}
use linux_internals.Procmon.Util.{read_lines, View, text_of, end_of, skip_spaces, split_ws, trim}
use linux_internals.Procmon.Process.{Files, base_of}

pub record MemoryRegion : Type 0 where
  pub start : ℕ
  pub end : ℕ
  pub perms : Text
  pub offset : ℕ
  pub dev : Text
  pub inode : ℕ
  pub path : Text

-- std::strtoull in bases up to 16: spaces, a sign, 0x in base 16, then digits. A value that does
-- not fit is ULLONG_MAX, and a minus sign negates modulo 2^64.
unfoldable pub digit_value : ℕ → ℕ
digit_value c =
    if is_digit c
    then c - 48
    else if leb 97 c && leb c 102
    then c - 87
    else if leb 65 c && leb c 70
    then c - 55
    else 16

unfoldable pub strtoull_digits : ℕ → ℕ → Text → ℕ
strtoull_digits base v [] = v
strtoull_digits base v (c ∷ s) =
    let rest = strtoull_digits base (v * base + digit_value c) s in
    if ltb (digit_value c) base then rest else v

unfoldable pub past_0x : ℕ → Text → Text
past_0x base (z ∷ x ∷ s) = if base == 16 && z == 48 && (x == 120 || x == 88) then s else z ∷ x ∷ s
past_0x base s = s

unfoldable pub strtoull_unsigned : ℕ → Text → ℕ
strtoull_unsigned base s =
    let v = strtoull_digits base 0 (past_0x base s) in if ltb v (2 ^ 64) then v else 2 ^ 64 - 1

unfoldable pub strtoull_signed : ℕ → Text → ℕ
strtoull_signed base [] = 0
strtoull_signed base (c ∷ s) =
    if c == 45
    then (2 ^ 64 - strtoull_unsigned base s) % 2 ^ 64
    else if c == 43
    then strtoull_unsigned base s
    else strtoull_unsigned base (c ∷ s)

unfoldable pub strtoull : Text → ℕ → ℕ
strtoull s base = strtoull_signed base (skip_spaces s)

-- The path is everything after the fifth token, which ends at `path_start`.
unfoldable pub path_from : ℕ → Text → Text
path_from path_start line = if ltb path_start (length line) then trim (drop path_start line) else []

-- The rest of the loop's body once the dash of the range was looked for.
unfoldable pub region_at : Text → View → View → View → View → View → Option ℕ → Option MemoryRegion
region_at line range perms offset dev inode none = none
region_at line range perms offset dev inode (some dash) = some (record {
  start = strtoull (take dash (text_of range)) 16;
  end = strtoull (drop (dash + 1) (text_of range)) 16;
  perms = text_of perms;
  offset = strtoull (text_of offset) 16;
  dev = text_of dev;
  inode = strtoull (text_of inode) 10;
  path = path_from (end_of inode) line;
})

-- A line of fewer than five tokens is skipped: none stands for `continue`.
unfoldable pub region_from : Text → List View → Option MemoryRegion
region_from line (range ∷ perms ∷ offset ∷ dev ∷ inode ∷ more) =
    region_at line range perms offset dev inode (find_byte 45 (text_of range))
region_from line tokens = none

unfoldable pub region_of : Text → Option MemoryRegion
region_of [] = none
region_of (c ∷ line) = region_from (c ∷ line) (split_ws (c ∷ line))

pub regions : List Text → List MemoryRegion
regions [] = []
regions (line ∷ lines) = elim (region_of line) [ none ↦ regions lines | some r ↦ r ∷ regions lines ]

pub read_maps : Files → ℕ → List MemoryRegion
read_maps files pid = regions (read_lines (files (base_of pid ++ codes "/maps")))
