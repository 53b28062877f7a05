-- ===== src/Procmon/Report/Maps.antt =====
-- cmd_maps of procmon/src/main.cpp.
use linux_internals.Prelude.{
  ℕ, ◌-◌, ◌^◌, List, [], ◌∷◌, ◌++◌, map, ltb, if◌then◌else◌, to_string, length, ℤ, pos, negsuc,
  Text, codes,
}
use linux_internals.Procmon.Report.{Output, exits, failure, all_parts, with_rows}
use linux_internals.Procmon.Summary.{size, Sizes, label, total_size, largest}
use linux_internals.Procmon.Format.{human_bytes, hex_address, print_section, print_field}
use linux_internals.Procmon.Table.{table, right_align, print}
use linux_internals.Procmon.Process.{Files}
use linux_internals.Procmon.Process.Maps.{MemoryRegion, regions, read_maps}

-- static_cast<long long>
unfoldable pub to_long_long : ℕ → ℤ
to_long_long n = if ltb n (2 ^ 63) then pos n else negsuc (2 ^ 64 - 1 - n)

abbrev pub map_headers : List Text
map_headers =
    codes "START" ∷ codes "END" ∷ codes "PERMS" ∷ codes "SIZE" ∷ codes "OFFSET" ∷ codes "PATH" ∷ []

unfoldable pub map_row : MemoryRegion → List Text
map_row r =
    hex_address r.start
    ∷ hex_address r.end
    ∷ r.perms
    ∷ human_bytes (to_long_long (size r))
    ∷ hex_address r.offset
    ∷ label r.path
    ∷ []

pub size_lines : Sizes → Text
size_lines [] = []
size_lines ((path, n) ∷ sizes) = print_field (human_bytes (to_long_long n)) path ++ size_lines sizes

pub maps_text : List MemoryRegion → Text
maps_text regions = all_parts (
    print (with_rows (map map_row regions) (right_align 3 (table map_headers)))
    ∷ print_section (codes "Virtual size by backing file")
    ∷ size_lines (largest regions)
    ∷ codes "\n  Total VSZ: "
    ∷ human_bytes (to_long_long (total_size regions))
    ∷ codes " ("
    ∷ to_string (length regions)
    ∷ codes " regions)\n"
    ∷ codes "  perms: r=read w=write x=execute p=private(COW) s=shared\n"
    ∷ [])

pub maps_output : ℕ → List MemoryRegion → Output
maps_output pid [] = failure 1 (codes "Cannot read maps for PID " ++ (to_string pid ++ codes ".\n"))
maps_output pid (r ∷ regions) = exits 0 (maps_text (r ∷ regions)) []

pub cmd_maps : Files → ℕ → Output
cmd_maps files pid = maps_output pid (read_maps files pid)
