-- ===== src/Procmon/Summary/Tests.antt =====
-- The sums over three regions, two of them of one file.
use linux_internals.Procmon.Summary.Grouped.{sizes_at, value_at, Ascending, by_path-value_at}
use linux_internals.Procmon.Summary.Totals.{sum_sizes, values, no_summary, totals_agree}
use linux_internals.Procmon.Summary.{
  ull_mod, size, add, summarise, text_lt, add_to, label, group, by_path, total_size, insert_size,
  sort_sizes, largest,
}
use linux_internals.Procmon.Process.Maps.{MemoryRegion}
use linux_internals.Prelude.{ℕ, ◌+◌, ◌%◌, ◌≡◌, refl, List, [], ◌∷◌, Text, codes, text_eq}

abbrev region : ℕ → ℕ → Text → Text → MemoryRegion
region start end perms path = record {
  start = start;
  end = end;
  perms = perms;
  offset = 0;
  dev = [];
  inode = 0;
  path = path;
}

abbrev three_regions : List MemoryRegion
three_regions =
    region 4096 8192 (codes "r-xp") (codes "/bin/a")
    ∷ region 8192 20480 (codes "rw-p") []
    ∷ region 20480 28672 (codes "rw-p") (codes "/bin/a")
    ∷ []

three_largest : largest three_regions ≡ (codes "/bin/a", 12288) ∷ (codes "[anonymous]", 12288) ∷ []
unfolding largest sort_sizes insert_size by_path group add_to add label size text_lt text_eq
three_largest = refl

totals_agree_example :
    (((summarise three_regions no_summary).anon + (summarise three_regions no_summary).file_backed)
        % ull_mod
      ≡ total_size three_regions)
    × (values (by_path three_regions) % ull_mod ≡ total_size three_regions)
    × (total_size three_regions ≡ sum_sizes three_regions % ull_mod)
totals_agree_example = totals_agree three_regions

by_path-value_at_example :
    Ascending (by_path three_regions)
    × (value_at (codes "/bin/a") (by_path three_regions)
        ≡ sizes_at (codes "/bin/a") three_regions % ull_mod)
by_path-value_at_example = by_path-value_at (codes "/bin/a") three_regions
