-- ===== src/Procmon/Summary.antt =====
-- The sums over memory regions that cmd_show and cmd_maps print (procmon/src/main.cpp), and the size
-- and kinds of a region (procmon/include/proc/process.hpp). A std::map is its entries in the order of
-- their keys.
pub mod Order
pub mod Totals
pub mod Grouped
mod Tests
use linux_internals.Prelude.{
  ℕ, ◌+◌, ◌-◌, ◌%◌, ◌^◌, Bool, true, false, ◌||◌, List, [], ◌∷◌, ltb, ◌==◌, if◌then◌else◌, is_empty,
  take, Text, codes, text_eq,
}
use linux_internals.Procmon.Process.Maps.{MemoryRegion, regions}

abbrev pub ull_mod : ℕ
ull_mod = 2 ^ 64

-- end - start in unsigned long long.
unfoldable pub size : MemoryRegion → ℕ
size r = (r.end + ull_mod - r.start) % ull_mod

unfoldable pub is_anonymous : MemoryRegion → Bool
is_anonymous r = is_empty r.path

unfoldable pub starts_with_bracket : Text → Bool
starts_with_bracket [] = false
starts_with_bracket (c ∷ s) = c == 91

unfoldable pub is_special : MemoryRegion → Bool
is_special r = starts_with_bracket r.path

-- r.perms.size() > 2 && r.perms[2] == 'x'
unfoldable pub is_executable : Text → Bool
is_executable (r ∷ w ∷ x ∷ s) = x == 120
is_executable _ = false

-- The three sums of cmd_show.
pub record Summary : Type 0 where
  pub anon : ℕ
  pub file_backed : ℕ
  pub exec : ℕ

unfoldable pub add : ℕ → ℕ → ℕ
add total n = (total + n) % ull_mod

unfoldable pub add_kind : MemoryRegion → Summary → Summary
add_kind r s =
    if is_anonymous r || is_special r
    then record s { anon = add s.anon (size r) }
    else record s { file_backed = add s.file_backed (size r) }

unfoldable pub add_exec : MemoryRegion → Summary → Summary
add_exec r s = if is_executable r.perms then record s { exec = add s.exec (size r) } else s

unfoldable pub summarise : List MemoryRegion → Summary → Summary
summarise [] s = s
summarise (r ∷ regions) s = summarise regions (add_exec r (add_kind r s))

abbrev pub Sizes : Type 0
Sizes = List (Text × ℕ)

-- operator< of std::string.
unfoldable pub text_lt : Text → Text → Bool
text_lt xs [] = false
text_lt [] (y ∷ ys) = true
text_lt (x ∷ xs) (y ∷ ys) = let rest = text_lt xs ys in if x == y then rest else ltb x y

-- by_path[path] += n
unfoldable pub add_to : Text → ℕ → Sizes → Sizes
add_to path n [] = (path, add 0 n) ∷ []
add_to path n ((key, v) ∷ entries) =
    let rest = add_to path n entries in
    if text_eq path key
    then (key, add v n) ∷ entries
    else if text_lt path key
    then (path, add 0 n) ∷ (key, v) ∷ entries
    else (key, v) ∷ rest

unfoldable pub label : Text → Text
label [] = codes "[anonymous]"
label (c ∷ s) = c ∷ s

-- The loop of cmd_maps over the regions: by_path and total.
unfoldable pub group : List MemoryRegion → Sizes × ℕ → Sizes × ℕ
group [] sums = sums
group (r ∷ regions) (by_path, total) =
    group regions (add_to (label r.path) (size r) by_path, add total (size r))

unfoldable pub by_path : List MemoryRegion → Sizes
by_path regions = (group regions ([], 0)).0

unfoldable pub total_size : List MemoryRegion → ℕ
total_size regions = (group regions ([], 0)).1

-- std::sort by size, the largest first.
unfoldable pub insert_size : Text × ℕ → Sizes → Sizes
insert_size e [] = e ∷ []
insert_size e (d ∷ ds) = let rest = insert_size e ds in if ltb e.1 d.1 then d ∷ rest else e ∷ d ∷ ds

unfoldable pub sort_sizes : Sizes → Sizes
sort_sizes [] = []
sort_sizes (e ∷ es) = insert_size e (sort_sizes es)

-- The entries that cmd_maps prints: the first ten.
unfoldable pub largest : List MemoryRegion → Sizes
largest regions = take 10 (sort_sizes (by_path regions))
