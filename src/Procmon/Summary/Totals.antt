-- ===== src/Procmon/Summary/Totals.antt =====
-- The sums of cmd_show and cmd_maps (procmon/src/main.cpp).
use linux_internals.Procmon.Process.Maps.{MemoryRegion, regions}
use linux_internals.Prelude.{
  ℕ, ◌+◌, ◌%◌, ◌≡◌, refl, inl, inr, ◌||◌, List, [], ◌∷◌, arith, Bool-cases, Text,
}
use linux_internals.Procmon.Summary.{
  ull_mod, size, is_anonymous, is_special, is_executable, Summary, add, add_kind, add_exec,
  summarise, Sizes, add_to, label, group, by_path, total_size,
}

-- The sum of all sizes.
pub sum_sizes : List MemoryRegion → ℕ
sum_sizes [] = 0
sum_sizes (r ∷ regions) = size r + sum_sizes regions

pub values : Sizes → ℕ
values [] = 0
values (e ∷ es) = e.1 + values es

abbrev pub no_summary : Summary
no_summary = record { anon = 0; file_backed = 0; exec = 0 }

values-add_to :
    (path : Text) (n : ℕ) (es : Sizes)
    → values (add_to path n es) % ull_mod ≡ (values es + n) % ull_mod
unfolding values add_to add
values-add_to path n [] = omega arith
values-add_to path n ((key, v) ∷ es) = ground (arith, values-add_to path n es)

group-values :
    (regions : List MemoryRegion) (es : Sizes) (total : ℕ)
    → values es % ull_mod ≡ total
    → (values (group regions (es, total)).0 % ull_mod ≡ (group regions (es, total)).1)
      × ((group regions (es, total)).1 ≡ (total + sum_sizes regions) % ull_mod)
unfolding group sum_sizes add
group-values [] es total h = (h, omega (arith, h))
group-values (r ∷ regions) es total h =
    let (a, b) =
      group-values regions (add_to (label r.path) (size r) es) (add total (size r))
        (omega (arith, values-add_to (label r.path) (size r) es, h)) in
    (a, omega (arith, b))

-- The bytes of both kinds.
kinds : Summary → ℕ
kinds s = s.anon + s.file_backed

add_exec-kinds : (r : MemoryRegion) (s : Summary) → kinds (add_exec r s) ≡ kinds s
unfolding add_exec kinds
add_exec-kinds r s = elim (Bool-cases (is_executable r.perms)) [
  | inl h ↦ rw h refl
  | inr h ↦ rw h refl
]

add_kind-kinds :
    (r : MemoryRegion) (s : Summary) → kinds (add_kind r s) % ull_mod ≡ (kinds s + size r) % ull_mod
unfolding add_kind kinds add
add_kind-kinds r s = elim (Bool-cases (is_anonymous r || is_special r)) [
  | inl h ↦ rw h (omega arith)
  | inr h ↦ rw h (omega arith)
]

summarise-kinds :
    (regions : List MemoryRegion) (s : Summary)
    → kinds (summarise regions s) % ull_mod ≡ (kinds s + sum_sizes regions) % ull_mod
unfolding summarise sum_sizes
summarise-kinds [] s = omega arith
summarise-kinds (r ∷ regions) s =
    let before = add_exec r (add_kind r s) in
    omega
      (arith, summarise-kinds regions before, add_exec-kinds r (add_kind r s), add_kind-kinds r s)

-- What cmd_show prints as anonymous and as file-backed, what cmd_maps prints as the total, and the sizes
-- that it groups by path add up to the same number, the sum of the regions' sizes modulo 2^64.
pub totals_agree :
    (regions : List MemoryRegion)
    → (((summarise regions no_summary).anon + (summarise regions no_summary).file_backed) % ull_mod
        ≡ total_size regions)
      × (values (by_path regions) % ull_mod ≡ total_size regions)
      × (total_size regions ≡ sum_sizes regions % ull_mod)
unfolding total_size by_path kinds values
totals_agree regions =
    let (same, whole) = group-values regions [] 0 refl in
    (omega (arith, summarise-kinds regions no_summary, whole), same, omega (arith, whole))
