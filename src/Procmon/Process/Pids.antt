-- ===== src/Procmon/Process/Pids.antt =====
-- list_pids (procmon/src/process.cpp).
use linux_internals.Prelude.{
  ℕ, suc, ◌^◌, ◌≤◌, ◌<◌, ◌≡◌, refl, ◌∙◌, inl, inr, true, some, List, [], ◌∷◌, arith, leb, ◌==◌,
  if◌then◌else◌, lt→ltb, Bool-cases, decimal_value, All, All-mono, Text, codes,
}
use linux_internals.Procmon.Util.{is_number}
use linux_internals.Procmon.Process.Threads.{Dirs, stoi_digits, insert, sort, pids_of, list_pids}

-- In order: no number is before a smaller one.
abbrev pub Ascending : List ℕ → Type 0
Ascending [] = Unit
Ascending (n ∷ ns) = All (λ m. n ≤ m) ns × Ascending ns

abbrev pub count : ℕ → List ℕ → ℕ
count p [] = 0
count p (n ∷ ns) = if n == p then suc (count p ns) else count p ns

-- The numbers of the names that are numbers, the independent description of what is listed.
pub numeric : List Text → List ℕ
numeric [] = []
numeric (name ∷ names) =
    let rest = numeric names in if is_number name then decimal_value 0 name ∷ rest else rest

abbrev pub FitInt : List Text → Type 0
FitInt = All (λ name. is_number name ≡ true → decimal_value 0 name < 2 ^ 31)

abbrev by_pid : ℕ → ℕ
by_pid p = p

insert_above :
    (b a : ℕ) (ns : List ℕ) → b ≤ a → All (λ m. b ≤ m) ns → All (λ m. b ≤ m) (insert by_pid a ns)
unfolding insert
insert_above b a [] h hs = (h, tt)
insert_above b a (n ∷ ns) h hs = elim (Bool-cases (leb a n)) [
  | inl le ↦ rw le (h, hs)
  | inr gt ↦ rw gt (hs.0, insert_above b a ns h hs.1)
]

insert-Ascending : (a : ℕ) (ns : List ℕ) → Ascending ns → Ascending (insert by_pid a ns)
unfolding insert
insert-Ascending a [] h = (tt, tt)
insert-Ascending a (n ∷ ns) h = elim (Bool-cases (leb a n)) [
  | inl le ↦
      let a_n : a ≤ n = ground (arith, le) in
      rw le ((a_n, All-mono (λ m. n ≤ m) (λ m. a ≤ m) ns (λ m l. omega (arith, l, a_n)) h.0), h)
  | inr gt ↦ rw gt (insert_above n a ns (ground (arith, gt)) h.0, insert-Ascending a ns h.1)
]

sort-Ascending : (ns : List ℕ) → Ascending (sort by_pid ns)
unfolding sort
sort-Ascending [] = tt
sort-Ascending (n ∷ ns) = insert-Ascending n (sort by_pid ns) (sort-Ascending ns)

count-insert : (p a : ℕ) (ns : List ℕ) → count p (insert by_pid a ns) ≡ count p (a ∷ ns)
unfolding insert
count-insert p a [] = refl
count-insert p a (n ∷ ns) = ground (arith, count-insert p a ns)

count-sort : (p : ℕ) (ns : List ℕ) → count p (sort by_pid ns) ≡ count p ns
unfolding sort
count-sort p [] = refl
count-sort p (n ∷ ns) = count-insert p n (sort by_pid ns) ∙ ground (arith, count-sort p ns)

pids_of-numeric : (names : List Text) → FitInt names → pids_of names ≡ some (numeric names)
unfolding pids_of numeric stoi_digits
pids_of-numeric [] h = refl
pids_of-numeric (name ∷ names) h = elim (Bool-cases (is_number name)) [
  | inl n ↦ rw (n, lt→ltb (decimal_value 0 name) (2 ^ 31) (h.0 n), pids_of-numeric names h.1)
  | inr n ↦ rw n (pids_of-numeric names h.1)
]

-- If every numeric name under /proc fits an int, list_pids returns their numbers in ascending
-- order, each as often as it occurs.
pub list_pids_sorted :
    (dirs : Dirs)
    → FitInt (dirs (codes "/proc"))
    → (pids : List ℕ) × (list_pids dirs ≡ some pids)
      × Ascending pids
      × ((p : ℕ) → count p pids ≡ count p (numeric (dirs (codes "/proc"))))
unfolding list_pids
list_pids_sorted dirs h =
    let ns = numeric (dirs (codes "/proc")) in
    (
      sort by_pid ns,
      rw (pids_of-numeric (dirs (codes "/proc")) h),
      sort-Ascending ns,
      λ p. count-sort p ns,
    )
