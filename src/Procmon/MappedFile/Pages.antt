-- ===== src/Procmon/MappedFile/Pages.antt =====
-- page_count and resident_pages (procmon/src/mapped_file.cpp).
use mathlib.Core.Option
use native.Mathlib.Omega.{div_any}
use native.Mathlib.Nat.{mod-lt}
use linux_internals.Prelude.{
  ℕ, ◌+◌, ◌-◌, ◌*◌, ◌/◌, ◌%◌, ◌^◌, ◌≤◌, ◌<◌, ◌≡◌, refl, inl, inr, Bool, true, false, Option, none,
  some, [], ◌∷◌, arith, ◌==◌, if◌then◌else◌, Bool-cases, length, Text,
}
use linux_internals.Procmon.MappedFile.{MappedFile, valid, page_count, resident, resident_pages}

resident-bound : (bytes : Text) → resident bytes ≤ length bytes
unfolding resident
resident-bound [] = omega arith
resident-bound (b ∷ bytes) = ground (arith, resident-bound bytes)

-- The pages of a file that is not empty.
pages_of :
    (ps n : ℕ)
    → 0 < ps
    → n + ps ≤ 2 ^ 64
    → (n ≤ ps * ((n + ps - 1) % 2 ^ 64 / ps)) × (ps * ((n + ps - 1) % 2 ^ 64 / ps) < n + ps)
pages_of ps n h b =
    let a = (n + ps - 1) % 2 ^ 64 in
    let whole : a ≡ n + ps - 1 = omega (arith, h, b) in
    let split : ps * (a / ps) + a % ps ≡ a = div_any a ps in
    let small : a % ps < ps = mod-lt a h in
    (omega (arith, whole, split, small, h), omega (arith, whole, split, small, h))

page_count_bounds :
    (ps : ℕ) (mf : MappedFile)
    → 0 < ps
    → mf.size + ps ≤ 2 ^ 64
    → (mf.size ≤ ps * page_count ps mf) × (ps * page_count ps mf < mf.size + ps)
unfolding page_count
page_count_bounds ps mf h b = elim (Bool-cases (mf.size == 0)) [
  | inl empty ↦ rw empty (ground (arith, empty), ground (arith, empty, h))
  | inr some_bytes ↦ rw some_bytes (pages_of ps mf.size h b)
]

-- If size_ + ps does not pass 2^64, page_count is the least number of pages that holds the file; and if
-- mincore fills in as many bytes as it was asked for, resident_pages counts no more pages than that.
pub page_count-least :
    (ps : ℕ) (mf : MappedFile) (mincore : ℕ → Option Text) (n : ℕ)
    → 0 < ps
    → mf.size + ps ≤ 2 ^ 64
    → ((m : ℕ) (bytes : Text) → mincore m ≡ some bytes → length bytes ≡ m)
    → resident_pages ps mincore mf ≡ some n
    → (mf.size ≤ ps * page_count ps mf)
      × (ps * page_count ps mf < mf.size + ps)
      × (n ≤ page_count ps mf)
unfolding resident_pages
page_count-least ps mf mincore n h b law e =
    let (enough, least) = page_count_bounds ps mf h b in
    (enough, least, counted (valid mf) (mincore (page_count ps mf)) refl e)
  where
    counted :
        (v : Bool) (o : Option Text)
        → mincore (page_count ps mf) ≡ o
        → (if v then Option.map resident o else none) ≡ some n
        → n ≤ page_count ps mf
    counted false o q e = absurd (cc e)
    counted true none q e = absurd (cc e)
    counted true (some bytes) q e =
        let r : resident bytes ≡ n = cc e in
        omega (arith, r, resident-bound bytes, law (page_count ps mf) bytes q)
