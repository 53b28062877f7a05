-- ===== src/Procmon/Listing/Sorted.antt =====
-- Sorting the processes of cmd_list by a comparison (procmon/src/main.cpp).

use linux_internals.Procmon.Process.{ProcessInfo}
use linux_internals.Prelude.{
  ℕ, suc, ◌≡◌, refl, ap, ◌∙◌, inl, inr, Bool, true, false, List, [], ◌∷◌, arith, if◌then◌else◌,
  Bool-cases, length, All, All-mono,
}
use linux_internals.Procmon.Listing.{Before, insert_before, sort_by}

-- The strict weak order that std::sort asks of a comparison.
pub record IsOrder (before : Before) : Type 0 where
  pub asymmetric : (a b : ProcessInfo) → before a b ≡ true → before b a ≡ false
  pub transitive :
      (a b c : ProcessInfo) → before b a ≡ false → before c b ≡ false → before c a ≡ false

-- No process is to be put before an earlier one.
abbrev pub IsSorted : Before → List ProcessInfo → Type 0
IsSorted before [] = Unit
IsSorted before (p ∷ ps) = All (λ q. before q p ≡ false) ps × IsSorted before ps

-- How many of the processes have a property.
unfoldable pub count : (ProcessInfo → Bool) → List ProcessInfo → ℕ
count has [] = 0
count has (p ∷ ps) = if has p then suc (count has ps) else count has ps

module _ (before : Before) (order : IsOrder before) where
  insert_below :
      (p q : ProcessInfo) (ps : List ProcessInfo)
      → before q p ≡ false
      → All (λ r. before r p ≡ false) ps
      → All (λ r. before r p ≡ false) (insert_before before q ps)
  unfolding insert_before
  insert_below p q [] h hs = (h, tt)
  insert_below p q (r ∷ ps) h hs = elim (Bool-cases (before r q)) [
    | inl b ↦ rw b (hs.0, insert_below p q ps h hs.1)
    | inr b ↦ rw b (h, hs)
  ]

  insert_before-IsSorted :
      (q : ProcessInfo) (ps : List ProcessInfo)
      → IsSorted before ps
      → IsSorted before (insert_before before q ps)
  unfolding insert_before
  insert_before-IsSorted q [] h = (tt, tt)
  insert_before-IsSorted q (r ∷ ps) h = elim (Bool-cases (before r q)) [
    | inl b ↦
        rw b (insert_below r q ps (order.asymmetric r q b) h.0, insert_before-IsSorted q ps h.1)
    | inr b ↦ rw b (
      (
        b,
        All-mono (λ s. before s r ≡ false) (λ s. before s q ≡ false) ps
            (λ s l. order.transitive q r s b l) h.0,
      ),
      h,
    )
  ]

  pub sort_by-IsSorted : (ps : List ProcessInfo) → IsSorted before (sort_by before ps)
  unfolding sort_by
  sort_by-IsSorted [] = tt
  sort_by-IsSorted (p ∷ ps) = insert_before-IsSorted p (sort_by before ps) (sort_by-IsSorted ps)

module _ (before : Before) (has : ProcessInfo → Bool) where
  count-insert_before :
      (q : ProcessInfo) (ps : List ProcessInfo)
      → count has (insert_before before q ps) ≡ count has (q ∷ ps)
  unfolding insert_before count
  count-insert_before q [] = refl
  count-insert_before q (r ∷ ps) = ground (arith, count-insert_before q ps)

  pub count-sort_by : (ps : List ProcessInfo) → count has (sort_by before ps) ≡ count has ps
  unfolding sort_by count
  count-sort_by [] = refl
  count-sort_by (p ∷ ps) =
      count-insert_before p (sort_by before ps) ∙ ground (arith, count-sort_by ps)

  length-insert_before :
      (q : ProcessInfo) (ps : List ProcessInfo)
      → length (insert_before before q ps) ≡ suc (length ps)
  unfolding insert_before
  length-insert_before q [] = refl
  length-insert_before q (r ∷ ps) = ground (arith, length-insert_before q ps)

  pub length-sort_by : (ps : List ProcessInfo) → length (sort_by before ps) ≡ length ps
  unfolding sort_by
  length-sort_by [] = refl
  length-sort_by (p ∷ ps) = length-insert_before p (sort_by before ps) ∙ ap suc (length-sort_by ps)
