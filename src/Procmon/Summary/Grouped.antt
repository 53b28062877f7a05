-- ===== src/Procmon/Summary/Grouped.antt =====
-- by_path of cmd_maps (procmon/src/main.cpp).

use linux_internals.Procmon.Process.Maps.{MemoryRegion, regions}
use linux_internals.Procmon.Summary.Order.{text_lt_trans, text_lt_total, lt_not_eq, text_eq_sym}
use mathlib.Core.Path.{subst}
use linux_internals.Prelude.{
  ℕ, ◌+◌, ◌%◌, ◌<◌, ◌≡◌, refl, sym, ap, ◌∙◌, inl, inr, true, false, List, [], ◌∷◌, arith,
  if◌then◌else◌, Bool-cases, All, All-mono, Text, text_eq, text_eq→eq, text_eq_refl,
}
use linux_internals.Procmon.Summary.{
  ull_mod, size, add, Sizes, text_lt, add_to, label, group, by_path,
}

-- The sum of the sizes of the regions under one label.
pub sizes_at : Text → List MemoryRegion → ℕ
sizes_at path [] = 0
sizes_at path (r ∷ regions) =
    let rest = sizes_at path regions in if text_eq (label r.path) path then size r + rest else rest

-- by_path[path], 0 if there is no entry.
unfoldable pub value_at : Text → Sizes → ℕ
value_at path [] = 0
value_at path (e ∷ es) = let rest = value_at path es in if text_eq path e.0 then e.1 else rest

-- The keys are in strictly ascending order.
abbrev pub Ascending : Sizes → Type 0
Ascending [] = Unit
Ascending (e ∷ es) = All (λ d. text_lt e.0 d.0 ≡ true) es × Ascending es

above_add_to :
    (key path : Text) (n : ℕ) (es : Sizes)
    → text_lt key path ≡ true
    → All (λ d. text_lt key d.0 ≡ true) es
    → All (λ d. text_lt key d.0 ≡ true) (add_to path n es)
unfolding add_to
above_add_to key path n [] h hs = (h, tt)
above_add_to key path n (e ∷ es) h hs = elim (Bool-cases (text_eq path e.0)) [
  | inl same ↦ rw same hs
  | inr other ↦ rw other (elim (Bool-cases (text_lt path e.0)) [
    | inl before ↦ rw before (h, hs)
    | inr after ↦ rw after (hs.0, above_add_to key path n es h hs.1)
  ])
]

add_to-Ascending : (path : Text) (n : ℕ) (es : Sizes) → Ascending es → Ascending (add_to path n es)
unfolding add_to
add_to-Ascending path n [] h = (tt, tt)
add_to-Ascending path n (e ∷ es) h = elim (Bool-cases (text_eq path e.0)) [
  | inl same ↦ rw same h
  | inr other ↦ rw other (elim (Bool-cases (text_lt path e.0)) [
    | inl before ↦ rw before (
      (
        before,
        All-mono (λ d. text_lt e.0 d.0 ≡ true) (λ d. text_lt path d.0 ≡ true) es
            (λ d l. text_lt_trans path e.0 d.0 before l) h.0,
      ),
      h,
    )
    | inr after ↦ rw after (
      above_add_to e.0 path n es (text_lt_total path e.0 other after) h.0,
      add_to-Ascending path n es h.1,
    )
  ])
]

-- A key below all others is not there.
value_at_below :
    (path : Text) (es : Sizes) → All (λ d. text_lt path d.0 ≡ true) es → value_at path es ≡ 0
unfolding value_at
value_at_below path [] h = refl
value_at_below path (e ∷ es) h = rw (lt_not_eq path e.0 h.0) (value_at_below path es h.1)

value_at-add_to :
    (path : Text) (n : ℕ) (es : Sizes)
    → Ascending es
    → value_at path (add_to path n es) ≡ add (value_at path es) n
unfolding value_at add_to
value_at-add_to path n [] h = rw (text_eq_refl path) refl
value_at-add_to path n (e ∷ es) h = elim (Bool-cases (text_eq path e.0)) [
  | inl same ↦ rw (same, same) refl
  | inr other ↦ rw other (elim (Bool-cases (text_lt path e.0)) [
    | inl before ↦
        rw (before, text_eq_refl path)
          (ap (λ v. add v n)
            (sym (
              value_at_below path es (
                All-mono (λ d. text_lt e.0 d.0 ≡ true) (λ d. text_lt path d.0 ≡ true) es
                  (λ d l. text_lt_trans path e.0 d.0 before l) h.0))))
    | inr after ↦ rw (after, other) (value_at-add_to path n es h.1)
  ])
]

value_at-add_to_ne :
    (q path : Text) (n : ℕ) (es : Sizes)
    → text_eq q path ≡ false
    → value_at q (add_to path n es) ≡ value_at q es
unfolding value_at add_to
value_at-add_to_ne q path n [] ne = rw ne refl
value_at-add_to_ne q path n (e ∷ es) ne = elim (Bool-cases (text_eq path e.0)) [
  | inl same ↦
      let other : text_eq q e.0 ≡ false = ap (text_eq q) (sym (text_eq→eq path e.0 same)) ∙ ne in
      rw (same, other) refl
  | inr other ↦ rw other (elim (Bool-cases (text_lt path e.0)) [
    | inl before ↦ rw (before, ne) refl
    | inr after ↦
        rw after (ap (λ v. if text_eq q e.0 then e.1 else v) (value_at-add_to_ne q path n es ne))
  ])
]

value_at-group :
    (q : Text) (regions : List MemoryRegion) (es : Sizes) (total : ℕ)
    → Ascending es
    → value_at q es < ull_mod
    → Ascending (group regions (es, total)).0
      × (value_at q (group regions (es, total)).0 ≡ (value_at q es + sizes_at q regions) % ull_mod)
unfolding group sizes_at add
value_at-group q [] es total h b = (h, omega (arith, b))
value_at-group q (r ∷ regions) es total h b =
    let path = label r.path in
    let es' = add_to path (size r) es in
    let h' = add_to-Ascending path (size r) es h in
    elim (Bool-cases (text_eq path q)) [
      | inl same ↦
          let v : value_at q es' ≡ (value_at q es + size r) % ull_mod =
            subst (λ p. value_at p es' ≡ (value_at p es + size r) % ull_mod)
              (text_eq→eq path q same) (value_at-add_to path (size r) es h) in
          let (a, e) = value_at-group q regions es' (add total (size r)) h' (omega (arith, v)) in
          (a, rw same (omega (arith, e, v)))
      | inr other ↦
          let v : value_at q es' ≡ value_at q es =
            value_at-add_to_ne q path (size r) es (text_eq_sym q path ∙ other) in
          let (a, e) = value_at-group q regions es' (add total (size r)) h' (omega (arith, v, b)) in
          (a, rw other (omega (arith, e, v)))
    ]

-- by_path is a map with its keys in strictly ascending order, and has under each label the sum of the
-- sizes of the regions with that label modulo 2^64, 0 where there are none.
pub by_path-value_at :
    (q : Text) (regions : List MemoryRegion)
    → Ascending (by_path regions) × (value_at q (by_path regions) ≡ sizes_at q regions % ull_mod)
unfolding by_path value_at
by_path-value_at q regions =
    let (a, e) = value_at-group q regions [] 0 tt (omega arith) in (a, omega (arith, e))
