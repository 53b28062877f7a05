-- ===== src/Procmon/Table/Columns.antt =====
-- The columns of a printed row (procmon/src/format.cpp).
use linux_internals.Procmon.Table.Widths.{Fits, Built, widths-Fits}
use linux_internals.Procmon.Table.{
  Table, widths, pad, spaces, emit_cell, emit_cells, emit, total_width,
}
use linux_internals.Prelude.{
  ℕ, zero, suc, ◌+◌, ◌-◌, ◌^◌, ◌≤◌, ◌<◌, ◌≡◌, refl, sym, Bool, true, false, some, List, [], ◌∷◌,
  ◌++◌, arith, length, get_elem?, take, drop, All, length-append, take-length-append, drop_past,
  length-replicate, All-get_elem, Text, codes,
}
use native.Mathlib.Nat.{zero-add, add_assoc}
use mathlib.Core.List.{append_assoc}

pad-Fits : (w : ℕ) (c : Text) → length c ≤ w → w < 2 ^ 64 → pad w c ≡ w - length c
unfolding pad
pad-Fits w c h b = omega arith

length-spaces : (n : ℕ) → length (spaces n) ≡ n
length-spaces n = length-replicate n _

-- A cell before the last fills its column.
length-emit_cell :
    (w : ℕ) (r : Bool) (c : Text) → length c ≤ w → w < 2 ^ 64 → length (emit_cell w r false c) ≡ w
unfolding emit_cell
length-emit_cell w true c h b =
    omega (arith, length-append (spaces (pad w c)) c, length-spaces (pad w c), pad-Fits w c h b)
length-emit_cell w false c h b =
    omega (arith, length-append c (spaces (pad w c)), length-spaces (pad w c), pad-Fits w c h b)

-- Where the text of a cell begins in its column: at the left, or so that it ends at the right.
abbrev pub indent : ℕ → Bool → Text → ℕ
indent w true c = w - length c
indent w false c = 0

-- Where a column begins: past the columns before it, with two spaces after each.
abbrev pub start : List ℕ → ℕ → ℕ
start ws i = total_width (take i ws)

spaces-drop : (n : ℕ) (t : Text) → drop n (spaces n ++ t) ≡ t
spaces-drop zero t = refl
spaces-drop (suc n) t = spaces-drop n t

emit_cell-text :
    (w : ℕ) (r last : Bool) (c rest : Text)
    → length c ≤ w
    → w < 2 ^ 64
    → take (length c) (drop (indent w r c) (emit_cell w r last c ++ rest)) ≡ c
unfolding emit_cell
emit_cell-text w true last c rest h b =
    rw (pad-Fits w c h b, append_assoc, spaces-drop (w - length c) (c ++ rest))
      (take-length-append c rest)
emit_cell-text w false true c rest h b = take-length-append c rest
emit_cell-text w false false c rest h b =
    rw append_assoc (take-length-append c (spaces (pad w c) ++ rest))

-- A cell before the last and its two spaces, dropped.
block-drop :
    (v n : ℕ) (q : Bool) (d more rest : Text)
    → length d ≤ v
    → v < 2 ^ 64
    → drop (v + 2 + n) ((emit_cell v q false d ++ (spaces 2 ++ more)) ++ rest)
      ≡ drop n (more ++ rest)
block-drop v n q d more rest h b =
    let e : (emit_cell v q false d ++ (spaces 2 ++ more)) ++ rest
        ≡ (emit_cell v q false d ++ spaces 2) ++ (more ++ rest) =
      simp append_assoc in
    rw e (
      drop_past (v + 2) n (emit_cell v q false d ++ spaces 2) (more ++ rest) (
        omega
          (arith, length-append (emit_cell v q false d) (spaces 2), length-emit_cell v q d h b)))

-- Column i has width w and alignment r, and the row has the cell c in it.
pub record Column (ws : List ℕ) (rs : List Bool) (cells : List Text) (i w : ℕ) (r : Bool) (c : Text)
    : Type 0 where
  pub width : get_elem? ws i ≡ some w
  pub alignment : get_elem? rs i ≡ some r
  pub cell : get_elem? cells i ≡ some c

emit_cells-Column :
    (i w : ℕ) (r : Bool) (c : Text) (ws : List ℕ) (rs : List Bool) (cells : List Text) (rest : Text)
    → Fits ws cells
    → All (λ v. v < 2 ^ 64) ws
    → Column ws rs cells i w r c
    → take (length c) (drop (start ws i + indent w r c) (emit_cells ws rs cells ++ rest)) ≡ c
unfolding emit_cells total_width
emit_cells-Column i w r c [] rs cells rest f b k = absurd (cc k.width)
emit_cells-Column i w r c (v ∷ ws) [] cells rest f b k = absurd (cc k.alignment)
emit_cells-Column i w r c (v ∷ ws) (q ∷ rs) [] rest f b k = absurd (cc k.cell)
emit_cells-Column zero w r c (v ∷ ws) (q ∷ rs) (d ∷ []) rest f b k =
    let ew : v ≡ w = cc k.width in
    let er : q ≡ r = cc k.alignment in
    let ed : d ≡ c = cc k.cell in
    rw (sym ew, sym er, sym ed, zero-add) (emit_cell-text v q true d rest f.0 b.0)
emit_cells-Column zero w r c (v ∷ ws) (q ∷ rs) (d ∷ e ∷ cells) rest f b k =
    let ew : v ≡ w = cc k.width in
    let er : q ≡ r = cc k.alignment in
    let ed : d ≡ c = cc k.cell in
    rw (sym ew, sym er, sym ed, zero-add, append_assoc) (emit_cell-text v q false d _ f.0 b.0)
emit_cells-Column (suc i) w r c (v ∷ ws) (q ∷ rs) (d ∷ []) rest f b k = absurd (cc k.cell)
emit_cells-Column (suc i) w r c (v ∷ ws) (q ∷ rs) (d ∷ e ∷ cells) rest f b k =
    let k' : Column ws rs (e ∷ cells) i w r c = record {
      width = k.width;
      alignment = k.alignment;
      cell = k.cell;
    } in
    rw
      (
        add_assoc (v + 2) (start ws i) (indent w r c),
        block-drop v (start ws i + indent w r c) q d (emit_cells ws rs (e ∷ cells)) rest f.0 b.0,
      )
      (emit_cells-Column i w r c ws rs (e ∷ cells) rest f.1 b.1 k')

Fits-get_elem :
    (i w : ℕ) (c : Text) (ws : List ℕ) (cells : List Text)
    → Fits ws cells
    → get_elem? ws i ≡ some w
    → get_elem? cells i ≡ some c
    → length c ≤ w
Fits-get_elem i w c [] cells f e k = absurd (cc e)
Fits-get_elem i w c (v ∷ ws) [] f e k = absurd (cc k)
Fits-get_elem zero w c (v ∷ ws) (d ∷ cells) f e k =
    let ew : v ≡ w = cc e in let ed : d ≡ c = cc k in rw (sym ew, sym ed) f.0
Fits-get_elem (suc i) w c (v ∷ ws) (d ∷ cells) f e k = Fits-get_elem i w c ws cells f.1 e k

-- Line n of a table as its methods build it, the headers being line 0, if no width reaches 2^64: each
-- cell is no wider than its column, and its text stands in the printed line where the column begins,
-- or in a right-aligned column so that it ends where the column ends.
pub print-columns :
    {t : Table} {cells : List Text} {c : Text} {w : ℕ} {r : Bool} (n i : ℕ)
    → Built t
    → All (λ v. v < 2 ^ 64) (widths t)
    → get_elem? (t.headers ∷ t.rows) n ≡ some cells
    → Column (widths t) t.right cells i w r c
    → (length c ≤ w)
      × (take (length c) (drop (start (widths t) i + indent w r c) (emit (widths t) t.right cells))
          ≡ c)
unfolding emit
print-columns {t} {cells} {c} {w} {r} n i b s l k =
    let f = All-get_elem (Fits (widths t)) (t.headers ∷ t.rows) n cells (widths-Fits b) l in
    (
      Fits-get_elem i w c (widths t) cells f k.width k.cell,
      emit_cells-Column i w r c (widths t) t.right cells (codes "\n") f s k,
    )
