-- ===== src/Procmon/Table/Widths.antt =====
-- The widths of the columns of a table (procmon/src/format.cpp).
use linux_internals.Prelude.{
  ℕ, zero, suc, ◌≤◌, ◌≡◌, refl, sym, ap, ◌∙◌, Bool, false, List, [], ◌∷◌, map, arith, length, All,
  All-append, Text,
}
use linux_internals.Procmon.Table.{
  Table, table, resize, add_row, set_right, right_align, widen, widen_all, widths,
}

-- Cells that fit the columns: as many, and none is wider than its column.
abbrev pub Fits : List ℕ → List Text → Type 0
Fits [] [] = Unit
Fits [] (c ∷ cells) = ⊥
Fits (w ∷ ws) [] = ⊥
Fits (w ∷ ws) (c ∷ cells) = (length c ≤ w) × Fits ws cells

-- A table as its methods build it.
pub data Built : Table → Type 0 where
  made : (headers : List Text) → Built (table headers)
  added : {t : Table} (cells : List Text) → Built t → Built (add_row cells t)
  aligned : {t : Table} (column : ℕ) → Built t → Built (right_align column t)

-- As many cells in each row, and as many alignments, as headers.
pub record IsRectangular (t : Table) : Type 0 where
  pub alignments : length t.right ≡ length t.headers
  pub cells : All (λ row. length row ≡ length t.headers) t.rows

length-map-false : (hs : List Text) → length (map (λ h. false) hs) ≡ length hs
length-map-false [] = refl
length-map-false (h ∷ hs) = ap suc (length-map-false hs)

length-resize : (n : ℕ) (cells : List Text) → length (resize n cells) ≡ n
unfolding resize
length-resize zero cells = refl
length-resize (suc n) [] = ap suc (length-resize n [])
length-resize (suc n) (c ∷ cells) = ap suc (length-resize n cells)

length-set_right : (column : ℕ) (right : List Bool) → length (set_right column right) ≡ length right
unfolding set_right
length-set_right column [] = refl
length-set_right zero (r ∷ right) = refl
length-set_right (suc column) (r ∷ right) = ap suc (length-set_right column right)

pub Built-IsRectangular : {t : Table} → Built t → IsRectangular t
unfolding table add_row right_align
Built-IsRectangular (made headers) = record { alignments = length-map-false headers; cells = tt }
Built-IsRectangular (added {t} cells b) =
    let i = Built-IsRectangular b in
    record {
      alignments = i.alignments;
      cells =
          All-append (λ row. length row ≡ length t.headers) t.rows _ i.cells
            (length-resize (length t.headers) cells, tt);
    }
Built-IsRectangular (aligned {t} column b) =
    let i = Built-IsRectangular b in
    record { alignments = length-set_right column t.right ∙ i.alignments; cells = i.cells }

widen-Fits :
    (ws : List ℕ) (cells : List Text) → length cells ≡ length ws → Fits (widen ws cells) cells
unfolding widen
widen-Fits [] [] e = tt
widen-Fits [] (c ∷ cells) e = absurd (omega (arith, e))
widen-Fits (w ∷ ws) [] e = absurd (omega (arith, e))
widen-Fits (w ∷ ws) (c ∷ cells) e = (ground arith, widen-Fits ws cells (omega (arith, e)))

Fits-widen : (ws : List ℕ) (row cells : List Text) → Fits ws cells → Fits (widen ws row) cells
unfolding widen
Fits-widen [] row cells h = h
Fits-widen (w ∷ ws) [] cells h = h
Fits-widen (w ∷ ws) (d ∷ row) [] h = h
Fits-widen (w ∷ ws) (d ∷ row) (c ∷ cells) h = (ground (arith, h.0), Fits-widen ws row cells h.1)

length-widen : (ws : List ℕ) (row : List Text) → length (widen ws row) ≡ length ws
unfolding widen
length-widen [] row = refl
length-widen (w ∷ ws) [] = refl
length-widen (w ∷ ws) (c ∷ row) = ap suc (length-widen ws row)

Fits-widen_all :
    (ws : List ℕ) (rows : List (List Text)) (cells : List Text)
    → Fits ws cells
    → Fits (widen_all ws rows) cells
unfolding widen_all
Fits-widen_all ws [] cells h = h
Fits-widen_all ws (row ∷ rows) cells h =
    Fits-widen_all (widen ws row) rows cells (Fits-widen ws row cells h)

widen_all-Fits :
    (n : ℕ) (ws : List ℕ) (rows : List (List Text))
    → length ws ≡ n
    → All (λ row. length row ≡ n) rows
    → All (Fits (widen_all ws rows)) rows
unfolding widen_all
widen_all-Fits n ws [] e h = tt
widen_all-Fits n ws (row ∷ rows) e h = (
  Fits-widen_all (widen ws row) rows row (widen-Fits ws row (h.0 ∙ sym e)),
  widen_all-Fits n (widen ws row) rows (length-widen ws row ∙ e) h.1,
)

headers-Fits : (hs : List Text) → Fits (map length hs) hs
headers-Fits [] = tt
headers-Fits (h ∷ hs) = (omega arith, headers-Fits hs)

length-map-length : (hs : List Text) → length (map length hs) ≡ length hs
length-map-length [] = refl
length-map-length (h ∷ hs) = ap suc (length-map-length hs)

-- In a table as its methods build it, the headers and every row fit the widths that print computes.
pub widths-Fits : {t : Table} → Built t → All (Fits (widths t)) (t.headers ∷ t.rows)
unfolding widths
widths-Fits {t} b =
    let i = Built-IsRectangular b in
    (
      Fits-widen_all (map length t.headers) t.rows t.headers (headers-Fits t.headers),
      widen_all-Fits (length t.headers) (map length t.headers) t.rows (length-map-length t.headers)
          i.cells,
    )
