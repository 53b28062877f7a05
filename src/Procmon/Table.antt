-- ===== src/Procmon/Table.antt =====
-- class Table of procmon/src/format.cpp: rows of cells under headers, printed in columns.
pub mod Widths
pub mod Columns
mod Tests
use linux_internals.Prelude.{
  ℕ, zero, suc, ◌+◌, ◌-◌, ◌%◌, ◌^◌, Bool, true, false, List, [], ◌∷◌, ◌++◌, map, ltb, if◌then◌else◌,
  length, replicate, Text, codes,
}

pub record Table : Type 0 where
  pub headers : List Text
  pub right : List Bool
  pub rows : List (List Text)

unfoldable pub table : List Text → Table
table headers = record { headers = headers; right = map (λ h. false) headers; rows = [] }

-- std::vector's resize: cut off, or filled up with empty cells.
unfoldable pub resize : ℕ → List Text → List Text
resize zero cells = []
resize (suc n) [] = [] ∷ resize n []
resize (suc n) (c ∷ cells) = c ∷ resize n cells

unfoldable pub add_row : List Text → Table → Table
add_row cells t = record t { rows = t.rows ++ (resize (length t.headers) cells ∷ []) }

-- A column past the last is ignored.
unfoldable pub set_right : ℕ → List Bool → List Bool
set_right column [] = []
set_right zero (r ∷ right) = true ∷ right
set_right (suc column) (r ∷ right) = r ∷ set_right column right

unfoldable pub right_align : ℕ → Table → Table
right_align column t = record t { right = set_right column t.right }

-- The inner loop over a row. A row has no more cells than there are widths.
unfoldable pub widen : List ℕ → List Text → List ℕ
widen [] cells = []
widen (w ∷ ws) [] = w ∷ ws
widen (w ∷ ws) (c ∷ cells) = (if ltb w (length c) then length c else w) ∷ widen ws cells

unfoldable pub widen_all : List ℕ → List (List Text) → List ℕ
widen_all ws [] = ws
widen_all ws (row ∷ rows) = widen_all (widen ws row) rows

unfoldable pub widths : Table → List ℕ
widths t = widen_all (map length t.headers) t.rows

-- widths[i] - cells[i].size(), in size_t.
unfoldable pub pad : ℕ → Text → ℕ
pad w c = (w + 2 ^ 64 - length c) % 2 ^ 64

abbrev pub spaces : ℕ → Text
spaces n = replicate n 32

-- One cell of emit; `last` is i + 1 == cells.size().
unfoldable pub emit_cell : ℕ → Bool → Bool → Text → Text
emit_cell w true last c = spaces (pad w c) ++ c
emit_cell w false true c = c
emit_cell w false false c = c ++ spaces (pad w c)

-- The loop of emit over the cells, with their widths and alignments.
unfoldable pub emit_cells : List ℕ → List Bool → List Text → Text
emit_cells (w ∷ ws) (r ∷ rs) (c ∷ d ∷ cells) =
    emit_cell w r false c ++ (spaces 2 ++ emit_cells ws rs (d ∷ cells))
emit_cells (w ∷ ws) (r ∷ rs) (c ∷ []) = emit_cell w r true c
emit_cells ws rs cells = []

unfoldable pub emit : List ℕ → List Bool → List Text → Text
emit ws rs cells = emit_cells ws rs cells ++ codes "\n"

unfoldable pub total_width : List ℕ → ℕ
total_width [] = 0
total_width (w ∷ ws) = w + 2 + total_width ws

unfoldable pub emit_all : List ℕ → List Bool → List (List Text) → Text
emit_all ws rs [] = []
emit_all ws rs (row ∷ rows) = emit ws rs row ++ emit_all ws rs rows

unfoldable pub rule : ℕ → Text
rule total = replicate (if ltb 2 total then total - 2 else 0) 45 ++ codes "\n"

unfoldable pub print : Table → Text
print t =
    let ws = widths t in
    emit ws t.right t.headers ++ (rule (total_width ws) ++ emit_all ws t.right t.rows)
