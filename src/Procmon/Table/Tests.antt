-- ===== src/Procmon/Table/Tests.antt =====
-- A table of two columns, the second right-aligned, with two rows.
use linux_internals.Procmon.Table.Columns.{indent, start, print-columns}
use linux_internals.Procmon.Table.Widths.{Built, made, added, aligned}
use linux_internals.Procmon.Table.{
  Table, table, resize, add_row, set_right, right_align, widen, widen_all, widths, pad, emit_cell,
  emit_cells, emit, total_width, emit_all, rule, print,
}
use linux_internals.Prelude.{◌+◌, ◌≤◌, ◌≡◌, refl, true, [], ◌∷◌, arith, take, drop, codes}

abbrev size_table : Table
size_table =
    add_row (codes "heap" ∷ codes "132" ∷ [])
      (add_row (codes "a" ∷ []) (right_align 1 (table (codes "name" ∷ codes "kb" ∷ []))))

size_table-Built : Built size_table
size_table-Built = added _ (added _ (aligned 1 (made _)))

size_table_printed : print size_table ≡ codes "name   kb\n---------\na        \nheap  132\n"
unfolding print emit emit_all emit_cells emit_cell rule total_width widths widen_all widen pad
    add_row right_align set_right table resize
size_table_printed = refl

-- The second column of the row "heap", "132".
print-columns_example :
    (3 ≤ 3)
    × (take 3 (
          drop
            (start (widths size_table) 1 + indent 3 true (codes "132"))
            (emit (widths size_table) size_table.right (codes "heap" ∷ codes "132" ∷ [])))
        ≡ codes "132")
unfolding widths widen_all widen add_row right_align set_right table resize total_width
print-columns_example =
    print-columns 2 1 size_table-Built (omega arith, (omega arith, tt)) refl
      (record { width = refl; alignment = refl; cell = refl })
