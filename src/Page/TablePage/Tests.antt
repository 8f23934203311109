-- ===== src/Page/TablePage/Tests.antt =====
-- Tests of the table page: its theorems at a new page and at a page with one row.
use dis_minisql.Prelude.{
  ℕ, ◌+◌, ◌-◌, ◌^◌, ◌<◌, ◌≡◌, ◌≢◌, ◌⊎◌, refl, sym, ap, ◌∙◌, true, false, Option, none, some, List,
  [], ◌∷◌, length, ◌==◌, if◌then◌else◌, arith,
}
use dis_minisql.Storage.Disk.{Bytes}
use dis_minisql.Memory.{read_bytes}
use dis_minisql.Page.TreePage.{RowId, same_page}
use dis_minisql.Record.Field
use dis_minisql.Record.Field.{Field, int_field}
use dis_minisql.Record.Row
use dis_minisql.Record.Row.{Row, Fits, fields_size, fields_bytes, null_bitmap_from}
use dis_minisql.Page.TablePage.{
  init, insert_tuple, update_tuple, get_tuple, mark_delete, rollback_delete, apply_delete,
  place_tuple, get_next_tuple_rid, get_table_page_id, get_tuple_offset, get_tuple_size,
  get_free_space_pointer, get_free_space_remaining, page_id_of,
}
use dis_minisql.Page.TablePage.View.{tuple_at, IsValid, extent}
use dis_minisql.Page.TablePage.Rows.{slot_of, with_rid, insert_tuple-place, insert_tuple-Inserts}
use dis_minisql.Page.TablePage.Lookup.{get_tuple-insert_tuple}
use dis_minisql.Page.TablePage.Marking.{rollback_delete-mark_delete}
use dis_minisql.Page.TablePage.Deletion.Compaction.{apply_delete-compacts}
use dis_minisql.Page.TablePage.Scan.{
  init_empty, init_count, init_pointer, init_id, get_next_tuple_rid-scans,
}
use dis_minisql.Page.TablePage.Samples.{
  zeros, empty, schema, row, tuple, row_bytes_test, row_size, row-Fits, empty-IsValid, filled,
  filled-Placed, filled_count, filled-IsValid, filled-tuple,
}
use dis_minisql.Page.TablePage.Update.Rows.{update_tuple-Updates}

insert_tuple-Inserts_example :
    ((n : ℕ) × ((Row.get_serialized_size row schema ≡ some n)
        × ((get_free_space_remaining empty < n + 8)
            × (insert_tuple empty row schema ≡ some (false, (empty, row))))))
    ⊎ ((tuple : List ℕ) × ((q : Bytes) × ((i : ℕ) × ((Row.row_bytes row schema ≡ some tuple)
              × ((insert_tuple empty row schema
                    ≡ some (
                      true,
                      (
                        q,
                        record row {
                          rid = record { page_id = get_table_page_id empty; slot_num = i };
                        },
                      ),
                    ))
                  × (IsValid q
                      × ((tuple_at empty i ≡ none)
                          × ((j : ℕ)
                              → tuple_at q j
                                ≡ (if j == i then some tuple else tuple_at empty j)))))))))
insert_tuple-Inserts_example =
    insert_tuple-Inserts empty row schema empty-IsValid row-Fits (omega arith)

-- What InsertTuple makes of the page.
abbrev inserted : Bytes
inserted = place_tuple empty (slot_of empty) (length tuple) tuple

abbrev placed : Row
placed = with_rid row (get_table_page_id inserted) (slot_of empty)

inserted_lem : insert_tuple empty row schema ≡ some (true, (inserted, placed))
inserted_lem =
    insert_tuple-place empty row schema tuple row_size row_bytes_test (λ e. omega (arith, e))
      (omega (arith, init_count zeros 3 (2 ^ 32 - 1), init_pointer zeros 3 (2 ^ 32 - 1)))

empty_id : get_table_page_id empty ≢ none
empty_id e = some_none (sym (ap page_id_of (init_id zeros 3 (2 ^ 32 - 1) (omega arith))) ∙ e)
  where
    some_none : ◌≡◌ {A = Option ℕ} (some 3) none → ⊥
    some_none e = cc

abbrev found : Row
found = record { rid = placed.rid; fields = [] }

get_tuple-insert_tuple_example :
    get_tuple inserted found schema ≡ some (true, record found { fields = row.fields })
get_tuple-insert_tuple_example =
    get_tuple-insert_tuple empty inserted row placed found schema empty-IsValid empty_id row-Fits
      (omega arith) inserted_lem refl

rollback_delete-mark_delete_example :
    (q : Bytes) × ((r : Bytes) × ((mark_delete filled 0 ≡ (true, q))
        × (IsValid q
            × ((tuple_at q 0 ≡ none)
                × (((j : ℕ) → j ≢ 0 → tuple_at q j ≡ tuple_at filled j)
                    × ((rollback_delete q 0 ≡ some r)
                        × (IsValid r × ((j : ℕ) → tuple_at r j ≡ tuple_at filled j))))))))
rollback_delete-mark_delete_example =
    rollback_delete-mark_delete filled 0 tuple filled-IsValid filled-tuple

apply_delete-compacts_example :
    (q : Bytes) × ((apply_delete filled 0 ≡ some q)
      × (IsValid q
          × ((get_free_space_pointer q ≡ get_free_space_pointer filled + extent filled 0)
              × ((j : ℕ) → tuple_at q j ≡ (if j == 0 then none else tuple_at filled j)))))
apply_delete-compacts_example =
    apply_delete-compacts filled 0 filled-IsValid (omega (arith, filled_count))
      (λ e. omega (arith, e, filled-Placed.size_here))

abbrev first_rid : RowId
first_rid = record { page_id = get_table_page_id filled; slot_num = 0 }

get_next_tuple_rid-scans_example :
    ((k : ℕ) × ((get_next_tuple_rid filled first_rid
          ≡ some (true, record { page_id = get_table_page_id filled; slot_num = k }))
        × ((0 < k)
            × ((tuple_at filled k
                  ≡ some (read_bytes filled (get_tuple_offset filled k) (get_tuple_size filled k)))
                × ((j : ℕ) → 0 < j → j < k → tuple_at filled j ≡ none)))))
    ⊎ ((get_next_tuple_rid filled first_rid ≡ some (false, record { page_id = none; slot_num = 0 }))
        × ((j : ℕ) → 0 < j → tuple_at filled j ≡ none))
get_next_tuple_rid-scans_example =
    get_next_tuple_rid-scans filled first_rid (same_self (get_table_page_id filled)) (omega arith)
  where
    same_self : (id : Option ℕ) → same_page id id ≡ true
    same_self none = refl
    same_self (some k) = ground arith

init_empty_example :
    IsValid (init zeros 3 (2 ^ 32 - 1)) × ((i : ℕ) → tuple_at (init zeros 3 (2 ^ 32 - 1)) i ≡ none)
init_empty_example = init_empty zeros 3 (2 ^ 32 - 1)

-- The row of slot 0, and a row to put in its place.
abbrev current : Row
current = record { rid = record { page_id = some 3; slot_num = 0 }; fields = [] }

abbrev other_row : Row
other_row = record {
  rid = record { page_id = none; slot_num = 0 };
  fields = int_field (some 9) ∷ [];
}

update_tuple-Updates_example :
    ((n : ℕ) × ((Row.get_serialized_size other_row schema ≡ some n)
        × ((get_free_space_remaining filled + length tuple < n)
            × (update_tuple filled other_row current schema ≡ some (false, (filled, current))))))
    ⊎ ((tuple : List ℕ) × ((q : Bytes) × ((Row.row_bytes other_row schema ≡ some tuple)
            × ((update_tuple filled other_row current schema
                  ≡ some (true, (q, record current { fields = row.fields })))
                × (IsValid q
                    × ((j : ℕ)
                        → tuple_at q j ≡ (
                            if j == current.rid.slot_num
                            then some tuple
                            else tuple_at filled j)))))))
unfolding Fits Field.IsValid
update_tuple-Updates_example =
    update_tuple-Updates filled other_row current row schema tuple filled-IsValid refl row-Fits
      (omega arith) row_bytes_test filled-tuple (refl, (omega arith, tt)) (omega arith)
