-- ===== src/Page/TablePage.antt =====
-- page/table_page.cpp and include/page/table_page.h: the slotted page of a table, on its bytes. A
-- `uint32_t` wraps; `none` is a failed assertion.
pub mod Access
pub mod View
pub mod Placement
pub mod Insertion
pub mod Rows
pub mod Lookup
pub mod Marking
pub mod Shifting
pub mod Deletion
pub mod Update
pub mod Scan
mod Samples
mod Tests
use dis_minisql.Prelude.{
  ℕ, zero, suc, ◌+◌, ◌-◌, ◌*◌, ◌/◌, ◌%◌, ◌^◌, Bool, true, false, not, ◌&&◌, ◌||◌, Option, none,
  some, List, length, ltb, leb, ◌==◌, ◌>>=◌, if◌then◌else◌,
}
use dis_minisql.Storage.Disk.{Bytes, le32}
use dis_minisql.Memory.{uint32_bytes, write_bytes}
use dis_minisql.Page.TreePage.{RowId, same_page}
use dis_minisql.Record.Schema.{Schema}
use dis_minisql.Record.Row
use dis_minisql.Record.Row.{Row}

abbrev pub table_page_size : ℕ
table_page_size = 4096

-- A 32-bit field at an offset, and `int` as it stands there; INVALID_PAGE_ID is -1.
unfoldable pub set32 : Bytes → ℕ → ℕ → Bytes
set32 p o x = write_bytes p o (uint32_bytes x)

abbrev pub invalid_page : ℕ
invalid_page = 2 ^ 32 - 1

-- The id as it stands in a page.
abbrev pub word_of : Option ℕ → ℕ
word_of none = invalid_page
word_of (some p) = p

abbrev pub page_id_of : ℕ → Option ℕ
page_id_of w = if w == invalid_page then none else some w

abbrev pub get_table_page_id : Bytes → Option ℕ
get_table_page_id p = page_id_of (le32 p 0)

abbrev pub get_prev_page_id : Bytes → Option ℕ
get_prev_page_id p = page_id_of (le32 p 8)

abbrev pub get_next_page_id : Bytes → Option ℕ
get_next_page_id p = page_id_of (le32 p 12)

abbrev pub get_free_space_pointer : Bytes → ℕ
get_free_space_pointer p = le32 p 16

abbrev pub get_tuple_count : Bytes → ℕ
get_tuple_count p = le32 p 20

abbrev pub get_tuple_offset : Bytes → ℕ → ℕ
get_tuple_offset p slot_num = le32 p (24 + 8 * slot_num)

abbrev pub get_tuple_size : Bytes → ℕ → ℕ
get_tuple_size p slot_num = le32 p (28 + 8 * slot_num)

abbrev pub set_prev_page_id : Bytes → ℕ → Bytes
set_prev_page_id p prev_page_id = set32 p 8 prev_page_id

abbrev pub set_next_page_id : Bytes → ℕ → Bytes
set_next_page_id p next_page_id = set32 p 12 next_page_id

abbrev pub set_free_space_pointer : Bytes → ℕ → Bytes
set_free_space_pointer p free_space_pointer = set32 p 16 free_space_pointer

abbrev pub set_tuple_count : Bytes → ℕ → Bytes
set_tuple_count p tuple_count = set32 p 20 tuple_count

abbrev pub set_tuple_offset : Bytes → ℕ → ℕ → Bytes
set_tuple_offset p slot_num offset = set32 p (24 + 8 * slot_num) offset

abbrev pub set_tuple_size : Bytes → ℕ → ℕ → Bytes
set_tuple_size p slot_num size = set32 p (28 + 8 * slot_num) size

-- The mark of a deleted tuple is the highest bit of its size.
abbrev pub is_deleted : ℕ → Bool
is_deleted tuple_size = leb (2 ^ 31) tuple_size || tuple_size == 0

abbrev pub set_deleted_flag : ℕ → ℕ
set_deleted_flag tuple_size = tuple_size % 2 ^ 31 + 2 ^ 31

abbrev pub unset_deleted_flag : ℕ → ℕ
unset_deleted_flag tuple_size = tuple_size % 2 ^ 31

-- The differences are of type `size_t`, and their result is cut to 32 bits.
abbrev pub get_free_space_remaining : Bytes → ℕ
get_free_space_remaining p =
    (get_free_space_pointer p + 2 ^ 64 - 24 - 8 * get_tuple_count p) % 2 ^ 32

abbrev pub get_free_space : Bytes → ℕ
get_free_space p = (get_free_space_pointer p + 2 ^ 64 - 24 - 8 * get_tuple_count p - 8) % 2 ^ 32

unfoldable pub init : Bytes → ℕ → ℕ → Bytes
init p page_id prev_id =
    set_tuple_count
      (set_free_space_pointer
        (set_next_page_id (set_prev_page_id (set32 p 0 page_id) prev_id) invalid_page)
        table_page_size)
      0

-- The first of the next `n` slots, from `i` on, with a size of 0, or the slot behind them.
unfoldable pub empty_slot : Bytes → ℕ → ℕ → ℕ
empty_slot p i zero = i
empty_slot p i (suc n) =
    let rest = empty_slot p (i + 1) n in if get_tuple_size p i == 0 then i else rest

-- The tuple is written at a free space pointer and entered in a slot.
unfoldable pub enter_tuple : Bytes → ℕ → ℕ → ℕ → List ℕ → Bytes
enter_tuple p i at serialized_size tuple =
    let written = write_bytes (set_free_space_pointer p at) at tuple in
    set_tuple_size (set_tuple_offset written i at) i serialized_size

-- The end of `InsertTuple`: the tuple is entered below the others, and a new slot counted.
unfoldable pub place_tuple : Bytes → ℕ → ℕ → List ℕ → Bytes
place_tuple p i serialized_size tuple =
    let at = (get_free_space_pointer p + 2 ^ 32 - serialized_size) % 2 ^ 32 in
    let entered = enter_tuple p i at serialized_size tuple in
    if i == get_tuple_count entered then set_tuple_count entered (i + 1) else entered

-- Whether the row was inserted, the page and the row with its id. The second test of the room
-- repeats the first.
unfoldable pub insert_tuple : Bytes → Row → Schema → Option (Bool × (Bytes × Row))
insert_tuple p row schema = Row.get_serialized_size row schema >>= λ serialized_size.
    if serialized_size == 0
    then none
    else if ltb (get_free_space_remaining p) (serialized_size + 8)
    then some (false, (p, row))
    else (Row.row_bytes row schema >>= λ tuple.
        let i = empty_slot p 0 (get_tuple_count p) in
        let placed = place_tuple p i serialized_size tuple in
        if length tuple == serialized_size
        then some (
          true,
          (
            placed,
            record row { rid = record { page_id = get_table_page_id placed; slot_num = i } },
          ),
        )
        else none)

pub mark_delete : Bytes → ℕ → Bool × Bytes
mark_delete p slot_num =
    let tuple_size = get_tuple_size p slot_num in
    if leb (get_tuple_count p) slot_num || is_deleted tuple_size
    then (false, p)
    else (true, set_tuple_size p slot_num (set_deleted_flag tuple_size))

pub rollback_delete : Bytes → ℕ → Option Bytes
rollback_delete p slot_num =
    let tuple_size = get_tuple_size p slot_num in
    if not (ltb slot_num (get_tuple_count p))
    then none
    else if is_deleted tuple_size
    then some (set_tuple_size p slot_num (unset_deleted_flag tuple_size))
    else some p

-- `memmove`.
unfoldable pub move_bytes : Bytes → ℕ → ℕ → ℕ → Bytes
move_bytes p to from n i = if leb to i && ltb i (to + n) then p (i - to + from) else p i

-- The loops over the next `n` slots from `i` on that give the tuples which pass a test a new offset.
unfoldable pub adjust_offsets : Bytes → ℕ → ℕ → (ℕ → ℕ → Bool) → (ℕ → ℕ) → Bytes
adjust_offsets p i zero test target = p
adjust_offsets p i (suc n) test target =
    let o = get_tuple_offset p i in
    adjust_offsets (if test (get_tuple_size p i) o then set_tuple_offset p i (target o) else p)
      (i + 1) n test target

-- The loop of `ApplyDelete`.
abbrev pub shift_offsets : Bytes → ℕ → ℕ → Bytes
shift_offsets p tuple_offset tuple_size =
    adjust_offsets p 0 (get_tuple_count p) (λ size o. not (size == 0) && ltb o tuple_offset)
      λ o. (o + tuple_size) % 2 ^ 32

pub apply_delete : Bytes → ℕ → Option Bytes
apply_delete p slot_num =
    let tuple_offset = get_tuple_offset p slot_num in
    let marked = get_tuple_size p slot_num in
    let tuple_size = if is_deleted marked then unset_deleted_flag marked else marked in
    let free_space_pointer = get_free_space_pointer p in
    if not (ltb slot_num (get_tuple_count p)) || ltb tuple_offset free_space_pointer
    then none
    else let moved =
        move_bytes p (free_space_pointer + tuple_size) free_space_pointer
          (tuple_offset - free_space_pointer) in
      let freed = set_free_space_pointer moved ((free_space_pointer + tuple_size) % 2 ^ 32) in
      let cleared = set_tuple_offset (set_tuple_size freed slot_num 0) slot_num 0 in
      some (shift_offsets cleared tuple_offset tuple_size)

-- `GetRowId().Get() == INVALID_ROWID.Get()`.
abbrev pub is_invalid : RowId → Bool
is_invalid rid = elim rid.page_id [ none ↦ rid.slot_num == 0 | some _ ↦ false ]

-- Whether the tuple is there, and the row with its fields.
unfoldable pub get_tuple : Bytes → Row → Schema → Option (Bool × Row)
get_tuple p row schema =
    let slot_num = row.rid.slot_num in
    let tuple_size = get_tuple_size p slot_num in
    if is_invalid row.rid
    then none
    else if leb (get_tuple_count p) slot_num || is_deleted tuple_size
    then some (false, row)
    else do
      (found, read) ← Row.deserialize_from row p (get_tuple_offset p slot_num) schema
      (if read == tuple_size then some (true, found) else none)

-- The first of the next `n` slots from `i` on that is not deleted.
unfoldable pub valid_slot : Bytes → ℕ → ℕ → Option ℕ
valid_slot p i zero = none
valid_slot p i (suc n) =
    let rest = valid_slot p (i + 1) n in if is_deleted (get_tuple_size p i) then rest else some i

abbrev pub rid_at : Bytes → Option ℕ → Bool × RowId
rid_at p none = (false, record { page_id = none; slot_num = 0 })
rid_at p (some i) = (true, record { page_id = get_table_page_id p; slot_num = i })

unfoldable pub get_first_tuple_rid : Bytes → Bool × RowId
get_first_tuple_rid p = rid_at p (valid_slot p 0 (get_tuple_count p))

unfoldable pub get_next_tuple_rid : Bytes → RowId → Option (Bool × RowId)
get_next_tuple_rid p cur_rid =
    let start = (cur_rid.slot_num + 1) % 2 ^ 32 in
    if same_page cur_rid.page_id (get_table_page_id p)
    then some (rid_at p (valid_slot p start (get_tuple_count p - start)))
    else none

-- The loop of `UpdateTuple`.
abbrev pub update_offsets : Bytes → ℕ → ℕ → ℕ → Bytes
update_offsets p tuple_offset tuple_size serialized_size =
    adjust_offsets p 0 (get_tuple_count p)
      (λ size o. ltb 0 size && ltb o ((tuple_offset + tuple_size) % 2 ^ 32))
      λ o. (o + tuple_size + 2 ^ 32 - serialized_size) % 2 ^ 32

-- The end of `UpdateTuple`: the tuples below are moved, and the new tuple is written.
unfoldable pub replace_tuple : Bytes → ℕ → ℕ → List ℕ → Bytes
replace_tuple p slot_num serialized_size tuple =
    let tuple_size = get_tuple_size p slot_num in
    let tuple_offset = get_tuple_offset p slot_num in
    let free_space_pointer = get_free_space_pointer p in
    let at = (free_space_pointer + tuple_size + 2 ^ 32 - serialized_size) % 2 ^ 32 in
    let moved = move_bytes p at free_space_pointer (tuple_offset - free_space_pointer) in
    let freed = set_free_space_pointer moved at in
    let written = write_bytes freed (tuple_offset + tuple_size - serialized_size) tuple in
    let sized = set_tuple_size written slot_num serialized_size in
    update_offsets sized tuple_offset tuple_size serialized_size

-- Whether the tuple was updated, the page and the old row with its fields.
unfoldable pub update_tuple : Bytes → Row → Row → Schema → Option (Bool × (Bytes × Row))
update_tuple p new_row old_row schema =
    let slot_num = old_row.rid.slot_num in
    let tuple_size = get_tuple_size p slot_num in
    let tuple_offset = get_tuple_offset p slot_num in
    Row.get_serialized_size new_row schema >>= λ serialized_size.
    if is_invalid old_row.rid || serialized_size == 0
    then none
    else if leb (get_tuple_count p) slot_num || is_deleted tuple_size
    then some (false, (p, old_row))
    else if ltb ((get_free_space_remaining p + tuple_size) % 2 ^ 32) serialized_size
    then some (false, (p, old_row))
    else (Row.deserialize_from old_row p tuple_offset schema >>= λ (old, read_bytes).
        if not (read_bytes == tuple_size) || ltb tuple_offset (get_free_space_pointer p)
        then none
        else (Row.row_bytes new_row schema >>= λ tuple.
            some (true, (replace_tuple p slot_num serialized_size tuple, old))))
