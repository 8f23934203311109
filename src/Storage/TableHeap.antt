-- ===== src/Storage/TableHeap.antt =====
-- storage/table_heap.cpp: the operations of a table heap over its pages in the buffer pool and the
-- free space map. The fuel is that of the walk along the free space map;
-- `none` is a failed assertion, undefined behaviour or a walk that is out of fuel.
pub mod Update
mod Tests
use dis_minisql.Prelude.{
  ℕ, zero, suc, Bool, true, false, not, ◌&&◌, ◌||◌, Option, none, some, List, [], leb, ltb, ◌==◌,
  ◌>>=◌, if◌then◌else◌,
}
use dis_minisql.Storage.Disk.{Bytes}
use dis_minisql.Buffer.Replacer.{Replacer}
use dis_minisql.Buffer.Pool.{Pool, fetch_page, new_page, unpin_page}
use dis_minisql.Page.TreePage.{RowId}
use dis_minisql.Page.TablePage
use dis_minisql.Page.TablePage.{
  set_next_page_id, invalid_page, get_table_page_id, get_free_space, is_invalid,
}
use dis_minisql.Record.Schema.{Schema}
use dis_minisql.Record.Row
use dis_minisql.Record.Row.{Row}
use dis_minisql.Storage.FreeSpaceMap.{
  FreeSpaceMap, set_free_space, create, set_new_pair, get_begin, get_next,
}
use dis_minisql.Buffer.Pool.Access.{bytes_of, with_bytes, id_of}
use dis_minisql.Page.TablePage.{word_of}

pub record TableHeap : Type 0 where
  pub first_page_id : Option ℕ
  pub schema : Schema
  pub freespace_map : FreeSpaceMap

-- SIZE_MAX_ROW.
abbrev pub size_max_row : ℕ
size_max_row = 4064

-- The row of a row id, before it is read.
abbrev pub row_at : RowId → Row
row_at rid = record { rid = rid; fields = [] }

module _ (R : Replacer) where
  open R use {State}

  abbrev table_page_id : Pool State → ℕ → Option ℕ
  table_page_id b frame = get_table_page_id (bytes_of R b frame)

  -- `SetFreeSpace` of a page, for the room in a frame.
  abbrev pub record_space : ℕ → TableHeap → Pool State → Option ℕ → ℕ → Option (Pool State)
  record_space fuel t b page_id frame =
      set_free_space R fuel t.freespace_map b page_id (get_free_space (bytes_of R b frame))
      >>= λ (_, b'). some b'

  pub mark_delete : ℕ → TableHeap → Pool State → RowId → Option (Bool × Pool State)
  mark_delete fuel t b rid = elim (fetch_page R b rid.page_id) [
    | none ↦ none
    | some (none, b1) ↦ some (false, b1)
    | some (some frame, b1) ↦
        let marked = (TablePage.mark_delete (bytes_of R b1 frame) rid.slot_num).1 in
        let b2 = with_bytes R b1 frame marked in
        (record_space fuel t b2 (id_of R b2 frame) frame >>= λ b3.
        some (true, (unpin_page R b3 (table_page_id b3 frame) true).1))
  ]

  pub apply_delete : ℕ → TableHeap → Pool State → RowId → Option (Pool State)
  apply_delete fuel t b rid = elim (fetch_page R b rid.page_id) [
    | none ↦ none
    | some (none, b1) ↦ some b1
    | some (some frame, b1) ↦ do
      applied ← TablePage.apply_delete (bytes_of R b1 frame) rid.slot_num
      b2 ← record_space fuel t (with_bytes R b1 frame applied) rid.page_id frame
      some (unpin_page R b2 rid.page_id true).1
  ]

  pub rollback_delete : ℕ → TableHeap → Pool State → RowId → Option (Pool State)
  rollback_delete fuel t b rid = elim (fetch_page R b rid.page_id) [
    | none ↦ none
    | some (none, b1) ↦ none
    | some (some frame, b1) ↦ do
      rolled ← TablePage.rollback_delete (bytes_of R b1 frame) rid.slot_num
      b2 ← record_space fuel t (with_bytes R b1 frame rolled) rid.page_id frame
      some (unpin_page R b2 (table_page_id b2 frame) true).1
  ]

  -- Whether the tuple is there, the row with its fields, and the pool.
  pub get_tuple : TableHeap → Pool State → Row → Option (Bool × Row × Pool State)
  get_tuple t b row = elim (fetch_page R b row.rid.page_id) [
    | none ↦ none
    | some (none, b1) ↦ some (false, row, b1)
    | some (some frame, b1) ↦ do
      (found, row') ← TablePage.get_tuple (bytes_of R b1 frame) row t.schema
      some (found, row', (unpin_page R b1 (table_page_id b1 frame) false).1)
  ]

  -- The rest of `UpdateTuple`, with the old row. The answer of the page, a `bool`, is read as a code
  -- that is 0 at a success.
  pub update_page : ℕ → TableHeap → Pool State → ℕ → Row → Row → Option (Bool × Pool State)
  update_page fuel t b frame row ori_row = do
    (updated, (page, _)) ← TablePage.update_tuple (bytes_of R b frame) row ori_row t.schema
    let b1 = with_bytes R b frame page
    b2 ← record_space fuel t b1 (id_of R b1 frame) frame
    some (not updated, (unpin_page R b2 (table_page_id b2 frame) (not updated)).1)

  pub update_tuple : ℕ → TableHeap → Pool State → Row → RowId → Option (Bool × Pool State)
  update_tuple fuel t b row rid =
      if is_invalid rid then some (false, b) else elim (fetch_page R b rid.page_id) [
        | none ↦ none
        | some (none, b1) ↦ some (false, b1)
        | some (some frame, b1) ↦
            (get_tuple t b1 (row_at rid) >>= λ (found, ori_row, b2).
            if found
            then update_page fuel t b2 frame row ori_row
            else some (false, (unpin_page R b2 (table_page_id b2 frame) false).1))
      ]

  -- The row enters a new page, which is linked to the frame of the page before it. That page was
  -- unpinned, and its frame may be that of the new page.
  pub append_row :
      ℕ → TableHeap → Pool State → Option ℕ → Row → Option (Bool × Row × TableHeap × Pool State)
  append_row fuel t b before row = elim (new_page R b) [
    | none ↦ none
    | some (_, none, b1) ↦ some (false, row, t, b1)
    | some (next, some frame, b1) ↦ do
      let blank = TablePage.init (bytes_of R b1 frame) (word_of next) (prev_id b1 before)
      (_, (page, row')) ← TablePage.insert_tuple blank row t.schema
      let b2 = with_bytes R b1 frame page
      (map, b3) ← set_new_pair R fuel t.freespace_map b2 next (get_free_space page)
      let b4 = (unpin_page R b3 next true).1
      some (true, row', record t { freespace_map = map }, link b4 before next)
  ]
    where
      prev_id : Pool State → Option ℕ → ℕ
      prev_id b none = invalid_page
      prev_id b (some f) = word_of (id_of R b f)

      link : Pool State → Option ℕ → Option ℕ → Pool State
      link b none next = b
      link b (some f) next =
          let linked = with_bytes R b f (set_next_page_id (bytes_of R b f) (word_of next)) in
          (unpin_page R linked (id_of R linked f) true).1

  -- The loop of `InsertTuple`, at the next page and the frame of the page before it.
  unfoldable pub insert_from :
      ℕ
      → ℕ
      → TableHeap
      → Pool State
      → ℕ
      → Option ℕ
      → Option ℕ
      → Row
      → Option (Bool × Row × TableHeap × Pool State)
  insert_from zero fuel t b need_space next before row = none
  insert_from (suc pages) fuel t b need_space none before row = append_row fuel t b before row
  insert_from (suc pages) fuel t b need_space (some id) before row =
      elim (fetch_page R b (some id)) [
        | none ↦ none
        | some (none, b1) ↦ some (false, row, t, b1)
        | some (some frame, b1) ↦ do
          (entered, (page, row')) ← TablePage.insert_tuple (bytes_of R b1 frame) row t.schema
          let b2 = with_bytes R b1 frame page
          let done = record_space fuel t b2 (some id) frame >>= λ b3.
              some (true, row', t, (unpin_page R b3 (some id) true).1)
          let onward =
              get_next R fuel t.freespace_map (unpin_page R b2 (some id) false).1 need_space
              >>= λ (next, map, b3).
                  insert_from pages fuel (record t { freespace_map = map }) b3 need_space next
                    (some frame) row'
          (if entered then done else onward)
      ]

  pub insert_tuple :
      ℕ → ℕ → TableHeap → Pool State → Row → Option (Bool × Row × TableHeap × Pool State)
  insert_tuple pages fuel t b row = Row.get_serialized_size row t.schema >>= λ need_space.
      if ltb size_max_row need_space
      then some (false, row, t, b)
      else (get_begin R fuel t.freespace_map b need_space >>= λ (next, map, b1).
          insert_from pages fuel (record t { freespace_map = map }) b1 need_space next none row)

  -- The row id that `Begin` starts at; `none` inside is the end.
  pub begin_rid : TableHeap → Pool State → Option (Option RowId × Pool State)
  begin_rid t b = elim (fetch_page R b t.first_page_id) [
    | none ↦ none
    | some (none, b1) ↦ some (none, b1)
    | some (some frame, b1) ↦
        let (found, rid) = TablePage.get_first_tuple_rid (bytes_of R b1 frame) in
        some (if found then some rid else none, (unpin_page R b1 (id_of R b1 frame) false).1)
  ]

  -- The constructor of a new heap. The place of the iterator of the free space map is not set.
  pub create_heap : ℕ → Pool State → Schema → ℕ → Option ℕ → Option (TableHeap × Pool State)
  create_heap fuel b schema internal_index page_index = do
    (first, frame, b1) ← new_framed b
    let page = TablePage.init (bytes_of R b1 frame) (word_of first) invalid_page
    (map_id, map_frame, b2) ← new_framed (with_bytes R b1 frame page)
    (map, b3) ← create R b2 (id_of R b2 map_frame) internal_index page_index
    (map', b4) ← set_new_pair R fuel map b3 first (get_free_space (bytes_of R b3 frame))
    let b5 = (unpin_page R b4 first true).1
    some (
      record { first_page_id = first; schema = schema; freespace_map = map' },
      (unpin_page R b5 (id_of R b5 map_frame) true).1,
    )
    where
      new_framed : Pool State → Option (Option ℕ × ℕ × Pool State)
      new_framed b =
          new_page R b >>= λ (id, frame, b'). elim frame [ none ↦ none | some f ↦ some (id, f, b') ]
