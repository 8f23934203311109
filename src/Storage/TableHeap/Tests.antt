-- ===== src/Storage/TableHeap/Tests.antt =====
-- Tests of the table heap on a pool of four frames.
use dis_minisql.Prelude.{◌≡◌, refl, Bool, true, false, Option, none, some, [], ◌>>=◌}
use dis_minisql.Memory.{write_bytes, uint32_bytes}
use dis_minisql.Storage.Disk
use dis_minisql.Buffer.Lru.Instance.{lru}
use dis_minisql.Buffer.Pool.{init}
use dis_minisql.Buffer.Pool.Tests as PoolTests
use dis_minisql.Buffer.Pool.Tests.{LruPool}
use dis_minisql.Page.TreePage.{RowId}
use dis_minisql.Page.FreeSpaceMapPage.{new_pair, find_fit, find_pair, set_pair_space, init_map}
use dis_minisql.Page.TablePage
use dis_minisql.Page.TablePage.{
  set32, empty_slot, enter_tuple, place_tuple, replace_tuple, move_bytes, adjust_offsets,
}
use dis_minisql.Record.Row
use dis_minisql.Storage.FreeSpaceMap.{
  create, set_new_pair, get_begin, set_free_space, walk, settle, seek,
}
use dis_minisql.Storage.TableHeap.{
  update_page, TableHeap, create_heap, insert_tuple, update_tuple, get_tuple, row_at, insert_from,
}

abbrev pool4 : LruPool
pool4 = init lru 4 Disk.init

abbrev made : Option (TableHeap × LruPool)
made = create_heap lru 2 pool4 [] 0 none

-- A row without columns is put on page 0. Its update is done, and the answer is false.
abbrev rid : RowId
rid = record { page_id = some 0; slot_num = 0 }

abbrev scenario : Option (Bool × Bool)
scenario = do
  (t, b) ← made
  (entered, _, t', b') ← insert_tuple lru 1 1 t b (row_at rid)
  (updated, _) ← update_tuple lru 1 t' b' (row_at rid) rid
  some (entered, updated)

scenario_test : scenario ≡ some (true, false)
unfolding PoolTests.program create_heap insert_tuple insert_from update_tuple update_page get_tuple
    create set_new_pair get_begin set_free_space walk settle seek new_pair find_fit find_pair
    set_pair_space init_map set32 write_bytes uint32_bytes TablePage.init TablePage.insert_tuple
    empty_slot enter_tuple place_tuple TablePage.get_tuple TablePage.update_tuple replace_tuple
    move_bytes adjust_offsets Row.deserialize_from Row.read_fields Row.get_serialized_size
    Row.fields_size Row.row_bytes Row.null_bitmap_from Row.fields_bytes
scenario_test = refl
