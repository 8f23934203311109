-- ===== src/Storage/FreeSpaceMap/Tests.antt =====
-- Tests of the free space map, and its theorem, on a pool of one frame.
use dis_minisql.Prelude.{◌>>=◌, ℕ, ◌<◌, ◌≡◌, refl, Option, none, some, arith}
use dis_minisql.Memory.{write_bytes, uint32_bytes}
use dis_minisql.Buffer.Lru.Instance.{lru}
use dis_minisql.Buffer.Pool.{fetch_page}
use dis_minisql.Buffer.Pool.Tests as PoolTests
use dis_minisql.Buffer.Pool.Tests.{LruPool, pool_of, loaded, loaded_test, start}
use dis_minisql.Page.FreeSpaceMapPage.{
  get_pair_count, get_pair_space, new_pair, find_fit, find_pair, set_pair_space, init_map,
  size_max_pair,
}
use dis_minisql.Page.TablePage.{set32}
use dis_minisql.Storage.FreeSpaceMap.{
  FreeSpaceMap, create, set_new_pair, get_begin, set_free_space, walk, settle, seek,
}
use dis_minisql.Buffer.Pool.Access.{bytes_of}
use dis_minisql.Storage.FreeSpaceMap.Search.{Fits, at_pair, get_begin-Fits}
use dis_minisql.Storage.FreeSpaceMap.Pair.{set_new_pair-is_dirty}

-- The map over page 0, which is read as zero.
abbrev fresh : FreeSpaceMap
fresh = record {
  first_page_id = some 0;
  last_page_id = none;
  internal_index = 0;
  page_index = none;
}

empty_page : get_pair_count (bytes_of lru loaded 0) ≡ 0
unfolding PoolTests.program
empty_page = refl

room : get_pair_count (bytes_of lru loaded 0) < size_max_pair
room = omega (arith, empty_page)

-- The map made over page 0, with the pages 7 and 9 of 100 and 50 bytes.
abbrev built : Option (FreeSpaceMap × LruPool)
built = do
  (m0, b0) ← create lru start (some 0) 0 none
  (m1, b1) ← set_new_pair lru 1 m0 b0 (some 7) 100
  set_new_pair lru 1 m1 b1 (some 9) 50

abbrev filled : FreeSpaceMap × LruPool
filled = elim built [ none ↦ (fresh, start) | some x ↦ x ]

-- Page 7 with 100 bytes is found for 60 bytes. When 40 are left no page has room, and the last page
-- of the table, 9, is given out.
abbrev page_for : ℕ → FreeSpaceMap → LruPool → Option ℕ
page_for need_space m b = elim (get_begin lru 1 m b need_space) [ none ↦ none | some (p, _, _) ↦ p ]

abbrev settled : FreeSpaceMap → LruPool → LruPool
settled m b = elim (set_free_space lru 1 m b (some 7) 40) [ none ↦ b | some (_, b') ↦ b' ]

abbrev scenario : Option ℕ × Option ℕ
scenario = let (m, b) = filled in (page_for 60 m b, page_for 60 m (settled m b))

scenario_test : scenario ≡ (some 7, some 9)
unfolding PoolTests.program create set_new_pair get_begin set_free_space walk settle seek new_pair
    find_fit find_pair set_pair_space init_map set32 write_bytes uint32_bytes
scenario_test = refl

set_new_pair-is_dirty_example :
    (b2 : LruPool) × ((set_new_pair lru 1 fresh start (some 7) 100
        ≡ some (record fresh { last_page_id = some 7 }, b2))
      × ((bytes_of lru b2 0 ≡ (new_pair (bytes_of lru loaded 0) 7 100).0)
          × ((b2.pages 0).is_dirty ≡ (loaded.pages 0).is_dirty)))
set_new_pair-is_dirty_example =
    set_new_pair-is_dirty lru 0 fresh start loaded (some 7) 100 0 loaded_test room

abbrev fetched : LruPool
fetched = pool_of filled.1 (fetch_page lru filled.1 filled.0.first_page_id)

filled_page :
    (fetch_page lru filled.1 filled.0.first_page_id ≡ some (some 0, fetched))
    × ((get_pair_count (bytes_of lru fetched 0) ≡ 2)
        × (get_pair_space (bytes_of lru fetched 0) 1 ≡ 50))
unfolding PoolTests.program create set_new_pair walk new_pair set_pair_space init_map set32
    write_bytes uint32_bytes
filled_page = (refl, (refl, refl))

get_begin-Fits_example :
    (k : ℕ) × (Fits (bytes_of lru fetched 0) 40 0 k
      × (get_begin lru 1 filled.0 filled.1 40 ≡ some (at_pair lru filled.0 fetched 0 k)))
get_begin-Fits_example =
    get_begin-Fits lru 0 filled.0 filled.1 fetched 40 0 1 filled_page.0
      (omega (arith, filled_page.1.0)) (omega (arith, filled_page.1.1))
