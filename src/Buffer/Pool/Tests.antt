-- ===== src/Buffer/Pool/Tests.antt =====
-- Tests of the buffer pool over the least-recently-used replacer, and its theorems at pools of one
-- frame.
use dis_minisql.Prelude.{
  ℕ, ◌≡◌, if◌then◌else◌, ◌<◌, refl, subst, sym, ap, true, false, ◌==◌, Option, some, none, List, [],
  arith,
}
use dis_minisql.Storage.Disk
use dis_minisql.Storage.Disk.{DiskManager, Bytes, max_valid_page_id, bitmap_size}
use dis_minisql.Storage.Disk.Tests as DiskTests
use dis_minisql.Storage.Disk.Tests.{
  one_page, first_allocation, one_page-IsValid, one_page_used, reach_0,
}
use dis_minisql.Storage.Disk.Invariant.{free}
use dis_minisql.Storage.Disk.Data.{bytes_of, Readable}
use dis_minisql.Buffer.Lru
use dis_minisql.Buffer.Lru.Tests as LruTests
use dis_minisql.Buffer.Lru.Instance.{lru}
use dis_minisql.Buffer.Pool.{
  Pool, blank, frames_from, write_page, read_page, write_back, init, take_victim, take_frame,
  pin_frame, fetch_hit, fill_frame, fetch_page, unpin_frame, unpin_page, place_page, new_page,
  deallocate, delete_missing, delete_page, flush_page, destroy, is_page_free, unpinned_from,
  check_all_unpinned,
}
use dis_minisql.Buffer.Pool.Invariant.{IsValid}
use dis_minisql.Buffer.Pool.Fetch.{Fetched, fetch_page-IsValid}
use dis_minisql.Buffer.Pool.DirtyVictim.{Loses, fetch_page-dirty_victim}
use dis_minisql.Buffer.Pool.NewPage.{Made, new_page-IsValid}
use dis_minisql.Buffer.Pool.Deletion.{delete_page-resident, delete_page-missing}
use dis_minisql.Buffer.Pool.Unpin.{Unpins, unpin_page-IsValid, flush_page-IsValid}
use dis_minisql.Buffer.Pool.Initial.{init-IsValid}

unfoldable pub program : Unit {0}
unfolding blank frames_from write_page read_page write_back init take_victim take_frame pin_frame
    fetch_hit fill_frame fetch_page unpin_frame unpin_page place_page new_page deallocate
    delete_missing delete_page flush_page destroy is_page_free unpinned_from check_all_unpinned
    LruTests.program DiskTests.program
program = tt

abbrev pub LruPool : Type 0
LruPool = Pool Lru.LruReplacer

-- A pool of one frame over the file with one page in use.
abbrev pub start : LruPool
start = init lru 1 one_page

start-IsValid : IsValid lru start []
start-IsValid = init-IsValid lru 1 one_page

-- The pools of the results.
abbrev pub pool_of : LruPool → Option (Option ℕ × LruPool) → LruPool
pool_of b none = b
pool_of b (some (_, b')) = b'

-- Page 0 in the frame, pinned; then unpinned and dirty.
abbrev pub loaded : LruPool
loaded = pool_of start (fetch_page lru start (some 0))

abbrev dirty : LruPool
dirty = (unpin_page lru loaded (some 0) true).1

pub loaded_test : fetch_page lru start (some 0) ≡ some (some 0, loaded)
unfolding program
loaded_test = refl

pub readable : (p : ℕ) → p < 32704 → Readable p
unfolding Readable program
readable p h = omega arith

Readable-0 : Readable 0
Readable-0 = readable 0 (omega arith)

loaded-IsValid : (q : List ℕ) × IsValid lru loaded q
loaded-IsValid =
    let (_, _, q, e, v, _) = fetch_page-IsValid lru start [] 0 start-IsValid Readable-0 in
    (q, subst (λ b. IsValid lru b q) (ap (pool_of start) (sym e)) v)

loaded_entry : loaded.page_table (some 0) ≡ some 0
unfolding program
loaded_entry = refl

loaded_pin_count : (loaded.pages 0).pin_count ≡ 1
unfolding program
loaded_pin_count = refl

dirty-IsValid : (q : List ℕ) × IsValid lru dirty q
dirty-IsValid =
    let (q, v, _, _, _) =
      unpin_page-IsValid lru loaded loaded-IsValid.0 0 0 true loaded-IsValid.1 loaded_entry in
    (q, v)

only_frame : (g : ℕ) → g < dirty.pool_size → (dirty.pages g).pin_count ≡ 0 → g ≡ 0
unfolding program
only_frame g h z = omega arith

dirty_entry : dirty.page_table (some 0) ≡ some 0
unfolding program
dirty_entry = refl

dirty_missing : dirty.page_table (some 5) ≡ none
unfolding program
dirty_missing = refl

dirty_page : ((dirty.pages 0).pin_count ≡ 0) × ((dirty.pages 0).is_dirty ≡ true)
unfolding program
dirty_page = (refl, refl)

start_allocation : (d : DiskManager) × (Disk.allocate_page one_page ≡ some (some 1, d))
unfolding program
start_allocation = (_, refl)

loaded_disk : loaded.disk ≡ one_page
unfolding program
loaded_disk = refl

released : (d : DiskManager) × (Disk.de_allocate_page one_page 0 ≡ some d)
unfolding program
released = (_, refl)

fetch_page-IsValid_example : Fetched lru dirty 5
fetch_page-IsValid_example =
    fetch_page-IsValid lru dirty dirty-IsValid.0 5 dirty-IsValid.1 (readable 5 (omega arith))

fetch_page-dirty_victim_example :
    (result : Option ℕ) × (b' : LruPool) × (fetch_page lru dirty (some 5) ≡ some (result, b'))
    × Loses lru dirty 5 0 0 result b'
fetch_page-dirty_victim_example =
    fetch_page-dirty_victim lru dirty dirty-IsValid.0 5 0 0 dirty-IsValid.1 dirty_page.0 only_frame
      (readable 5 (omega arith)) dirty_missing dirty_entry dirty_page.1

new_page-IsValid_example : Made lru start 1
unfolding init Disk.write_physical_page
new_page-IsValid_example =
    new_page-IsValid lru start [] 1 start_allocation.0 start-IsValid start_allocation.1 refl

unpin_page-IsValid_example : Unpins lru loaded 0 true (unpin_page lru loaded (some 0) true)
unpin_page-IsValid_example =
    unpin_page-IsValid lru loaded loaded-IsValid.0 0 0 true loaded-IsValid.1 loaded_entry

flush_page-IsValid_example :
    (b' : LruPool) × (flush_page lru dirty (some 0) ≡ some (true, b'))
    × IsValid lru b' dirty-IsValid.0
    × ((b'.pages 0).is_dirty ≡ false)
    × ((g : ℕ) → (b'.pages g).data_bytes ≡ (dirty.pages g).data_bytes)
    × ((g : ℕ)
        → bytes_of b'.disk g
          ≡ (if 0 == g then (dirty.pages 0).data_bytes else bytes_of dirty.disk g))
flush_page-IsValid_example =
    flush_page-IsValid lru dirty dirty-IsValid.0 0 0 dirty-IsValid.1 dirty_entry

delete_page-resident_example :
    (d : DiskManager) × (delete_page lru loaded (some 0) ≡ some (true, record loaded { disk = d }))
    × (free d 0 ≡ true)
delete_page-resident_example =
    delete_page-resident lru loaded 0 0 loaded_entry (rw loaded_disk one_page-IsValid) (omega arith)
      reach_0 (rw loaded_disk one_page_used)

delete_page-missing_example :
    (b' : LruPool) × (delete_page lru start (some 0) ≡ some (true, b'))
    × ((q' : List ℕ) → ¬ IsValid lru b' q')
unfolding init blank
delete_page-missing_example =
    delete_page-missing lru start [] 0 released.0 start-IsValid (omega arith) refl refl released.1
