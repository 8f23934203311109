-- ===== src/Storage/Disk/Data.antt =====
-- `DiskManager::ReadPage` and `WritePage`: the bytes of logical pages.
use dis_minisql.Prelude.{
  ℕ, ◌*◌, ◌/◌, ◌^◌, ◌<◌, ◌≤◌, ◌≡◌, refl, ap, some, none, ◌==◌, if◌then◌else◌, arith, ltb,
}
use dis_minisql.Storage.Disk.{
  DiskManager, Bytes, map_page_id, bitmap_size, page_size, max_valid_page_id, read_physical_page,
  write_physical_page, read_page, write_page,
}
use dis_minisql.Storage.Disk.Mapping.{map_page_id-injective, map_page_id-ne-bitmap}
use dis_minisql.Storage.Disk.Invariant.{IsValid, bitmap_of, free}

read_physical_page_lem :
    (d : DiskManager) (id : ℕ)
    → read_physical_page d id ≡ (if ltb (id * page_size) (2 ^ 31) then some (d.file id) else none)
unfolding read_physical_page
read_physical_page_lem d id = refl

-- The bytes of a logical page in the file.
pub bytes_of : DiskManager → ℕ → Bytes
bytes_of d p = d.file (map_page_id p)

-- A page whose offset fits an `int`.
unfoldable pub Readable : ℕ → Type 0
Readable p = map_page_id p * page_size < 2 ^ 31

pub read_page_lem : (d : DiskManager) (p : ℕ) → Readable p → read_page d p ≡ some (bytes_of d p)
unfolding read_page Readable bytes_of
read_page_lem d p h = ground (arith, read_physical_page_lem d (map_page_id p))

pub bytes_of-write_page :
    (d : DiskManager) (p q : ℕ) (x : Bytes)
    → bytes_of (write_page d p x) q ≡ (if p == q then x else bytes_of d q)
unfolding bytes_of write_page write_physical_page
bytes_of-write_page d p q x =
    ground (arith, map_page_id-injective p q, ap map_page_id {x = p} {y = q})

-- From the page at 2 GiB on, a page that was just written cannot be read: the offset overflows an
-- `int`.
pub read_page_overflow :
    (d : DiskManager) (p : ℕ) (page_data : Bytes)
    → 524288 ≤ p
    → p < max_valid_page_id
    → read_page (write_page d p page_data) p ≡ none
unfolding read_page map_page_id
read_page_overflow d p x h k =
    ground (arith, read_physical_page_lem (write_page d p x) (map_page_id p))

bitmap_of-write_page :
    (d : DiskManager) (p i : ℕ) (page_data : Bytes)
    → bitmap_of (write_page d p page_data) i ≡ bitmap_of d i
unfolding bitmap_of write_page write_physical_page
bitmap_of-write_page d p i x = ground (arith, map_page_id-ne-bitmap p i)

-- Writing a page of data changes no bitmap: the disk stays well formed, with the same free pages.
pub write_page-IsValid :
    (d : DiskManager) (p : ℕ) (page_data : Bytes)
    → IsValid d
    → IsValid (write_page d p page_data) × ((q : ℕ) → free (write_page d p page_data) q ≡ free d q)
unfolding free write_page write_physical_page
write_page-IsValid d p x v = (
  record {
    bound = v.bound;
    bitmaps = λ i. rw (bitmap_of-write_page d p i x) (v.bitmaps i);
    counted = λ i. rw (bitmap_of-write_page d p i x) (v.counted i);
    fresh = v.fresh;
    total = v.total;
  },
  λ q. rw (bitmap_of-write_page d p (q / bitmap_size) x),
)
