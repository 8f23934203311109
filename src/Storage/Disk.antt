-- ===== src/Storage/Disk.antt =====
-- storage/disk_manager.cpp and page/disk_file_meta_page.h: logical pages, extents and the file.
-- The file is an array of physical pages, zero where nothing was written, as `ReadPhysicalPage`
-- reads beyond its end. In a result `none` is undefined behaviour.
pub mod Layout
pub mod Mapping
pub mod Invariant
pub mod Extent
pub mod Allocation
pub mod Release
pub mod Data
pub mod Tests
use dis_minisql.Prelude.{
  ℕ, zero, suc, ◌+◌, ◌-◌, ◌*◌, ◌/◌, ◌%◌, ◌^◌, Bool, true, false, Option, none, some, ltb, leb, ◌==◌,
  if◌then◌else◌, update,
}
use dis_minisql.Page.Bitmap
use dis_minisql.Page.Bitmap.{BitmapPage}

abbrev pub page_size : ℕ
page_size = 4096

-- MAX_CHARS, BITMAP_SIZE, MAX_BITMAP and MAX_VALID_PAGE_ID.
abbrev pub max_chars : ℕ
max_chars = 4088

abbrev pub bitmap_size : ℕ
bitmap_size = 32704

abbrev pub max_bitmap : ℕ
max_bitmap = 1022

abbrev pub max_valid_page_id : ℕ
max_valid_page_id = 1022 * 32704

-- The bytes of a page, by their offset.
abbrev pub Bytes : Type 0
Bytes = ℕ → ℕ

-- The meta page, which the manager keeps in memory, and the file.
pub record DiskManager : Type 0 where
  pub num_allocated_pages : ℕ
  pub num_extents : ℕ
  pub extent_used_page : ℕ → ℕ
  pub file : ℕ → Bytes

-- The constructor on a file that does not exist yet.
pub init : DiskManager
init = record {
  num_allocated_pages = 0;
  num_extents = 0;
  extent_used_page = λ _. 0;
  file = λ _ _. 0;
}

-- `reinterpret_cast<BitmapPage *>`: two little-endian 32-bit counters and the bits behind them.
pub le32 : Bytes → ℕ → ℕ
le32 p o = p o + p (o + 1) * 256 + p (o + 2) * 65536 + p (o + 3) * 16777216

pub decode : Bytes → BitmapPage
decode p = record { page_allocated = le32 p 0; next_free_page = le32 p 4; bytes = λ i. p (i + 8) }

-- The bytes that the bitmap's fields occupy, in order.
unfoldable pub byte_of : ℕ → ℕ → ℕ
byte_of x zero = x % 256
byte_of x (suc k) = byte_of (x / 256) k

pub encode : BitmapPage → Bytes
encode b o =
    if ltb o 4
    then byte_of b.page_allocated o
    else if ltb o 8
    then byte_of b.next_free_page (o - 4)
    else b.bytes (o - 8)

pub get_extent_used_page : DiskManager → ℕ → ℕ
get_extent_used_page d extent_id =
    if leb d.num_extents extent_id then 0 else d.extent_used_page extent_id

-- `int offset = physical_page_id * PAGE_SIZE`: the product is an `int`, and its overflow undefined.
pub read_physical_page : DiskManager → ℕ → Option Bytes
read_physical_page d physical_page_id =
    if ltb (physical_page_id * page_size) (2 ^ 31) then some (d.file physical_page_id) else none

-- Here the offset is a `size_t`.
unfoldable pub write_physical_page : DiskManager → ℕ → Bytes → DiskManager
write_physical_page d physical_page_id page_data = record d {
  file = update d.file physical_page_id page_data;
}

pub map_page_id : ℕ → ℕ
map_page_id logical_page_id =
    logical_page_id / bitmap_size * (bitmap_size + 1) + logical_page_id % bitmap_size + 2

-- The physical page of an extent's bitmap.
pub bitmap_page_id : ℕ → ℕ
bitmap_page_id i = i * (bitmap_size + 1) + 1

pub read_page : DiskManager → ℕ → Option Bytes
read_page d logical_page_id = read_physical_page d (map_page_id logical_page_id)

pub write_page : DiskManager → ℕ → Bytes → DiskManager
write_page d logical_page_id page_data =
    write_physical_page d (map_page_id logical_page_id) page_data

-- The loop that looks for an extent with room, over the extents that are left.
pub find_extent : ℕ → DiskManager → ℕ → ℕ
find_extent zero d i = i
find_extent (suc left) d i = elim (ltb (get_extent_used_page d i) bitmap_size) [
  | true ↦ i
  | false ↦ find_extent left d (i + 1)
]

-- The rest of `AllocatePage`, in extent `i`: the bitmap is read, changed and written back.
pub allocate_in : DiskManager → ℕ → Option (Option ℕ × DiskManager)
allocate_in d i = elim (read_physical_page d (bitmap_page_id i)) [
  | none ↦ none
  | some page ↦ elim (Bitmap.allocate_page max_chars (decode page)) [
    | none ↦ none
    | some (none, _) ↦ none
    | some (some inner_index, b) ↦ some (
      some (i * bitmap_size + inner_index),
      write_physical_page
          (record d {
            extent_used_page = update d.extent_used_page i ((d.extent_used_page i + 1) % 2 ^ 32);
            num_allocated_pages = (d.num_allocated_pages + 1) % 2 ^ 32;
          })
          (bitmap_page_id i) (encode b),
    )
  ]
]

-- The logical page that is given out; the inner `none` is INVALID_PAGE_ID.
pub allocate_page : DiskManager → Option (Option ℕ × DiskManager)
allocate_page d =
    let i = find_extent d.num_extents d 0 in
    if i == d.num_extents
    then if d.num_extents == max_bitmap
      then some (none, d)
      else allocate_in (record d { num_extents = d.num_extents + 1 }) i
    else allocate_in d i

pub de_allocate_page : DiskManager → ℕ → Option DiskManager
de_allocate_page d logical_page_id =
    let bitmap_id = (logical_page_id + bitmap_size) / bitmap_size - 1 in
    let inner_index = logical_page_id % bitmap_size in
    if leb max_valid_page_id logical_page_id
    then some d
    else elim (read_physical_page d (bitmap_page_id bitmap_id)) [
      | none ↦ none
      | some page ↦ some (
          write_physical_page
            (record d {
              extent_used_page =
                  update d.extent_used_page bitmap_id
                    ((d.extent_used_page bitmap_id + (2 ^ 32 - 1)) % 2 ^ 32);
              num_allocated_pages = (d.num_allocated_pages + (2 ^ 32 - 1)) % 2 ^ 32;
            })
            (bitmap_page_id bitmap_id)
            (encode (Bitmap.de_allocate_page max_chars (decode page) inner_index).1))
    ]

pub is_page_free : DiskManager → ℕ → Option Bool
is_page_free d logical_page_id =
    let bitmap_id = (logical_page_id + bitmap_size) / bitmap_size - 1 in
    let inner_index = logical_page_id % bitmap_size in
    if leb max_valid_page_id logical_page_id
    then some false
    else elim (read_physical_page d (bitmap_page_id bitmap_id)) [
      | none ↦ none
      | some page ↦ some (Bitmap.is_page_free max_chars (decode page) inner_index)
    ]
