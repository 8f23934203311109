-- ===== src/Storage/Disk/Extent.antt =====
-- The search for an extent with room, and the allocation in one extent (disk_manager.cpp).
use native.Mathlib.Decide.{ℕ_discrete}
use dis_minisql.Prelude.{
  ℕ, zero, suc, ◌+◌, ◌*◌, ◌/◌, ◌%◌, ◌^◌, ◌<◌, ◌≤◌, ◌≡◌, ap, ◌∙◌, true, not, ◌&&◌, arith, ltb, ◌==◌,
  ◌⊎◌, inl, inr, some, Bool-cases,
}
use dis_minisql.Page.Bitmap
use dis_minisql.Page.Bitmap.{BitmapPage}
use dis_minisql.Page.Bitmap.Search.{lt_of_is_page_free}
use dis_minisql.Page.Bitmap.Allocation as BitmapAllocation
use dis_minisql.Storage.Disk.{
  DiskManager, bitmap_page_id, map_page_id, max_chars, bitmap_size, max_valid_page_id, page_size,
  write_physical_page, read_physical_page, get_extent_used_page, find_extent, allocate_in,
}
use dis_minisql.Storage.Disk.Mapping.{map_page_id-ne-bitmap}
use dis_minisql.Storage.Disk.Invariant.{
  bitmap_of, free, used, IsValid, InReach, put_bitmap, free-put_bitmap, put_bitmap-IsValid,
}

-- The search stops at the first extent with room, or at the end.
abbrev pub Finds : DiskManager → ℕ → ℕ → ℕ → Type 0
Finds d i end r =
    ((r < end) × (get_extent_used_page d r < bitmap_size))
    ⊎ ((r ≡ end) × ((j : ℕ) → i ≤ j → j < end → bitmap_size ≤ get_extent_used_page d j))

Finds-step :
    (d : DiskManager) (i end r : ℕ)
    → bitmap_size ≤ get_extent_used_page d i
    → Finds d (i + 1) end r
    → Finds d i end r
Finds-step d i end r filled (inl f) = inl f
Finds-step d i end r filled (inr (e, all)) = inr (
  e,
  λ j h k. elim (ℕ_discrete i j) [ yes same ↦ rw (← same) filled | no ne ↦ all j (omega arith) k ],
)

pub find_extent-Finds :
    (left : ℕ) (d : DiskManager) (i end : ℕ) → i + left ≡ end → Finds d i end (find_extent left d i)
unfolding find_extent
find_extent-Finds zero d i end e = inr (omega arith, λ j h k. absurd (omega arith))
find_extent-Finds (suc left) d i end e =
    elim (Bool-cases (ltb (get_extent_used_page d i) bitmap_size)) [
      | inl room ↦ rw (room, find_extent) (inl (omega arith, ground arith))
      | inr filled ↦
          rw (filled, find_extent)
            (Finds-step d i end _ (ground arith)
              (find_extent-Finds left d (i + 1) end (omega arith)))
    ]

-- A free page `p` is given out and marked; every other page stays as free as it was, and the pages
-- of data keep their bytes.
pub record Gives (d : DiskManager) (p : ℕ) (d' : DiskManager) : Type 0 where
  pub in_range : p < max_valid_page_id
  pub was_free : free d p ≡ true
  pub marked : (q : ℕ) → free d' q ≡ (not (p == q) && free d q)
  pub kept : (q : ℕ) → d'.file (map_page_id q) ≡ d.file (map_page_id q)

pub read_in_reach :
    (d : DiskManager) (id : ℕ)
    → id * page_size < 2 ^ 31
    → read_physical_page d id ≡ some (d.file id)
unfolding read_physical_page
read_in_reach d id h = ground arith

allocate_in_given :
    (d : DiskManager) (i o : ℕ) (b : BitmapPage)
    → InReach i
    → Bitmap.allocate_page max_chars (bitmap_of d i) ≡ some (some o, b)
    → allocate_in d i
      ≡ some (
        some (i * bitmap_size + o),
        put_bitmap d i b
            ((d.extent_used_page i + 1) % 2 ^ 32)
            ((d.num_allocated_pages + 1) % 2 ^ 32),
      )
unfolding allocate_in InReach bitmap_of
allocate_in_given d i o b h e = rw (read_in_reach d (bitmap_page_id i) h, e, allocate_in)

pub used-le : (d : DiskManager) (n : ℕ) → IsValid d → used d.extent_used_page n ≤ n * bitmap_size
used-le d zero v = omega arith
used-le d (suc n) v = omega (
  arith,
  used-le d n v,
  v.counted n,
  BitmapAllocation.page_allocated-le max_chars (bitmap_of d n) (v.bitmaps n),
)

put_bitmap-file :
    (d : DiskManager) (i : ℕ) (b : BitmapPage) (count total q : ℕ)
    → (put_bitmap d i b count total).file (map_page_id q) ≡ d.file (map_page_id q)
unfolding write_physical_page
put_bitmap-file d i b count total q = ground (arith, map_page_id-ne-bitmap q i)

page_eq :
    (i o q : ℕ)
    → o < bitmap_size
    → (i * bitmap_size + o == q) ≡ (i == q / bitmap_size && o == q % bitmap_size)
page_eq i o q h = ground arith

-- The free pages after a bit of an extent's bitmap is set.
free-given :
    (d : DiskManager) (i o : ℕ) (b : BitmapPage) (count total q : ℕ)
    → BitmapAllocation.IsValid max_chars b
    → o < bitmap_size
    → ((y : ℕ)
        → Bitmap.is_page_free max_chars b y
          ≡ (not (o == y) && Bitmap.is_page_free max_chars (bitmap_of d i) y))
    → free (put_bitmap d i b count total) q ≡ (not (i * bitmap_size + o == q) && free d q)
unfolding free
free-given d i o b count total q w h marks =
    free-put_bitmap d i b count total w q
    ∙ ground (
      arith,
      page_eq i o q h,
      marks (q % bitmap_size),
      ap (λ j. Bitmap.is_page_free max_chars (bitmap_of d j) (q % bitmap_size)) {x = i}
          {y = q / bitmap_size},
    )

free_in :
    (d : DiskManager) (i o : ℕ)
    → o < bitmap_size
    → free d (i * bitmap_size + o) ≡ Bitmap.is_page_free max_chars (bitmap_of d i) o
unfolding free
free_in d i o h = rw (quotient, remainder)
  where
    quotient : (i * bitmap_size + o) / bitmap_size ≡ i
    quotient = omega arith

    remainder : (i * bitmap_size + o) % bitmap_size ≡ o
    remainder = omega arith

-- An extent with room gives out a page.
pub allocate_in-Gives :
    (d : DiskManager) (i : ℕ)
    → IsValid d
    → i < d.num_extents
    → d.extent_used_page i < bitmap_size
    → InReach i
    → (p : ℕ) × (d' : DiskManager) × (allocate_in d i ≡ some (some p, d'))
      × IsValid d'
      × Gives d p d'
allocate_in-Gives d i v l room h =
    let (r, b, e, w, a) =
      BitmapAllocation.allocate_page-Allocates max_chars (bitmap_of d i) (v.bitmaps i)
        (omega arith) in
    elim a [
      | BitmapAllocation.full fl _ _ ↦ absurd (omega (arith, v.counted i))
      | BitmapAllocation.given o er fr marks more ↦
          let lo : o < bitmap_size = lt_of_is_page_free max_chars (bitmap_of d i) o fr in
          let sum = used-le d d.num_extents v in
          (
            i * bitmap_size + o,
            _,
            allocate_in_given d i o b h (e ∙ ap (λ z. some (z, b)) er),
            put_bitmap-IsValid d i b _ _ w v l (omega (arith, more, v.counted i)) (omega arith),
            record {
              in_range = omega (arith, v.bound);
              was_free = free_in d i o lo ∙ fr;
              marked = λ q. free-given d i o b _ _ q w lo marks;
              kept = put_bitmap-file d i b _ _;
            },
          )
    ]
