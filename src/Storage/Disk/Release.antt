-- ===== src/Storage/Disk/Release.antt =====
-- `DiskManager::DeAllocatePage` and `IsPageFree` on a well-formed disk.
use native.Mathlib.Decide.{dec_lt}
use dis_minisql.Prelude.{
  ℕ, ◌+◌, ◌-◌, ◌/◌, ◌%◌, ◌^◌, ◌<◌, ◌≡◌, refl, ap, ◌∙◌, true, false, ◌&&◌, arith, leb, ◌==◌,
  if◌then◌else◌, some,
}
use dis_minisql.Page.Bitmap
use dis_minisql.Page.Bitmap.{BitmapPage}
use dis_minisql.Page.Bitmap.Allocation as BitmapAllocation
use dis_minisql.Page.Bitmap.Release as BitmapRelease
use dis_minisql.Storage.Disk.{
  DiskManager, bitmap_page_id, max_chars, bitmap_size, max_valid_page_id, write_physical_page,
  de_allocate_page, is_page_free,
}
use dis_minisql.Storage.Disk.Invariant.{
  bitmap_of, free, IsValid, InReach, put_bitmap, used-le_part, free-put_bitmap, put_bitmap-IsValid,
}
use dis_minisql.Storage.Disk.Extent.{read_in_reach, used-le}

extent_of : (p : ℕ) → (p + bitmap_size) / bitmap_size - 1 ≡ p / bitmap_size
extent_of p = omega arith

valid_id : (p : ℕ) → p < max_valid_page_id → leb max_valid_page_id p ≡ false
valid_id p h = ground arith

-- The test of a page answers by the bitmap of its extent.
pub is_page_free-free :
    (d : DiskManager) (p : ℕ)
    → p < max_valid_page_id
    → InReach (p / bitmap_size)
    → is_page_free d p ≡ some (free d p)
unfolding is_page_free free bitmap_of InReach
is_page_free-free d p h k =
    rw
      (
        extent_of p,
        valid_id p h,
        read_in_reach d (bitmap_page_id (p / bitmap_size)) k,
        is_page_free,
      )
      refl

-- The bitmap of the extent of a page after its release.
abbrev released : DiskManager → ℕ → BitmapPage
released d p =
    (Bitmap.de_allocate_page max_chars (bitmap_of d (p / bitmap_size)) (p % bitmap_size)).1

de_allocate_page_lem :
    (d : DiskManager) (p : ℕ)
    → p < max_valid_page_id
    → InReach (p / bitmap_size)
    → de_allocate_page d p
      ≡ some (
          put_bitmap d
            (p / bitmap_size)
            (released d p)
            ((d.extent_used_page (p / bitmap_size) + (2 ^ 32 - 1)) % 2 ^ 32)
            ((d.num_allocated_pages + (2 ^ 32 - 1)) % 2 ^ 32))
unfolding de_allocate_page bitmap_of InReach
de_allocate_page_lem d p h k = rw (
  extent_of p,
  valid_id p h,
  read_in_reach d (bitmap_page_id (p / bitmap_size)) k,
  de_allocate_page,
  extent_of p,
)

page_same :
    (p q : ℕ)
    → (p == q) ≡ (p / bitmap_size == q / bitmap_size && p % bitmap_size == q % bitmap_size)
page_same p q = ground arith

-- An extent with a page in use is one of the extents.
extent-lt : (d : DiskManager) (i : ℕ) → IsValid d → 0 < d.extent_used_page i → i < d.num_extents
extent-lt d i v h = elim (dec_lt i d.num_extents) [
  | yes l ↦ l
  | no n ↦ absurd (omega (arith, v.fresh i (omega arith)))
]

pub de_allocate_page_frees :
    (d : DiskManager) (p : ℕ)
    → IsValid d
    → p < max_valid_page_id
    → InReach (p / bitmap_size)
    → free d p ≡ false
    → (d' : DiskManager) × (de_allocate_page d p ≡ some d')
      × IsValid d'
      × ((q : ℕ) → free d' q ≡ (if p == q then true else free d q))
unfolding free
de_allocate_page_frees d p v h k f =
    let i = p / bitmap_size in
    let (w, frees, less) =
      BitmapRelease.de_allocate_page_done max_chars (bitmap_of d i) (p % bitmap_size) (v.bitmaps i)
        (omega arith) f in
    let used_i = v.counted i in
    let small = BitmapAllocation.page_allocated-le max_chars (bitmap_of d i) (v.bitmaps i) in
    let sum = used-le d d.num_extents v in
    let l : i < d.num_extents = extent-lt d i v (omega (arith, less)) in
    let part = used-le_part d.extent_used_page i d.num_extents l in
    (
      _,
      de_allocate_page_lem d p h k,
      put_bitmap-IsValid d i (released d p) _ _ w v l (omega (arith, small, less))
          (omega (arith, small, sum, part, less, v.total)),
      λ q.
          free-put_bitmap d i (released d p) _ _ w q
          ∙ ground (
            arith,
            page_same p q,
            frees (q % bitmap_size),
            ap (λ j. Bitmap.is_page_free max_chars (bitmap_of d j) (q % bitmap_size)) {x = i}
                {y = q / bitmap_size},
          ),
    )

-- Releasing a page that is free already lowers the counters all the same: with no page of the
-- extent in use, its counter wraps to the largest 32-bit number, and the disk is not well formed.
pub de_allocate_page_drift :
    (d : DiskManager) (p : ℕ)
    → IsValid d
    → p < max_valid_page_id
    → InReach (p / bitmap_size)
    → d.extent_used_page (p / bitmap_size) ≡ 0
    → (d' : DiskManager) × (de_allocate_page d p ≡ some d')
      × (d'.extent_used_page (p / bitmap_size) ≡ 2 ^ 32 - 1)
      × ¬ IsValid d'
unfolding write_physical_page
de_allocate_page_drift d p v h k e = (
  _,
  de_allocate_page_lem d p h k,
  wraps,
  λ w. omega (
    arith,
    wraps,
    w.counted i,
    BitmapAllocation.page_allocated-le max_chars (bitmap_of d' i) (w.bitmaps i),
  ),
)
  where
    i : ℕ
    i = p / bitmap_size

    d' : DiskManager
    d' =
        put_bitmap d i (released d p) ((d.extent_used_page i + (2 ^ 32 - 1)) % 2 ^ 32)
          ((d.num_allocated_pages + (2 ^ 32 - 1)) % 2 ^ 32)

    wraps : d'.extent_used_page i ≡ 2 ^ 32 - 1
    wraps = ground arith
