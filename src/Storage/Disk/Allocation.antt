-- ===== src/Storage/Disk/Allocation.antt =====
-- `DiskManager::AllocatePage` on a well-formed disk.
use native.Mathlib.Decide.{dec_lt}
use native.Mathlib.Numerals.{add-one}
use dis_minisql.Prelude.{ℕ, ◌+◌, ◌<◌, ◌≤◌, ◌≡◌, refl, ◌∙◌, arith, inl, inr, Option, some, none}
use dis_minisql.Page.Bitmap
use dis_minisql.Page.Bitmap.{BitmapPage}
use dis_minisql.Page.Bitmap.Release.{empty-IsValid}
use dis_minisql.Page.Bitmap.Allocation as BitmapAllocation
use dis_minisql.Storage.Disk.{
  DiskManager, init, le32, decode, max_chars, bitmap_size, max_bitmap, get_extent_used_page,
  find_extent, allocate_in, allocate_page,
}
use dis_minisql.Storage.Disk.Invariant.{bitmap_of, free, IsValid, InReach}
use dis_minisql.Storage.Disk.Extent.{Finds, find_extent-Finds, Gives, allocate_in-Gives}

-- What an allocation may do: give out a page, or fail if every page of every extent is used.
pub data Allocates (d : DiskManager) (result : Option ℕ) (d' : DiskManager) : Type 0 where
  full :
      result ≡ none
      → d' ≡ d
      → d.num_extents ≡ max_bitmap
      → ((i : ℕ) → i < max_bitmap → d.extent_used_page i ≡ bitmap_size)
      → Allocates d result d'
  given : (p : ℕ) → result ≡ some p → Gives d p d' → Allocates d result d'

abbrev grow : DiskManager → DiskManager
grow d = record d { num_extents = d.num_extents + 1 }

grow-IsValid : (d : DiskManager) → IsValid d → d.num_extents < max_bitmap → IsValid (grow d)
unfolding bitmap_of
grow-IsValid d v h = record {
  bound = omega arith;
  bitmaps = v.bitmaps;
  counted = v.counted;
  fresh = λ i l. v.fresh i (omega arith);
  total = rw add-one (omega (arith, v.total, v.fresh d.num_extents (omega arith)));
}

Gives-grow : (d : DiskManager) (p : ℕ) (d' : DiskManager) → Gives (grow d) p d' → Gives d p d'
unfolding free bitmap_of
Gives-grow d p d' g = record {
  in_range = g.in_range;
  was_free = g.was_free;
  marked = g.marked;
  kept = g.kept;
}

allocate_page_found :
    (d : DiskManager)
    → find_extent d.num_extents d 0 < d.num_extents
    → allocate_page d ≡ allocate_in d (find_extent d.num_extents d 0)
unfolding allocate_page
allocate_page_found d h = ground arith

allocate_page_grown :
    (d : DiskManager)
    → find_extent d.num_extents d 0 ≡ d.num_extents
    → d.num_extents < max_bitmap
    → allocate_page d ≡ allocate_in (grow d) d.num_extents
unfolding allocate_page
allocate_page_grown d e h = ground arith

allocate_page_full :
    (d : DiskManager)
    → find_extent d.num_extents d 0 ≡ d.num_extents
    → d.num_extents ≡ max_bitmap
    → allocate_page d ≡ some (none, d)
unfolding allocate_page
allocate_page_full d e h = ground arith

used_below :
    (d : DiskManager) (i : ℕ) → i < d.num_extents → get_extent_used_page d i ≡ d.extent_used_page i
unfolding get_extent_used_page
used_below d i h = ground arith

pub allocate_page_total :
    (d : DiskManager)
    → IsValid d
    → ((i : ℕ) → i ≤ d.num_extents → i < max_bitmap → InReach i)
    → (result : Option ℕ) × (d' : DiskManager) × (allocate_page d ≡ some (result, d'))
      × IsValid d'
      × Allocates d result d'
allocate_page_total d v reach = go (find_extent-Finds d.num_extents d 0 d.num_extents (omega arith))
  where
    go :
        Finds d 0 d.num_extents (find_extent d.num_extents d 0)
        → (result : Option ℕ) × (d' : DiskManager) × (allocate_page d ≡ some (result, d'))
          × IsValid d'
          × Allocates d result d'
    go (inl (l, room)) =
        let i = find_extent d.num_extents d 0 in
        let (p, d', e, w, g) =
          allocate_in-Gives d i v l (rw (used_below d i l) at room)
            (reach i (omega arith) (omega (arith, v.bound))) in
        (some p, d', allocate_page_found d l ∙ e, w, given p refl g)
    go (inr (e, filled)) = elim (dec_lt d.num_extents max_bitmap) [
      | yes more ↦
          let (p, d', e', w, g) =
            allocate_in-Gives (grow d) d.num_extents (grow-IsValid d v more) (omega arith)
              (omega (arith, v.fresh d.num_extents (omega arith)))
              (reach d.num_extents (omega arith) more) in
          (some p, d', allocate_page_grown d e more ∙ e', w, given p refl (Gives-grow d p d' g))
      | no none_left ↦
          let last : d.num_extents ≡ max_bitmap = omega (arith, v.bound) in
          (
            none,
            d,
            allocate_page_full d e last,
            v,
            full refl refl last λ i h. omega (
              arith,
              filled i (omega arith) (omega arith),
              used_below d i (omega arith),
              v.counted i,
              BitmapAllocation.page_allocated-le max_chars (bitmap_of d i) (v.bitmaps i),
            ),
          )
    ]

decode-zero : decode (λ _. 0) ≡ Bitmap.empty
unfolding decode le32 Bitmap.empty
decode-zero = refl

-- A new file is a well-formed disk.
pub init-IsValid : IsValid init
unfolding init bitmap_of Bitmap.empty
init-IsValid = record {
  bound = omega arith;
  bitmaps = λ i. rw decode-zero (empty-IsValid max_chars);
  counted = λ i. rw decode-zero;
  fresh = λ i h. refl;
  total = refl;
}
