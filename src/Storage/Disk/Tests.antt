-- ===== src/Storage/Disk/Tests.antt =====
-- Tests of the disk manager, and the theorems at concrete disks.
use dis_minisql.Prelude.{ℕ, ◌≡◌, ◌<◌, ◌≤◌, refl, subst, false, some, none, arith}
use dis_minisql.Page.Bitmap
use dis_minisql.Page.Bitmap.Tests as BitmapTests
use dis_minisql.Page.Bitmap.{BitmapPage}
use dis_minisql.Storage.Disk.{
  DiskManager, Bytes, init, le32, decode, byte_of, encode, get_extent_used_page, read_physical_page,
  write_physical_page, map_page_id, bitmap_page_id, read_page, write_page, find_extent, allocate_in,
  allocate_page, de_allocate_page,
}
use dis_minisql.Storage.Disk.Invariant.{IsValid, InReach, bitmap_of, free, put_bitmap}
use dis_minisql.Storage.Disk.Allocation.{allocate_page_total, init-IsValid}
use dis_minisql.Storage.Disk.Release.{de_allocate_page_drift}
use dis_minisql.Storage.Disk.Data.{read_page_overflow}

unfoldable pub program : Unit {0}
unfolding init le32 decode byte_of encode get_extent_used_page read_physical_page
    write_physical_page map_page_id bitmap_page_id read_page write_page find_extent allocate_in
    allocate_page de_allocate_page BitmapTests.program
program = tt

-- The bitmap after the first allocation.
abbrev pub one_bit : BitmapPage
one_bit = record { page_allocated = 1; next_free_page = 1; bytes = Bitmap.set (λ _. 0) 0 }

abbrev pub one_page : DiskManager
one_page = put_bitmap (record init { num_extents = 1 }) 0 one_bit 1 1

pub first_allocation : allocate_page init ≡ some (some 0, one_page)
unfolding program
first_allocation = refl

in_reach : (i : ℕ) → i ≤ 1 → i < 1022 → InReach i
unfolding InReach bitmap_page_id
in_reach i h k = omega arith

pub one_page-IsValid : IsValid one_page
unfolding init
one_page-IsValid =
    let (r, d', e, v, a) = allocate_page_total init init-IsValid reach in
    subst IsValid (ground (arith, e, first_allocation)) v
  where
    reach : (i : ℕ) → i ≤ init.num_extents → i < 1022 → InReach i
    reach i h k = in_reach i (omega arith) k

pub one_page_used : free one_page 0 ≡ false
unfolding program free bitmap_of
one_page_used = refl

pub reach_0 : InReach 0
reach_0 = in_reach 0 (omega arith) (omega arith)

de_allocate_page_drift_example :
    (d' : DiskManager) × (de_allocate_page init 7 ≡ some d')
    × (d'.extent_used_page 0 ≡ 4294967295)
    × ¬ IsValid d'
unfolding init
de_allocate_page_drift_example =
    de_allocate_page_drift init 7 init-IsValid (omega arith) reach_0 refl

abbrev ones : Bytes
ones = λ _. 1

read_page_overflow_example : read_page (write_page init 600000 ones) 600000 ≡ none
read_page_overflow_example = read_page_overflow init 600000 ones (omega arith) (omega arith)
