-- ===== src/Page/Bitmap/Tests.antt =====
-- Tests of the bitmap page, and the theorems at concrete pages.
use dis_minisql.Prelude.{
  ℕ, ◌≡◌, refl, subst, ◌&&◌, ◌==◌, if◌then◌else◌, true, false, Option, some, arith,
}
use dis_minisql.Page.Bitmap.Allocation.{IsValid, Allocates, allocate_page-Allocates}
use dis_minisql.Page.Bitmap.Release.{empty-IsValid, de_allocate_page-IsValid}
use dis_minisql.Page.Bitmap.RoundTrip.{de_allocate_page-allocate_page}
use dis_minisql.Page.Bitmap.{
  BitmapPage, empty, set, reset, get, is_page_free, is_page_free_low, next_page, search, advance,
  allocate_page, de_allocate_page,
}

unfoldable pub program : Unit {0}
unfolding empty set reset get is_page_free is_page_free_low next_page search advance allocate_page
    de_allocate_page
program = tt

-- A page of one byte of bits, with its first bit taken.
abbrev one_taken : BitmapPage
one_taken = record { page_allocated = 1; next_free_page = 1; bytes = set empty.bytes 0 }

first : allocate_page 1 empty ≡ some (some 0, one_taken)
unfolding program
first = refl

one_taken-IsValid : IsValid 1 one_taken
one_taken-IsValid =
    let (r, b, e, v, a) = allocate_page-Allocates 1 empty (empty-IsValid 1) (omega arith) in
    subst (IsValid 1) (ground (arith, e, first)) v

allocate_page-Allocates_example :
    (result : Option ℕ) × (b : BitmapPage) × (allocate_page 1 one_taken ≡ some (result, b))
    × IsValid 1 b
    × Allocates 1 one_taken result b
allocate_page-Allocates_example =
    allocate_page-Allocates 1 one_taken one_taken-IsValid (omega arith)

de_allocate_page-IsValid_example :
    IsValid 1 (de_allocate_page 1 one_taken 0).1
    × ((de_allocate_page 1 one_taken 0).0 ≡ get one_taken.bytes 0)
    × ((y : ℕ)
        → is_page_free 1 (de_allocate_page 1 one_taken 0).1 y ≡ (
            if (de_allocate_page 1 one_taken 0).0 && 0 == y
            then true
            else is_page_free 1 one_taken y))
de_allocate_page-IsValid_example = de_allocate_page-IsValid 1 one_taken 0 one_taken-IsValid

de_allocate_page-allocate_page_example :
    ((de_allocate_page 1 one_taken 0).0 ≡ true)
    × ((y : ℕ) → is_page_free 1 (de_allocate_page 1 one_taken 0).1 y ≡ is_page_free 1 empty y)
de_allocate_page-allocate_page_example =
    de_allocate_page-allocate_page 1 empty one_taken 0 (empty-IsValid 1) (omega arith) first

-- Both pages of the byte are taken, and the test answers that the second is free.
abbrev all_taken : BitmapPage
all_taken = record { page_allocated = 8; next_free_page = 0; bytes = λ _. 255 }

all_taken_not_free : is_page_free 1 all_taken 1 ≡ false
unfolding program
all_taken_not_free = refl
