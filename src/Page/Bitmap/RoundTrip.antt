-- ===== src/Page/Bitmap/RoundTrip.antt =====
-- Releasing what was allocated.
use dis_minisql.Prelude.{ℕ, ◌+◌, ◌^◌, ◌<◌, ◌≡◌, ap, ◌∙◌, true, not, ◌&&◌, ltb, ◌==◌, arith, some}
use dis_minisql.Page.Bitmap.{
  BitmapPage, get, max_pages, is_page_free, allocate_page, de_allocate_page,
}
use dis_minisql.Page.Bitmap.Allocation.{IsValid, full, given, allocate_page-Allocates}
use dis_minisql.Page.Bitmap.Release.{de_allocate_page-IsValid}

abbrev Restores : ℕ → BitmapPage → BitmapPage → ℕ → Type 0
Restores mc b b' o =
    ((de_allocate_page mc b' o).0 ≡ true)
    × ((y : ℕ) → is_page_free mc (de_allocate_page mc b' o).1 y ≡ is_page_free mc b y)

taken_bit :
    (mc : ℕ) (b c : BitmapPage) (p : ℕ)
    → is_page_free mc b p ≡ true
    → is_page_free mc c p ≡ (not (p == p) && is_page_free mc b p)
    → (ltb p (max_pages mc) && get c.bytes p) ≡ true
unfolding is_page_free
taken_bit mc b c p free marks = ground arith

given-Restores :
    (mc : ℕ) (b c : BitmapPage) (p : ℕ)
    → IsValid mc c
    → is_page_free mc b p ≡ true
    → ((y : ℕ) → is_page_free mc c y ≡ (not (p == y) && is_page_free mc b y))
    → Restores mc b c p
given-Restores mc b c p w free marks =
    let (_, done, frees) = de_allocate_page-IsValid mc c p w in
    let yes_done = done ∙ taken_bit mc b c p free (marks p) in
    (
      yes_done,
      λ y. ground (arith, frees y, yes_done, marks y, ap (is_page_free mc b) {x = p} {y = y}),
    )

-- A page that an allocation gave out can be released, and the map of free pages is the old one.
pub de_allocate_page-allocate_page :
    (mc : ℕ) (b b' : BitmapPage) (o : ℕ)
    → IsValid mc b
    → max_pages mc + 1 < 2 ^ 32
    → allocate_page mc b ≡ some (some o, b')
    → ((de_allocate_page mc b' o).0 ≡ true)
      × ((y : ℕ) → is_page_free mc (de_allocate_page mc b' o).1 y ≡ is_page_free mc b y)
de_allocate_page-allocate_page mc b b' o v k e =
    let (r, c, e', w, a) = allocate_page-Allocates mc b v k in
    elim a [
      | full _ en _ ↦ absurd (ground (arith, e, e', en))
      | given p ep free marks _ ↦
          let o_same : o ≡ p = ground (arith, e, e', ep) in
          let page_same : b' ≡ c = ground (arith, e, e') in
          rw (o_same, page_same) (given-Restores mc b c p w free marks)
    ]
