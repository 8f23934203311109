-- ===== src/Page/Bitmap/Allocation.antt =====
-- Allocation of a page of an extent.
use native.Mathlib.Decide.{ℕ_discrete, dec_lt}
use dis_minisql.Prelude.{
  ℕ, ◌+◌, ◌%◌, ◌^◌, ◌<◌, ◌≤◌, ◌≡◌, refl, ap, ◌∙◌, true, false, not, ◌&&◌, ltb, ◌==◌, arith, Option,
  some, none,
}
use dis_minisql.Page.Bitmap.{BitmapPage, set, get, max_pages, is_page_free, advance, allocate_page}
use dis_minisql.Page.Bitmap.Bits.{
  AreBytes, set-AreBytes, get-set, count, count-le, count-add, clear_bit,
}
use dis_minisql.Page.Bitmap.Search.{is_page_free_below, search_total, advance_full, advance-search}

module _ (mc : ℕ) where
  -- The counter counts the set bits, and while a page is free the next one to give out is free.
  pub record IsValid (b : BitmapPage) : Type 0 where
    pub bytes : AreBytes b.bytes
    pub counted : b.page_allocated ≡ count (get b.bytes) (max_pages mc)
    pub in_page : b.next_free_page ≤ max_pages mc
    pub next :
        b.page_allocated < max_pages mc
        → (b.next_free_page < max_pages mc) × (get b.bytes b.next_free_page ≡ false)

  pub page_allocated-le : (b : BitmapPage) → IsValid b → b.page_allocated ≤ max_pages mc
  page_allocated-le b v = omega (arith, v.counted, count-le (get b.bytes) (max_pages mc))

  -- The page after the offset is taken, before the search for the next one.
  abbrev taken : BitmapPage → BitmapPage
  taken b = record b { page_allocated = b.page_allocated + 1; bytes = set b.bytes b.next_free_page }

  module _ (b : BitmapPage) (v : IsValid b) (room : b.page_allocated < max_pages mc) where
    taken-counted : b.page_allocated + 1 ≡ count (get (taken b).bytes) (max_pages mc)
    taken-counted = omega (
      arith,
      v.counted,
      count-add (get b.bytes) (get (taken b).bytes) b.next_free_page (max_pages mc) (v.next room).0
          (v.next room).1
          (ground (arith, get-set b.bytes b.next_free_page b.next_free_page v.bytes))
          (λ i ne. ground (arith, get-set b.bytes b.next_free_page i v.bytes)),
    )

    advance_total :
        (b' : BitmapPage) × (advance mc (taken b) ≡ some b')
        × IsValid b'
        × (b'.bytes ≡ (taken b).bytes)
    unfolding advance
    advance_total = elim (ℕ_discrete (b.page_allocated + 1) (max_pages mc)) [
      | yes full ↦ (
        record (taken b) { next_free_page = 0 },
        advance_full mc (taken b) full,
        record {
          bytes = set-AreBytes b.bytes b.next_free_page v.bytes;
          counted = taken-counted;
          in_page = omega arith;
          next = λ h. absurd (omega arith);
        },
        refl,
      )
      | no more ↦
          let (p, l, c) =
            clear_bit (get (taken b).bytes) (max_pages mc) (omega (arith, taken-counted)) in
          let (m, e, lm, free) =
            search_total mc (max_pages mc) (taken b) b.next_free_page p (v.next room).0 l c
              (ground arith) in
          (
            record (taken b) { next_free_page = m },
            advance-search mc (taken b) m (ground arith) e,
            record {
              bytes = set-AreBytes b.bytes b.next_free_page v.bytes;
              counted = taken-counted;
              in_page = omega (arith, lm);
              next = λ h. (lm, free);
            },
            refl,
          )
    ]

  -- What an allocation may do: give out a page that was free and mark it, or fail on a full page.
  pub data Allocates (b : BitmapPage) (result : Option ℕ) (b' : BitmapPage) : Type 0 where
    full : b.page_allocated ≡ max_pages mc → result ≡ none → b' ≡ b → Allocates b result b'
    given :
        (page_offset : ℕ)
        → result ≡ some page_offset
        → is_page_free mc b page_offset ≡ true
        → ((y : ℕ) → is_page_free mc b' y ≡ (not (page_offset == y) && is_page_free mc b y))
        → b'.page_allocated ≡ b.page_allocated + 1
        → Allocates b result b'

  not_full :
      (b : BitmapPage)
      → b.page_allocated < max_pages mc
      → max_pages mc < 2 ^ 32
      → ((b.page_allocated + 1) % 2 ^ 32 ≡ b.page_allocated + 1)
        × (ltb (max_pages mc) (b.page_allocated + 1) ≡ false)
  not_full b h k = (omega arith, ground arith)

  allocate_page_full :
      (b : BitmapPage)
      → b.page_allocated ≡ max_pages mc
      → max_pages mc + 1 < 2 ^ 32
      → allocate_page mc b ≡ some (none, b)
  unfolding allocate_page
  allocate_page_full b h k = ground arith

  allocate_page_given :
      (b b' : BitmapPage)
      → b.page_allocated < max_pages mc
      → max_pages mc + 1 < 2 ^ 32
      → advance mc (taken b) ≡ some b'
      → allocate_page mc b ≡ some (some b.next_free_page, b')
  unfolding allocate_page
  allocate_page_given b b' h k e =
      let (same, below) = not_full b h (omega arith) in rw (same, below, e)

  advance-count :
      (b b' : BitmapPage) → advance mc b ≡ some b' → b'.page_allocated ≡ b.page_allocated
  unfolding advance
  advance-count b b' e = ground arith

  taken-is_page_free :
      (b b' : BitmapPage)
      → IsValid b
      → b'.bytes ≡ set b.bytes b.next_free_page
      → (y : ℕ) → is_page_free mc b' y ≡ (not (b.next_free_page == y) && is_page_free mc b y)
  unfolding is_page_free
  taken-is_page_free b b' v e y = rw e (ground (arith, get-set b.bytes b.next_free_page y v.bytes))

  -- On a well-formed page an allocation ends, keeps the page well formed, and does what it may.
  pub allocate_page-Allocates :
      (b : BitmapPage)
      → IsValid b
      → max_pages mc + 1 < 2 ^ 32
      → (result : Option ℕ) × (b' : BitmapPage) × (allocate_page mc b ≡ some (result, b'))
        × IsValid b'
        × Allocates b result b'
  allocate_page-Allocates b v k = elim (dec_lt b.page_allocated (max_pages mc)) [
    | yes room ↦
        let (b', e, v', same) = advance_total b v room in
        (
          some b.next_free_page,
          b',
          allocate_page_given b b' room k e,
          v',
          given b.next_free_page refl
              (is_page_free_below mc b b.next_free_page (v.next room).0 ∙ ap not (v.next room).1)
              (λ y. taken-is_page_free b b' v same y) (advance-count (taken b) b' e),
        )
    | no full_page ↦
        let e : b.page_allocated ≡ max_pages mc =
          omega (arith, v.counted, count-le (get b.bytes) (max_pages mc)) in
        (none, b, allocate_page_full b e k, v, full e refl refl)
  ]
