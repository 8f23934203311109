-- ===== src/Page/Bitmap/Release.antt =====
-- Release of a page of an extent, the empty bitmap, and the low-level test.
use native.Mathlib.Decide.{ℕ_discrete}
use dis_minisql.Prelude.{
  ℕ, zero, suc, ◌+◌, ◌-◌, ◌<◌, ◌≡◌, refl, sym, ◌∙◌, Bool, true, false, ◌&&◌, ltb, leb, ◌==◌,
  if◌then◌else◌, arith, inl, inr, Bool-cases,
}
use dis_minisql.Page.Bitmap.{
  BitmapPage, reset, get, empty, max_pages, is_page_free, de_allocate_page,
}
use dis_minisql.Page.Bitmap.Bits.{reset-AreBytes, get-reset, count, count-le, count-add}
use dis_minisql.Page.Bitmap.Allocation.{IsValid}
use dis_minisql.Page.Bitmap.Search.{is_page_free_below}

get-empty : (x : ℕ) → get empty.bytes x ≡ false
unfolding get empty
get-empty x = ground arith

count-none : (p : ℕ → Bool) (n : ℕ) → ((x : ℕ) → p x ≡ false) → count p n ≡ 0
unfolding count
count-none p zero h = refl
count-none p (suc n) h = ground (arith, h n, count-none p n h)

module _ (mc : ℕ) where
  -- A new bitmap is well formed.
  pub empty-IsValid : IsValid mc empty
  unfolding empty
  empty-IsValid = record {
    bytes = λ i. omega arith;
    counted = sym (count-none (get empty.bytes) (max_pages mc) get-empty);
    in_page = omega arith;
    next = λ h. (h, get-empty 0);
  }

  -- The page after a release that is not refused.
  abbrev released : BitmapPage → ℕ → BitmapPage
  released b x = record {
    page_allocated = b.page_allocated - 1;
    next_free_page = if b.page_allocated == max_pages mc then x else b.next_free_page;
    bytes = reset b.bytes x;
  }

  de_allocate_page_taken :
      (b : BitmapPage) (x : ℕ)
      → x < max_pages mc
      → get b.bytes x ≡ true
      → (b.page_allocated == 0) ≡ false
      → de_allocate_page mc b x ≡ (true, released b x)
  unfolding de_allocate_page is_page_free
  de_allocate_page_taken b x h e some_left = rw (leb_above, e, some_left)
    where
      leb_above : leb (max_pages mc) x ≡ false
      leb_above = ground arith

  de_allocate_page_refused :
      (b : BitmapPage) (x : ℕ)
      → (ltb x (max_pages mc) && get b.bytes x) ≡ false
      → de_allocate_page mc b x ≡ (false, b)
  unfolding de_allocate_page is_page_free
  de_allocate_page_refused b x h = ground arith

  module _ (b : BitmapPage) (x : ℕ) (v : IsValid mc b) (h : x < max_pages mc)
      (e : get b.bytes x ≡ true) where
    released-counted : b.page_allocated ≡ count (get (reset b.bytes x)) (max_pages mc) + 1
    released-counted =
        v.counted
        ∙ count-add (get (reset b.bytes x)) (get b.bytes) x (max_pages mc) h
            (ground (arith, get-reset b.bytes x x v.bytes)) e
            (λ i ne. ground (arith, get-reset b.bytes x i v.bytes))

    released-IsValid : IsValid mc (released b x)
    released-IsValid = record {
      bytes = reset-AreBytes b.bytes x v.bytes;
      counted = omega (arith, released-counted);
      in_page = ground (arith, v.in_page);
      next = λ _. released_next;
    }
      where
        released_next :
            ((released b x).next_free_page < max_pages mc)
            × (get (reset b.bytes x) (released b x).next_free_page ≡ false)
        released_next = elim (ℕ_discrete b.page_allocated (max_pages mc)) [
          | yes full ↦ ground (arith, get-reset b.bytes x x v.bytes)
          | no room ↦ ground (
            arith,
            v.next (omega (arith, v.counted, count-le (get b.bytes) (max_pages mc))),
            get-reset b.bytes x b.next_free_page v.bytes,
          )
        ]

    released-is_page_free :
        (y : ℕ) → is_page_free mc (released b x) y ≡ (if x == y then true else is_page_free mc b y)
    unfolding is_page_free
    released-is_page_free y = ground (arith, get-reset b.bytes x y v.bytes)

  -- A release keeps the page well formed. It is done exactly if the page is one of the extent that
  -- is taken; then that page is free and every other stays as it was, else nothing changes.
  pub de_allocate_page-IsValid :
      (b : BitmapPage) (x : ℕ)
      → IsValid mc b
      → IsValid mc (de_allocate_page mc b x).1
        × ((de_allocate_page mc b x).0 ≡ (ltb x (max_pages mc) && get b.bytes x))
        × ((y : ℕ)
            → is_page_free mc (de_allocate_page mc b x).1 y
              ≡ (if (de_allocate_page mc b x).0 && x == y then true else is_page_free mc b y))
  de_allocate_page-IsValid b x v = elim (Bool-cases (ltb x (max_pages mc) && get b.bytes x)) [
    | inl taken ↦
        let h : x < max_pages mc = ground arith in
        let e : get b.bytes x ≡ true = ground arith in
        rw (de_allocate_page_taken b x h e (ground (arith, released-counted b x v h e)))
          (released-IsValid b x v h e, sym taken, released-is_page_free b x v h e)
    | inr refused ↦ rw (de_allocate_page_refused b x refused) (v, sym refused, λ y. refl)
  ]

  -- A page of the extent that is not free is released.
  pub de_allocate_page_done :
      (b : BitmapPage) (x : ℕ)
      → IsValid mc b
      → x < max_pages mc
      → is_page_free mc b x ≡ false
      → IsValid mc (de_allocate_page mc b x).1
        × ((y : ℕ)
            → is_page_free mc (de_allocate_page mc b x).1 y
              ≡ (if x == y then true else is_page_free mc b y))
        × ((de_allocate_page mc b x).1.page_allocated + 1 ≡ b.page_allocated)
  de_allocate_page_done b x v h f =
      let e : get b.bytes x ≡ true = ground (arith, is_page_free_below mc b x h) in
      rw (de_allocate_page_taken b x h e (ground (arith, released-counted b x v h e))) (
        released-IsValid b x v h e,
        released-is_page_free b x v h e,
        omega (arith, released-counted b x v h e),
      )
