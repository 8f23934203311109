-- ===== src/Page/Bitmap/Search.antt =====
-- The search for the next free page: it ends, at a free page, if there is one.
use native.Mathlib.Decide.{ℕ_discrete}
use native.Mathlib.Nat.{mod_self}
use dis_minisql.Prelude.{
  ==_ne, ℕ, zero, suc, ◌+◌, ◌-◌, ◌<◌, ◌≡◌, ap, ◌∙◌, true, false, not, leb, ◌==◌, if◌then◌else◌,
  arith, ◌≢◌, inl, inr, Bool-cases, some,
}
use dis_minisql.Page.Bitmap.{BitmapPage, get, max_pages, is_page_free, next_page, search, advance}

module _ (mc : ℕ) where
  -- How far the search is from a page.
  abbrev pub distance : ℕ → ℕ → ℕ
  distance n p = if leb n p then p - n else p + max_pages mc - n

  pub next_page_lem :
      (n : ℕ) → n < max_pages mc → next_page mc n ≡ (if n + 1 == max_pages mc then 0 else n + 1)
  unfolding next_page
  next_page_lem n h = elim (ℕ_discrete (n + 1) (max_pages mc)) [
    | yes e ↦ rw e (ground (arith, mod_self (max_pages mc)))
    | no ne ↦ ground arith
  ]

  pub is_page_free_below :
      (b : BitmapPage) (n : ℕ) → n < max_pages mc → is_page_free mc b n ≡ not (get b.bytes n)
  unfolding is_page_free
  is_page_free_below b n h = ground arith

  pub lt_of_is_page_free : (b : BitmapPage) (x : ℕ) → is_page_free mc b x ≡ true → x < max_pages mc
  unfolding is_page_free
  lt_of_is_page_free b x e = ground arith

  search_hit :
      (fuel : ℕ) (b : BitmapPage) (n : ℕ)
      → is_page_free mc b n ≡ true
      → search mc (suc fuel) b n ≡ some n
  unfolding search
  search_hit fuel b n e = rw (e, search)

  search_miss :
      (fuel : ℕ) (b : BitmapPage) (n : ℕ)
      → is_page_free mc b n ≡ false
      → search mc (suc fuel) b n ≡ search mc fuel b (next_page mc n)
  unfolding search
  search_miss fuel b n e = rw (e, search)

  step_nearer :
      (n p : ℕ)
      → n < max_pages mc
      → p < max_pages mc
      → n ≢ p
      → distance (next_page mc n) p < distance n p
  step_nearer n p hn hp ne = ground (arith, next_page_lem n)

  -- From any page the search ends at a free page, if there is one, in at most a round.
  pub search_total :
      (fuel : ℕ) (b : BitmapPage) (n p : ℕ)
      → n < max_pages mc
      → p < max_pages mc
      → get b.bytes p ≡ false
      → distance n p < fuel
      → (m : ℕ) × (search mc fuel b n ≡ some m) × (m < max_pages mc) × (get b.bytes m ≡ false)
  search_total zero b n p hn hp c d = absurd (omega arith)
  search_total (suc fuel) b n p hn hp c d = elim (Bool-cases (get b.bytes n)) [
    | inl taken ↦
        let (m, e, l, free) =
          search_total fuel b (next_page mc n) p (ground (arith, next_page_lem n)) hp c
            (omega (arith, step_nearer n p hn hp (λ e. ground (arith, ap (get b.bytes) e)))) in
        (m, search_miss fuel b n (is_page_free_below b n hn ∙ ap not taken) ∙ e, l, free)
    | inr free ↦ (n, search_hit fuel b n (is_page_free_below b n hn ∙ ap not free), hn, free)
  ]

  pub advance_full :
      (b : BitmapPage)
      → b.page_allocated ≡ max_pages mc
      → advance mc b ≡ some (record b { next_free_page = 0 })
  unfolding advance
  advance_full b e = ground arith

  pub advance-search :
      (b : BitmapPage) (m : ℕ)
      → b.page_allocated ≢ max_pages mc
      → search mc (max_pages mc) b b.next_free_page ≡ some m
      → advance mc b ≡ some (record b { next_free_page = m })
  unfolding advance
  advance-search b m ne e = rw (e, ==_ne b.page_allocated (max_pages mc) ne)
