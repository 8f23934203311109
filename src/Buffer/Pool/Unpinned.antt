-- ===== src/Buffer/Pool/Unpinned.antt =====
-- buffer/buffer_pool_manager.cpp: what `UnpinPage` keeps of a frame when the page is not said to be
-- dirty.
use dis_minisql.Prelude.{
  ℕ, ◌-◌, ◌≡◌, refl, inl, inr, false, Option, none, some, ◌==◌, update, Bool-cases, ==→eq, ap, ◌∙◌,
  sym,
}
use dis_minisql.Buffer.Replacer.{Replacer}
use dis_minisql.Buffer.Pool.{Pool, Page, unpin_frame, unpin_page}

module _ (R : Replacer) where
  open R use {State}

  abbrev pub Same : Pool State → Pool State → ℕ → Type 0
  Same b b' g =
      ((b'.pages g).data_bytes ≡ (b.pages g).data_bytes)
      × ((b'.pages g).is_dirty ≡ (b.pages g).is_dirty)

  -- A frame and the frame with one pin less.
  lowered-Same :
      (b : Pool State) (f g pins : ℕ) (old : Page)
      → b.pages f ≡ old
      → Same b (record b { pages = update b.pages f (record old { pin_count = pins }) }) g
  lowered-Same b f g pins old e = elim (Bool-cases (f == g)) [
    | inl h ↦
        let same : b.pages g ≡ old = ap b.pages (sym (==→eq f g h)) ∙ e in
        (rw (h, same), rw (h, same))
    | inr h ↦ (rw h, rw h)
  ]

  unpin_frame-Same : (b : Pool State) (f g : ℕ) → Same b (unpin_frame R b f false).1 g
  unfolding unpin_frame
  unpin_frame-Same b f g = elim (Bool-cases ((b.pages f).pin_count == 0)) [
    | inl h ↦ (rw h, rw h)
    | inr h ↦ elim (Bool-cases ((b.pages f).pin_count - 1 == 0)) [
      | inl z ↦ (
        rw (h, z, (lowered-Same b f g ((b.pages f).pin_count - 1) (b.pages f) refl).0),
        rw (h, z, (lowered-Same b f g ((b.pages f).pin_count - 1) (b.pages f) refl).1),
      )
      | inr z ↦ (
        rw (h, z, (lowered-Same b f g ((b.pages f).pin_count - 1) (b.pages f) refl).0),
        rw (h, z, (lowered-Same b f g ((b.pages f).pin_count - 1) (b.pages f) refl).1),
      )
    ]
  ]

  pub unpin_page-Same :
      (b : Pool State) (p : Option ℕ) (g : ℕ) → Same b (unpin_page R b p false).1 g
  unfolding unpin_page
  unpin_page-Same b p g = at (b.page_table p) refl
    where
      at : (entry : Option ℕ) → b.page_table p ≡ entry → Same b (unpin_page R b p false).1 g
      at none e = (rw (unpin_page, e), rw (unpin_page, e))
      at (some f) e = (
        rw (unpin_page, e, (unpin_frame-Same b f g).0),
        rw (unpin_page, e, (unpin_frame-Same b f g).1),
      )
