-- ===== src/Buffer/Pool/Visit.antt =====
-- buffer/buffer_pool_manager.cpp: a page of the pool that is fetched, written and unpinned as dirty.
use dis_minisql.Prelude.{
  ℕ, ◌+◌, ◌-◌, ◌≡◌, refl, inl, inr, Bool, true, false, Option, some, List, ◌==◌, if◌then◌else◌,
  arith, Bool-cases, ap, ◌∙◌, ==→eq, ==_ne, ==_self, ◌≢◌,
}
use dis_minisql.Storage.Disk.{Bytes}
use dis_minisql.Buffer.Replacer.{Replacer}
use dis_minisql.Buffer.Pool.{Pool, Page, fetch_page, fetch_hit, unpin_frame, unpin_page}
use dis_minisql.Buffer.Pool.Access.{bytes_of, with_bytes}
use dis_minisql.Buffer.Pool.Invariant.{IsValid}
use dis_minisql.Buffer.Pool.Fetch.{pinned, fetch_hit-IsValid}
use dis_minisql.Buffer.Pool.Unpin.{lowered, put_page, put_page-IsValid, unpin_page-IsValid}

module _ (R : Replacer) where
  open R use {State}

  -- The pages of the pool and their bytes stay where they are.
  abbrev pub Keeps : Pool State → Pool State → Type 0
  Keeps b b' =
      ((p : Option ℕ) → b'.page_table p ≡ b.page_table p)
      × ((g : ℕ) → bytes_of R b' g ≡ bytes_of R b g)

  lowered-bytes :
      (b : Pool State) (f : ℕ) (dirty : Bool) (g : ℕ)
      → bytes_of R (put_page R b f (lowered (b.pages f) dirty)) g ≡ bytes_of R b g
  lowered-bytes b f dirty g = elim (Bool-cases (f == g)) [
    | inl h ↦ rw (bytes_of, h) (ap (λ k. (b.pages k).data_bytes) (==→eq f g h))
    | inr h ↦ rw (bytes_of, h)
  ]

  pinned-bytes :
      (b : Pool State) (f : ℕ) (r : State) (g : ℕ) → bytes_of R (pinned R b f r) g ≡ bytes_of R b g
  pinned-bytes b f r g = elim (Bool-cases (f == g)) [
    | inl h ↦ rw (bytes_of, h) (ap (λ k. (b.pages k).data_bytes) (==→eq f g h))
    | inr h ↦ rw (bytes_of, h)
  ]

  with_bytes-bytes :
      (b : Pool State) (f : ℕ) (x : Bytes) (g : ℕ)
      → bytes_of R (with_bytes R b f x) g ≡ (if f == g then x else bytes_of R b g)
  with_bytes-bytes b f x g = elim (Bool-cases (f == g)) [
    | inl h ↦ rw (bytes_of, h)
    | inr h ↦ rw (bytes_of, h)
  ]

  unpin_frame-Keeps : (b : Pool State) (f : ℕ) (dirty : Bool) → Keeps b (unpin_frame R b f dirty).1
  unfolding unpin_frame
  unpin_frame-Keeps b f dirty = elim (Bool-cases ((b.pages f).pin_count == 0)) [
    | inl h ↦ (λ p. rw h, λ g. rw h)
    | inr h ↦ elim (Bool-cases ((b.pages f).pin_count - 1 == 0)) [
      | inl z ↦ (λ p. rw (h, z), λ g. rw (h, z) (lowered-bytes b f dirty g))
      | inr z ↦ (λ p. rw (h, z), λ g. rw (h, z) (lowered-bytes b f dirty g))
    ]
  ]

  unpin_page-Keeps :
      (b : Pool State) (p f : ℕ) (dirty : Bool)
      → b.page_table (some p) ≡ some f
      → Keeps b (unpin_page R b (some p) dirty).1
  unfolding unpin_page
  unpin_page-Keeps b p f dirty e = rw (unpin_page, e) (unpin_frame-Keeps b f dirty)

  unpin_frame-others :
      (b : Pool State) (f : ℕ) (dirty : Bool) (g : ℕ)
      → (f == g) ≡ false
      → (unpin_frame R b f dirty).1.pages g ≡ b.pages g
  unfolding unpin_frame
  unpin_frame-others b f dirty g apart = elim (Bool-cases ((b.pages f).pin_count == 0)) [
    | inl h ↦ rw h
    | inr h ↦ elim (Bool-cases ((b.pages f).pin_count - 1 == 0)) [
      | inl z ↦ rw (h, z, apart)
      | inr z ↦ rw (h, z, apart)
    ]
  ]

  unpin_page-others :
      (b : Pool State) (p f : ℕ) (dirty : Bool) (g : ℕ)
      → b.page_table (some p) ≡ some f
      → (f == g) ≡ false
      → (unpin_page R b (some p) dirty).1.pages g ≡ b.pages g
  unfolding unpin_page
  unpin_page-others b p f dirty g e apart =
      rw (unpin_page, e) (unpin_frame-others b f dirty g apart)

  -- A page that was pinned is dirty after such an unpin.
  lowered-is_dirty :
      (y x : Page)
      → y.pin_count ≢ 0
      → x ≡ (if y.pin_count == 0 then y else lowered y true)
      → x.is_dirty ≡ true
  lowered-is_dirty y x n e = ap (λ x. x.is_dirty) e ∙ rw (==_ne y.pin_count 0 n)

  visited-pin_count :
      (b : Pool State) (f : ℕ) (r : State) (x : Bytes)
      → ((with_bytes R (pinned R b f r) f x).pages f).pin_count ≡ (b.pages f).pin_count + 1
  visited-pin_count b f r x = rw (==_self f)

  visited-others :
      (b : Pool State) (f : ℕ) (r : State) (x : Bytes) (g : ℕ)
      → (f == g) ≡ false
      → (with_bytes R (pinned R b f r) f x).pages g ≡ b.pages g
  visited-others b f r x g apart = rw apart

  fetch_resident :
      (b b' : Pool State) (p f : ℕ)
      → b.page_table (some p) ≡ some f
      → fetch_hit R b f ≡ some (some f, b')
      → fetch_page R b (some p) ≡ some (some f, b')
  unfolding fetch_page
  fetch_resident b b' p f e h = rw (e, fetch_page) h

  -- Fetching a page of the pool, changing its bytes and unpinning it as dirty changes these bytes
  -- only, marks the page dirty, and keeps the pool well formed.
  pub visit :
      (b : Pool State) (q : List ℕ) (p f : ℕ) (change : Bytes → Bytes)
      → IsValid R b q
      → b.page_table (some p) ≡ some f
      → (b1 : Pool State) × (b2 : Pool State) × (q' : List ℕ) × (fetch_page R b (some p)
          ≡ some (some f, b1))
        × ((unpin_page R (with_bytes R b1 f (change (bytes_of R b1 f))) (some p) true).1 ≡ b2)
        × IsValid R b2 q'
        × ((k : Option ℕ) → b2.page_table k ≡ b.page_table k)
        × ((g : ℕ) → bytes_of R b2 g ≡ (if f == g then change (bytes_of R b f) else bytes_of R b g))
        × ((b2.pages f).is_dirty ≡ true)
        × ((g : ℕ) → (f == g) ≡ false → (b2.pages g).is_dirty ≡ (b.pages g).is_dirty)
  visit b q p f change v e =
      let (h, _, m) = v.entry (some p) f e in
      let (r, hit, w) = fetch_hit-IsValid R b q f v h m in
      let b1 : Pool State = pinned R b f r in
      let x : Bytes = change (bytes_of R b1 f) in
      let b2 : Pool State = with_bytes R b1 f x in
      let w2 = put_page-IsValid R b1 _ f (record (b1.pages f) { data_bytes = x }) w m refl refl in
      let (q', w3, page, _, _) = unpin_page-IsValid R b2 _ p f true w2 e in
      let (table, bytes) = unpin_page-Keeps b2 p f true e in
      (
        b1,
        (unpin_page R b2 (some p) true).1,
        q',
        fetch_resident b b1 p f e hit,
        refl,
        w3,
        table,
        λ g. bytes g ∙ with_bytes-bytes b1 f x g ∙ rw (pinned-bytes b f r f, pinned-bytes b f r g),
        lowered-is_dirty (b2.pages f) _ (λ z. absurd (omega (arith, z, visited-pin_count b f r x)))
            page,
        λ g apart.
            ap (λ y. y.is_dirty)
              (unpin_page-others b2 p f true g e apart ∙ visited-others b f r x g apart),
      )
