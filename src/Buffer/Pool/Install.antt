-- ===== src/Buffer/Pool/Install.antt =====
-- A page enters a reserved frame: the end of `FetchPage` and of `NewPage`.
use dis_minisql.Prelude.{
  ℕ, ◌≡◌, ◌≢◌, ◌<◌, refl, subst, sym, ap, ◌∙◌, false, ◌⊎◌, inl, inr, Option, some, none, List,
  arith, mem, update, erase_absent, Bool-cases, ==_ne,
}
use native.Mathlib.Decide.{ℕ_discrete}
use dis_minisql.Storage.Disk.{DiskManager, Bytes}
use dis_minisql.Buffer.Replacer.{Replacer, without}
use dis_minisql.Buffer.Pool.{
  Pool, Page, blank, same_id, set_entry, pin_frame, fill_frame, write_back, read_page,
}
use dis_minisql.Buffer.Pool.Invariant.{IsValid, Reserved, same→eq, same_self}

pub without_absent : (bound : ℕ) (q : List ℕ) (f : ℕ) → mem f q ≡ false → without bound q f ≡ q
without_absent bound q f h = ground (arith, erase_absent f q)

-- What the table answers after an old entry is erased and a new one made.
entry_cases :
    (table : Option ℕ → Option ℕ) (old : Option ℕ) (p f g : ℕ) (pid : Option ℕ)
    → set_entry (set_entry table old none) (some p) (some f) pid ≡ some g
    → ((pid ≡ some p) × (f ≡ g)) ⊎ ((old ≢ pid) × (table pid ≡ some g))
entry_cases table old p f g pid h = elim (Bool-cases (same_id (some p) pid)) [
  | inl here ↦ inl (sym (same→eq (some p) pid here), ground (arith, here))
  | inr other ↦ elim (Bool-cases (same_id old pid)) [
    | inl gone ↦ absurd (ground (arith, other, gone))
    | inr stays ↦
        inr (λ e. ground (arith, ap (same_id old) e, same_self old), ground (arith, other, stays))
  ]
]

entry_old :
    (table : Option ℕ → Option ℕ) (old : Option ℕ) (p f : ℕ) (pid : Option ℕ)
    → some p ≢ pid
    → old ≢ pid
    → set_entry (set_entry table old none) (some p) (some f) pid ≡ table pid
entry_old table old p f pid h k = rw (same_ne (some p) pid h, same_ne old pid k)
  where
    same_ne : (p q : Option ℕ) → p ≢ q → same_id p q ≡ false
    same_ne p q h = ground (arith, same→eq p q)

module _ (R : Replacer) where
  -- The pool with a page in frame `f`.
  abbrev pub installed : Pool R.State → ℕ → ℕ → DiskManager → Page → R.State → Pool R.State
  installed b f p d page r = record b {
    disk = d;
    page_table = set_entry (set_entry b.page_table (b.pages f).page_id none) (some p) (some f);
    pages = update b.pages f page;
    replacer = r;
  }

  module _ (b : Pool R.State) (f p : ℕ) (d : DiskManager) (page : Page) (r : R.State) (q : List ℕ)
      (v : Reserved R b f q) (missing : b.page_table (some p) ≡ none) (id : page.page_id ≡ some p)
      (pinned : page.pin_count ≢ 0) (w : R.Represents b.pool_size r q) where
    installed-entry :
        (pid : Option ℕ) (g : ℕ)
        → (installed b f p d page r).page_table pid ≡ some g
        → (g < b.pool_size)
          × ((update b.pages f page g).page_id ≡ pid)
          × (mem g b.free_list ≡ false)
    installed-entry pid g h = elim (entry_cases b.page_table (b.pages f).page_id p f g pid h) [
      | inl (here, e) ↦ ground (arith, v.frame_below, v.frame_taken, id)
      | inr (gone, old) ↦ elim (ℕ_discrete f g) [
        | yes e ↦ absurd (gone (rw e (v.entry pid g old).1))
        | no ne ↦ ground (arith, v.entry pid g old)
      ]
    ]

    installed-resident :
        (g : ℕ)
        → g < b.pool_size
        → mem g b.free_list ≡ false
        → (installed b f p d page r).page_table (update b.pages f page g).page_id ≡ some g
    installed-resident g h m = elim (ℕ_discrete f g) [
      | yes e ↦ ground (arith, ap (b.pages) e, id, same_self (some p))
      | no ne ↦
          let old = v.resident g h ne m in
          rw (==_ne f g ne) (
            entry_old b.page_table (b.pages f).page_id p f (b.pages g).page_id
              (λ e. ground (arith, missing, old, ap b.page_table e))
              (λ e. ne (sym (v.frame_owner g (ap b.page_table e ∙ old))))
            ∙ old)
    ]

    pub installed-IsValid : IsValid R (installed b f p d page r) q
    installed-IsValid = record {
      represents = w;
      queue_below = v.queue_below;
      queued = λ g h. ground (arith, v.queued g h, v.frame_out);
      free_below = v.free_below;
      free_distinct = v.free_distinct;
      free_blank = λ g h. ground (arith, v.free_blank g h, v.frame_taken);
      entry = installed-entry;
      resident = installed-resident;
      no_entry = ground (arith, v.no_entry);
    }

  pub pin_frame_lem :
      (b : Pool R.State) (f : ℕ) (r : R.State)
      → R.pin b.replacer f ≡ some r
      → pin_frame R b f ≡ some (some f, record b { replacer = r })
  unfolding pin_frame
  pin_frame_lem b f r e = rw (e, pin_frame)

  -- The page that `FetchPage` makes of the bytes that it reads.
  abbrev pub read_in : ℕ → Bytes → Page
  read_in p x = record blank { data_bytes = x; page_id = some p; pin_count = 1 }

  -- `FetchPage` of a page that is not in the pool ends with the page in the reserved frame, if the
  -- page can be read once the frame's old bytes, if they are dirty, are written back.
  pub fill_frame_lem :
      (b : Pool R.State) (f p : ℕ) (q : List ℕ) (d : DiskManager) (x : Bytes)
      → Reserved R b f q
      → b.page_table (some p) ≡ none
      → write_back b.disk (some p) (b.pages f) ≡ some d
      → read_page d (some p) ≡ some x
      → (r : R.State) × (fill_frame R (some p) (f, b)
          ≡ some (some f, installed b f p d (read_in p x) r))
        × IsValid R (installed b f p d (read_in p x) r) q
  unfolding fill_frame blank
  fill_frame_lem b f p q d x v missing written read =
      let (r, e, w) = R.pin_lem b.pool_size b.replacer q f v.represents in
      let same = without_absent b.pool_size q f v.frame_out in
      (
        r,
        rw (written, fill_frame, read) (pin_frame_lem _ f r e),
        installed-IsValid b f p d (read_in p x) r q v missing refl (λ z. omega arith)
            (subst (R.Represents b.pool_size r) same w),
      )
