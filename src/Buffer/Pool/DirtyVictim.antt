-- ===== src/Buffer/Pool/DirtyVictim.antt =====
-- The page that `FetchPage` and `NewPage` write back when the frame that they take is dirty.
use dis_minisql.Prelude.{
  ℕ, ◌≡◌, ◌≢◌, ◌<◌, refl, subst, sym, ap, ◌∙◌, true, Option, some, none, List, arith, ◌==◌,
  if◌then◌else◌, ==_ne, ==_self,
}
use dis_minisql.Storage.Disk.{DiskManager}
use dis_minisql.Storage.Disk.Data.{bytes_of, Readable, bytes_of-write_page}
use dis_minisql.Buffer.Replacer.{Replacer}
use dis_minisql.Buffer.Pool.{Pool, Page, fetch_page}
use dis_minisql.Buffer.Pool.Invariant.{IsValid}
use dis_minisql.Buffer.Pool.Install.{installed, read_in}
use dis_minisql.Buffer.Pool.Fetch.{Fetches, hit, no_frame, read, fetch_page-IsValid, backed}
use dis_minisql.Buffer.Pool.Contents.{content, content-installed, content_at}

bytes_of-backed :
    (d : DiskManager) (p g : ℕ) (page : Page)
    → page.is_dirty ≡ true
    → bytes_of (backed d p page) g ≡ (if p == g then page.data_bytes else bytes_of d g)
bytes_of-backed d p g page h = rw h (bytes_of-write_page d p g page.data_bytes)

module _ (R : Replacer) where
  -- What a fetch of `p` makes of the page `old` of the frame that it takes.
  abbrev pub Loses : Pool R.State → ℕ → ℕ → ℕ → Option ℕ → Pool R.State → Type 0
  Loses b p old f result b' =
      (result ≡ some f)
      × (content R b' p ≡ (b.pages f).data_bytes)
      × (content R b' old ≡ bytes_of b.disk old)

  Fetches-Loses :
      (b : Pool R.State) (q : List ℕ) (p old f : ℕ) (result : Option ℕ) (b' : Pool R.State)
      → IsValid R b q
      → (b.pages f).pin_count ≡ 0
      → ((g : ℕ) → g < b.pool_size → (b.pages g).pin_count ≡ 0 → g ≡ f)
      → b.page_table (some p) ≡ none
      → b.page_table (some old) ≡ some f
      → (b.pages f).is_dirty ≡ true
      → Fetches R b p result b'
      → Loses b p old f result b'
  Fetches-Loses b q p old f _ _ v z only missing at dirty (hit g r e) = ground (arith, e, missing)
  Fetches-Loses b q p old f _ _ v z only missing at dirty (no_frame e all) =
      let (h, _, m) = v.entry (some old) f at in absurd (all f h z)
  Fetches-Loses b q p old f _ _ v z only missing at dirty
        (read g b1 q' r e res (pages, table, disk, size)) =
      subst (λ g. Loses b p old f (some g) (filled g)) same
        (
          refl,
          content-installed R b1 f p d _ r ∙ bytes_p,
          content_at R (filled f) old none gone ∙ bytes_old,
        )
    where
      filled : ℕ → Pool R.State
      filled g =
          installed R b1 g p (backed b1.disk p (b1.pages g))
            (read_in R p (bytes_of (backed b1.disk p (b1.pages g)) p)) r

      d : DiskManager
      d = backed b1.disk p (b1.pages f)

      same : f ≡ g
      same =
          let h = subst (λ n. g < n) size res.frame_below in
          sym (only g h (subst (λ pages. (pages g).pin_count ≡ 0) pages res.frame_unpinned))

      bytes_p : bytes_of d p ≡ (b.pages f).data_bytes
      bytes_p = rw (bytes_of-backed b1.disk p p (b1.pages f) (rw pages dirty), ==_self p, pages)

      apart : p ≢ old
      apart k = ground (arith, missing, at, ap (λ p. b.page_table (some p)) k)

      bytes_old : bytes_of d old ≡ bytes_of b.disk old
      bytes_old =
          rw (bytes_of-backed b1.disk p old (b1.pages f) (rw pages dirty), ==_ne p old apart, disk)

      gone : (filled f).page_table (some old) ≡ none
      gone = rw (==_ne p old apart, pages, (v.entry (some old) f at).1, ==_self old)

  -- On a well-formed pool whose only unpinned frame holds the dirty
  -- page `old`: fetching a page `p` that is not in the pool and lies below 2 GiB in the file writes the
  -- bytes of `old` to `p`. The content of `p` is then what the frame of `old` held, and that of
  -- `old` is what the file held before.
  pub fetch_page-dirty_victim :
      (b : Pool R.State) (q : List ℕ) (p old f : ℕ)
      → IsValid R b q
      → (b.pages f).pin_count ≡ 0
      → ((g : ℕ) → g < b.pool_size → (b.pages g).pin_count ≡ 0 → g ≡ f)
      → Readable p
      → b.page_table (some p) ≡ none
      → b.page_table (some old) ≡ some f
      → (b.pages f).is_dirty ≡ true
      → (result : Option ℕ) × (b' : Pool R.State) × (fetch_page R b (some p) ≡ some (result, b'))
        × Loses b p old f result b'
  fetch_page-dirty_victim b q p old f v z only h missing at dirty =
      let (result, b', _, e, _, how) = fetch_page-IsValid R b q p v h in
      (result, b', e, Fetches-Loses b q p old f result b' v z only missing at dirty how)
