-- ===== src/Buffer/Pool/Initial.antt =====
-- The pool when it is made, and `CheckAllUnpinned`.
use dis_minisql.Prelude.{
  ℕ, zero, suc, ◌+◌, ◌≡◌, ◌<◌, ◌≤◌, refl, ap, true, not, List, [], arith, mem, Distinct, ltb, leb,
  ◌&&◌,
}
use dis_minisql.Storage.Disk.{DiskManager}
use dis_minisql.Buffer.Replacer.{Replacer}
use dis_minisql.Buffer.Pool.{Pool, blank, frames_from, init, unpinned_from, check_all_unpinned}
use dis_minisql.Buffer.Pool.Invariant.{IsValid}

mem-frames_from : (i n f : ℕ) → mem f (frames_from i n) ≡ (leb i f && ltb f (i + n))
unfolding frames_from
mem-frames_from i zero f = ground arith
mem-frames_from i (suc n) f = ground (arith, mem-frames_from (i + 1) n f)

frames_from-Distinct : (i n : ℕ) → Distinct (frames_from i n)
unfolding frames_from
frames_from-Distinct i zero = tt
frames_from-Distinct i (suc n) =
    (ground (arith, mem-frames_from (i + 1) n i), frames_from-Distinct (i + 1) n)

module _ (R : Replacer) where
  -- A new pool is well formed, with every frame free.
  pub init-IsValid : (pool_size : ℕ) (d : DiskManager) → IsValid R (init R pool_size d) []
  unfolding init blank
  init-IsValid n d = record {
    represents = R.init_lem n;
    queue_below = λ f h. ground arith;
    queued = λ f h. ground (arith, mem-frames_from 0 n f);
    free_below = λ f h. ground (arith, mem-frames_from 0 n f);
    free_distinct = frames_from-Distinct 0 n;
    free_blank = λ f h. (refl, refl, refl);
    entry = λ p f h. ground arith;
    resident = λ f h m. ground (arith, mem-frames_from 0 n f);
    no_entry = refl;
  }

  unpinned_from_lem :
      (left : ℕ) (b : Pool R.State) (i f : ℕ)
      → unpinned_from R left b i ≡ true
      → i ≤ f
      → f < i + left
      → (b.pages f).pin_count ≡ 0
  unfolding unpinned_from
  unpinned_from_lem zero b i f h l k = omega arith
  unpinned_from_lem (suc n) b i f h l k =
      ground (arith, unpinned_from_lem n b (i + 1) f, ap b.pages {x = i} {y = f})

  unpinned_from-true :
      (left : ℕ) (b : Pool R.State) (i : ℕ)
      → ((f : ℕ) → i ≤ f → f < i + left → (b.pages f).pin_count ≡ 0)
      → unpinned_from R left b i ≡ true
  unfolding unpinned_from
  unpinned_from-true zero b i h = refl
  unpinned_from-true (suc n) b i h =
      rw (h i (omega arith) (omega arith))
        (unpinned_from-true n b (i + 1) λ f l k. h f (omega arith) (omega arith))

  -- On a well-formed pool `CheckAllUnpinned` answers true exactly when every frame is free or in
  -- the replacer.
  pub check_all_unpinned_queued :
      (b : Pool R.State) (q : List ℕ)
      → IsValid R b q
      → (check_all_unpinned R b ≡ true
          → (f : ℕ) → f < b.pool_size
          → mem f q ≡ not (mem f b.free_list))
        × (((f : ℕ) → f < b.pool_size → mem f q ≡ not (mem f b.free_list))
            → check_all_unpinned R b ≡ true)
  unfolding check_all_unpinned
  check_all_unpinned_queued b q v = (
    λ h f l. ground (arith, unpinned_from_lem b.pool_size b 0 f, v.queued f l),
    λ h.
        unpinned_from-true b.pool_size b 0 λ f l k. ground (arith, h f, v.queued f, v.free_blank f),
  )
