-- ===== src/Buffer/Pool/Frames.antt =====
-- The choice of a frame.
use dis_minisql.Prelude.{
  ℕ, suc, ◌≡◌, ◌≢◌, ◌<◌, refl, subst, suc_ne_zero, ◌||◌, ap, true, false, Option, some, none, List,
  [], ◌∷◌, arith, mem, erase, Distinct, ◌==◌, length, mem-erase,
}
use dis_minisql.Buffer.Replacer.{Replacer}
use dis_minisql.Buffer.Pool.{Pool, take_victim, take_frame}
use dis_minisql.Buffer.Pool.Invariant.{IsValid, Reserved}

-- What a frame is taken from changes the free list and the replacer alone.
abbrev pub SameFrames : {S : Type 0} → Pool S → Pool S → Type 0
SameFrames b b' =
    (b'.pages ≡ b.pages)
    × (b'.page_table ≡ b.page_table)
    × (b'.disk ≡ b.disk)
    × (b'.pool_size ≡ b.pool_size)

module _ (R : Replacer) where
  -- Either every frame is in use and pinned, or a frame is reserved.
  pub data Takes (b : Pool R.State) (q : List ℕ) : Option (Option (ℕ × Pool R.State)) → Type 0 where
    none_left :
        b.free_list ≡ []
        → ((f : ℕ) → f < b.pool_size → (b.pages f).pin_count ≢ 0)
        → Takes b q (some none)
    taken :
        (f : ℕ) (b' : Pool R.State) (q' : List ℕ)
        → Reserved R b' f q'
        → SameFrames b b'
        → Takes b q (some (some (f, b')))

  take_victim-some :
      (b : Pool R.State) (f n : ℕ)
      → R.size b.replacer ≡ suc n
      → (R.victim b.replacer).0 ≡ some f
      → take_victim R b ≡ some (some (f, record b { replacer = (R.victim b.replacer).1 }))
  unfolding take_victim
  take_victim-some b f n e given = rw (e, suc_ne_zero n, given)

  take_victim-none : (b : Pool R.State) → R.size b.replacer ≡ 0 → take_victim R b ≡ some none
  unfolding take_victim
  take_victim-none b e = rw e

  victim-Reserved :
      (b : Pool R.State) (q : List ℕ) (f : ℕ) (r : R.State)
      → IsValid R b q
      → mem f q ≡ true
      → R.Represents b.pool_size r (erase f q)
      → Distinct q
      → Reserved R (record b { replacer = r }) f (erase f q)
  victim-Reserved b q f r v m w d =
      let below = v.queue_below f m in
      record {
        represents = w;
        queue_below = λ g h. v.queue_below g (ground (arith, mem-erase g f q));
        queued = λ g h ne. ground (arith, v.queued g h, mem-erase g f q d);
        free_below = v.free_below;
        free_distinct = v.free_distinct;
        free_blank = v.free_blank;
        entry = v.entry;
        resident = λ g h _. v.resident g h;
        no_entry = v.no_entry;
        frame_below = below;
        frame_out = ground (arith, mem-erase f f q d);
        frame_taken = ground (arith, v.queued f below);
        frame_unpinned = ground (arith, v.queued f below);
        frame_owner = λ g e. ground (arith, v.resident f below, v.queued f below);
      }

  take_victim-Takes :
      (b : Pool R.State) (q : List ℕ)
      → IsValid R b q
      → b.free_list ≡ []
      → Takes b q (take_victim R b)
  take_victim-Takes b [] v e =
      rw (take_victim-none b (R.size_lem b.pool_size b.replacer [] v.represents))
        (none_left e λ f h. ground (arith, v.queued f h))
  take_victim-Takes b (g ∷ q) v e =
      let (f, given, m, w) = R.victim_lem b.pool_size b.replacer g q v.represents in
      let d = R.distinct_lem b.pool_size b.replacer (g ∷ q) v.represents in
      rw
        (take_victim-some b f (length q) (R.size_lem b.pool_size b.replacer (g ∷ q) v.represents)
          given)
        (taken f _ (erase f (g ∷ q)) (victim-Reserved b (g ∷ q) f _ v m w d)
          (refl, refl, refl, refl))

  free-Reserved :
      (b : Pool R.State) (q : List ℕ) (f : ℕ) (rest : List ℕ)
      → IsValid R b q
      → b.free_list ≡ f ∷ rest
      → Reserved R (record b { free_list = rest }) f q
  free-Reserved b q f rest v e = record {
    represents = v.represents;
    queue_below = v.queue_below;
    queued = λ g h ne. ground (arith, v.queued g h, free_mem g);
    free_below = λ g h. v.free_below g (ground (arith, free_mem g));
    free_distinct = free_rest.1;
    free_blank = λ g h. v.free_blank g (ground (arith, free_mem g));
    entry = λ p g h. ground (arith, v.entry p g h, free_mem g);
    resident = λ g h ne m. v.resident g h (ground (arith, free_mem g));
    no_entry = v.no_entry;
    frame_below = v.free_below f free_f;
    frame_out = ground (arith, v.queued f (v.free_below f free_f), free_f);
    frame_taken = free_rest.0;
    frame_unpinned = (v.free_blank f free_f).1;
    frame_owner = λ g h.
        ground
          (arith, (v.free_blank f free_f).0, v.no_entry, ap b.page_table (v.free_blank f free_f).0);
  }
    where
      free_mem : (g : ℕ) → mem g b.free_list ≡ (g == f || mem g rest)
      free_mem g = ap (mem g) e

      free_f : mem f b.free_list ≡ true
      free_f = ground (arith, free_mem f)

      free_rest : (mem f rest ≡ false) × Distinct rest
      free_rest = subst Distinct e v.free_distinct

  -- On a well-formed pool a frame is reserved, unless all are in use and pinned.
  pub take_frame-Takes :
      (b : Pool R.State) (q : List ℕ) → IsValid R b q → Takes b q (take_frame R b b.free_list)
  unfolding take_frame
  take_frame-Takes b q v = go b.free_list refl
    where
      go : (free : List ℕ) → b.free_list ≡ free → Takes b q (take_frame R b free)
      go [] e = take_victim-Takes b q v e
      go (f ∷ rest) e = taken f _ q (free-Reserved b q f rest v e) (refl, refl, refl, refl)
