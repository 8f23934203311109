-- ===== src/Buffer/Lru/Refinement.antt =====
-- The linked replacer refines the queue of frames.
use dis_minisql.Prelude.{
  ℕ, suc, ◌≡◌, ◌∙◌, refl, sym, ap, true, List, [], ◌∷◌, none, some, arith, mem, erase, mem-last_or,
  erase_absent, last_or, length, ltb, Bool-cases, Option-cases, suc_ne_zero, inl, inr,
}
use dis_minisql.Buffer.Lru.{Node, LruReplacer, init, victim, pin, release, unpin, size}
use dis_minisql.Buffer.Lru.Queue
use dis_minisql.Buffer.Lru.Links.{prev-last}
use dis_minisql.Buffer.Lru.Holds.{vals, find, Holds, Represents, find-mem, find-is_some}
use dis_minisql.Buffer.Lru.Writes.{removed, vals-removed, removed-Holds, vals-added, added-Holds}

-- The frame of the last node is the last frame.
last-vals :
    (n : ℕ → Node) (x : ℕ) (xs : List ℕ) → (n (last_or x xs)).val ≡ last_or (n x).val (vals n xs)
last-vals n x [] = refl
last-vals n x (y ∷ ys) = last-vals n y ys

pub init-Represents : (num_pages : ℕ) → Represents (init num_pages) []
unfolding init Represents
init-Represents num_pages = (
  [],
  record {
    chain = (refl, refl);
    head_out = refl;
    tail_out = refl;
    head_fresh = omega arith;
    tail_fresh = omega arith;
    fresh = tt;
    distinct = tt;
    sized = refl;
    mapped = λ f. refl;
    flagged = λ f. refl;
  },
  refl,
)

victim_empty : (r : LruReplacer) → Holds r [] → victim r ≡ (none, r)
unfolding victim
victim_empty r v = rw v.sized

victim-removed :
    (r : LruReplacer) (x : ℕ) (xs : List ℕ)
    → Holds r (x ∷ xs)
    → victim r ≡ (some (r.nodes (last_or x xs)).val, removed r (last_or x xs))
unfolding victim
victim-removed r x xs v =
    rw (
      v.sized,
      prev-last r.nodes r.head r.tail (x ∷ xs) v.chain,
      suc_ne_zero (length xs),
      ← v.sized,
    )

-- `Victim` gives out the frame that was unpinned first among those that are left, and nothing if
-- none is left.
pub victim-refines :
    (r : LruReplacer) (q : List ℕ)
    → Represents r q
    → ((victim r).0 ≡ (Queue.victim q).0) × Represents (victim r).1 (Queue.victim q).1
unfolding Represents
victim-refines r q ([], v, e) = rw (e, victim_empty r v) (refl, ([], v, refl))
victim-refines r q (x ∷ xs, v, e) =
    rw (e, victim-removed r x xs v)
      (
        ap some (last-vals r.nodes x xs),
        (
          erase last (x ∷ xs),
          removed-Holds r (x ∷ xs) v last m,
          ap (λ w. erase w (vals r.nodes (x ∷ xs))) (sym (last-vals r.nodes x xs))
              ∙ sym (vals-removed r (x ∷ xs) v last m),
        ),
      )
  where
    last : ℕ
    last = last_or x xs

    m : mem (last_or x xs) (x ∷ xs) ≡ true
    m = mem-last_or x xs

release-removed :
    (r : LruReplacer) (f : ℕ) (xs : List ℕ)
    → Holds r xs
    → mem f (vals r.nodes xs) ≡ true
    → (now : ℕ) × (release r f (r.map f) ≡ some (removed r now))
      × (mem now xs ≡ true)
      × ((r.nodes now).val ≡ f)
unfolding release
release-removed r f xs v h = elim (Option-cases (find r.nodes f xs)) [
  | inl e ↦ absurd (ground (arith, find-is_some r.nodes f xs))
  | inr (now, e) ↦
      let (m, same) = find-mem r.nodes f now xs e in (now, rw (v.mapped f, e, ← same), m, same)
]

-- `Pin` never follows a null pointer, and takes the frame out.
pub pin-refines :
    (r : LruReplacer) (q : List ℕ) (f : ℕ)
    → Represents r q
    → (r' : LruReplacer) × (pin r f ≡ some r') × Represents r' (Queue.pin r.max_num_pages q f)
unfolding Represents pin
pin-refines r q f (xs, v, e) = elim (Bool-cases (ltb r.max_num_pages f)) [
  | inl out ↦ (r, rw out, (xs, v, rw out e))
  | inr bounded ↦ elim (Bool-cases (mem f (vals r.nodes xs))) [
    | inl here ↦
        let (now, eq, m, same) = release-removed r f xs v here in
        (
          removed r now,
          rw (bounded, v.flagged f, here) eq,
          (
            erase now xs,
            removed-Holds r xs v now m,
            rw (bounded, e, ← same) (sym (vals-removed r xs v now m)),
          ),
        )
    | inr absent ↦
        (r, rw (bounded, v.flagged f, absent), (xs, v, rw (bounded, e) (erase_absent f _ absent)))
  ]
]

-- `Unpin` puts the frame in front, once.
pub unpin-refines :
    (r : LruReplacer) (q : List ℕ) (f : ℕ)
    → Represents r q
    → Represents (unpin r f) (Queue.unpin r.max_num_pages q f)
unfolding Represents unpin
unpin-refines r q f (xs, v, e) = elim (Bool-cases (ltb r.max_num_pages f)) [
  | inl out ↦ rw (out, e) (xs, v, refl)
  | inr bounded ↦ elim (Bool-cases (mem f (vals r.nodes xs))) [
    | inl here ↦ rw (bounded, v.flagged f, here, e) (xs, v, rw here)
    | inr absent ↦
        rw (bounded, v.flagged f, absent, e)
          (r.fresh ∷ xs, added-Holds r f xs v absent, rw absent (sym (vals-added r f xs v)))
  ]
]

pub size-length : (r : LruReplacer) (q : List ℕ) → Represents r q → size r ≡ length q
unfolding size Represents
size-length r q (xs, v, e) = rw e (v.sized ∙ length-vals r.nodes xs)
  where
    length-vals : (n : ℕ → Node) (xs : List ℕ) → length xs ≡ length (vals n xs)
    length-vals n [] = refl
    length-vals n (x ∷ xs) = ap suc (length-vals n xs)
