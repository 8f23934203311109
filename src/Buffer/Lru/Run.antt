-- ===== src/Buffer/Lru/Run.antt =====
-- Histories of calls on the replacer, against the queue of frames.
use dis_minisql.Prelude.{ℕ, ◌≡◌, refl, subst, ◌∙◌, List, [], ◌∷◌, Option, none, some, arith, length}
use dis_minisql.Buffer.Lru.{LruReplacer, init, victim, pin, release, unpin, size}
use dis_minisql.Buffer.Lru.Queue
use dis_minisql.Buffer.Lru.Holds.{Represents}
use dis_minisql.Buffer.Lru.Refinement.{
  init-Represents, victim-refines, pin-refines, unpin-refines, size-length,
}

pub data Call : Type 0 where
  pins unpins : ℕ → Call
  victims : Call

-- The frames given out, oldest call first, and the replacer at the end; `none` if a call follows
-- a null pointer.
unfoldable pub run : LruReplacer → List Call → Option (List (Option ℕ) × LruReplacer)
run r [] = some ([], r)
run r (pins f ∷ cs) = elim (pin r f) [ none ↦ none | some r' ↦ run r' cs ]
run r (unpins f ∷ cs) = run (unpin r f) cs
run r (victims ∷ cs) = elim (run (victim r).1 cs) [
  | none ↦ none
  | some (out, r') ↦ some ((victim r).0 ∷ out, r')
]

abbrev pub run_queue : ℕ → List ℕ → List Call → List (Option ℕ) × List ℕ
run_queue max q [] = ([], q)
run_queue max q (pins f ∷ cs) = run_queue max (Queue.pin max q f) cs
run_queue max q (unpins f ∷ cs) = run_queue max (Queue.unpin max q f) cs
run_queue max q (victims ∷ cs) = (
  (Queue.victim q).0 ∷ (run_queue max (Queue.victim q).1 cs).0,
  (run_queue max (Queue.victim q).1 cs).1,
)

pub pin-max : (r r' : LruReplacer) (f : ℕ) → pin r f ≡ some r' → r'.max_num_pages ≡ r.max_num_pages
unfolding pin release
pin-max r r' f e = ground arith

pub unpin-max : (r : LruReplacer) (f : ℕ) → (unpin r f).max_num_pages ≡ r.max_num_pages
unfolding unpin
unpin-max r f = ground arith

pub victim-max : (r : LruReplacer) → (victim r).1.max_num_pages ≡ r.max_num_pages
unfolding victim
victim-max r = ground arith

run-refines :
    (max : ℕ) (cs : List Call) (r : LruReplacer) (q : List ℕ)
    → r.max_num_pages ≡ max
    → Represents r q
    → (r' : LruReplacer) × (run r cs ≡ some ((run_queue max q cs).0, r'))
      × Represents r' (run_queue max q cs).1
unfolding run
run-refines max [] r q m v = (r, refl, v)
run-refines max (pins f ∷ cs) r q m v =
    let (r', e, w) = pin-refines r q f v in
    let (r'', e', w') =
      run-refines max cs r' (Queue.pin max q f) (pin-max r r' f e ∙ m)
        (subst (λ k. Represents r' (Queue.pin k q f)) m w) in
    (r'', rw (e, run) e', w')
run-refines max (unpins f ∷ cs) r q m v =
    run-refines max cs (unpin r f) (Queue.unpin max q f) (unpin-max r f ∙ m)
      (subst (λ k. Represents (unpin r f) (Queue.unpin k q f)) m (unpin-refines r q f v))
run-refines max (victims ∷ cs) r q m v =
    let (same, w) = victim-refines r q v in
    let (r', e, w') = run-refines max cs (victim r).1 (Queue.victim q).1 (victim-max r ∙ m) w in
    (r', rw (e, same, run) refl, w')

-- Every history of calls on a new replacer runs without following a null pointer, gives out the
-- frames that the queue gives out, and ends with as many frames as the queue holds.
pub run-init-refines :
    (num_pages : ℕ) (cs : List Call)
    → (r : LruReplacer) × (run (init num_pages) cs ≡ some ((run_queue num_pages [] cs).0, r))
      × Represents r (run_queue num_pages [] cs).1
      × (size r ≡ length (run_queue num_pages [] cs).1)
unfolding init
run-init-refines num_pages cs =
    let (r, e, v) = run-refines num_pages cs (init num_pages) [] refl (init-Represents num_pages) in
    (r, e, v, size-length r _ v)
