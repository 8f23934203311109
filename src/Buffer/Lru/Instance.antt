-- ===== src/Buffer/Lru/Instance.antt =====
-- The least-recently-used replacer as the buffer pool sees it.
use dis_minisql.Prelude.{ℕ, ◌≡◌, refl, sym, subst, ◌∙◌, List, ◌∷◌, Distinct, mem-last_or, last_or}
use dis_minisql.Buffer.Replacer.{Replacer, without, with}
use dis_minisql.Buffer.Lru.{LruReplacer, init, victim, pin, unpin, size}
use dis_minisql.Buffer.Lru.Holds.{Represents}
use dis_minisql.Buffer.Lru.Refinement.{
  init-Represents, victim-refines, pin-refines, unpin-refines, size-length,
}
use dis_minisql.Buffer.Lru.Run.{pin-max, unpin-max, victim-max}

-- The replacer holds the list, under the bound that it was made with.
abbrev pub Bounded : ℕ → LruReplacer → List ℕ → Type 0
Bounded bound r q = Represents r q × (r.max_num_pages ≡ bound)

pub Represents-Distinct : (r : LruReplacer) (q : List ℕ) → Represents r q → Distinct q
unfolding Represents
Represents-Distinct r q (xs, v, e) = subst Distinct (sym e) v.distinct

pub init-max : (num_pages : ℕ) → (init num_pages).max_num_pages ≡ num_pages
unfolding init
init-max num_pages = refl

abbrev pub lru : Replacer
lru = record {
  State = LruReplacer;
  init = init;
  victim = victim;
  pin = pin;
  unpin = unpin;
  size = size;
  Represents = Bounded;
  init_lem = λ bound. (init-Represents bound, init-max bound);
  victim_lem = λ bound r f q (v, m).
      let (given, w) = victim-refines r (f ∷ q) v in
      (last_or f q, given, mem-last_or f q, (w, victim-max r ∙ m));
  pin_lem = λ bound r q f (v, m).
      let (r', e, w) = pin-refines r q f v in
      (r', e, (subst (λ k. Represents r' (without k q f)) m w, pin-max r r' f e ∙ m));
  unpin_lem = λ bound r q f (v, m). (
    subst (λ k. Represents (unpin r f) (with k q f)) m (unpin-refines r q f v),
    unpin-max r f ∙ m,
  );
  size_lem = λ bound r q (v, m). size-length r q v;
  distinct_lem = λ bound r q (v, m). Represents-Distinct r q v;
}
