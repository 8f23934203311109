-- ===== src/Buffer/Lru/Writes.antt =====
-- The replacer after a node is taken out and after one is put in.
use dis_minisql.Prelude.{
  ℕ, ◌+◌, ◌-◌, ◌≡◌, ◌∙◌, subst, refl, sym, ◌≢◌, true, false, List, [], ◌∷◌, none, some, arith, mem,
  erase, mem-erase_ne, erase-Distinct, mem-erase, Distinct, update, length-erase,
}
use dis_minisql.Buffer.Lru.{Node, unlink, link_front, LruReplacer}
use dis_minisql.Buffer.Lru.Links.{unlink-val, Chain-unlink, Chain-link_front, link_front-val}
use dis_minisql.Buffer.Lru.Holds.{
  vals, find, Below, Holds, Distinct-addresses, vals-erase, find-erase,
}

-- The replacer without the node at an address, as `Victim` and `Pin` leave it.
abbrev pub removed : LruReplacer → ℕ → LruReplacer
removed r now = record r {
  nodes = unlink r.nodes now;
  map = update r.map (r.nodes now).val none;
  unpinned = update r.unpinned (r.nodes now).val false;
  now_size = r.now_size - 1;
}

pub vals-cong :
    (n m : ℕ → Node) (xs : List ℕ) → ((y : ℕ) → (m y).val ≡ (n y).val) → vals m xs ≡ vals n xs
vals-cong n m [] h = refl
vals-cong n m (x ∷ xs) h = ground (arith, h x, vals-cong n m xs h)

pub find-cong :
    (n m : ℕ → Node) (f : ℕ) (xs : List ℕ)
    → ((y : ℕ) → (m y).val ≡ (n y).val)
    → find m f xs ≡ find n f xs
find-cong n m f [] h = refl
find-cong n m f (x ∷ xs) h = ground (arith, h x, find-cong n m f xs h)

pub erase-Below : (k x : ℕ) (xs : List ℕ) → Below k xs → Below k (erase x xs)
erase-Below k x [] b = tt
erase-Below k x (y ∷ ys) b = ground (arith, erase-Below k x ys)

module _ (r : LruReplacer) (xs : List ℕ) (v : Holds r xs) (now : ℕ) (h : mem now xs ≡ true) where
  pub vals-removed :
      vals (unlink r.nodes now) (erase now xs) ≡ erase (r.nodes now).val (vals r.nodes xs)
  vals-removed =
      vals-cong r.nodes (unlink r.nodes now) (erase now xs) (unlink-val r.nodes now)
      ∙ vals-erase r.nodes now xs v.distinct h

  pub removed-Holds : Holds (removed r now) (erase now xs)
  removed-Holds = record {
    chain =
        Chain-unlink r.nodes now r.head r.tail xs v.chain v.head_out v.tail_out
          (Distinct-addresses r.nodes xs v.distinct) h;
    head_out = mem-erase_ne r.head now xs v.head_out;
    tail_out = mem-erase_ne r.tail now xs v.tail_out;
    head_fresh = v.head_fresh;
    tail_fresh = v.tail_fresh;
    fresh = erase-Below r.fresh now xs v.fresh;
    distinct = rw vals-removed (erase-Distinct (r.nodes now).val _ v.distinct);
    sized = omega (arith, length-erase now xs h, v.sized);
    mapped = λ f. ground (
      arith,
      v.mapped f,
      find-cong r.nodes (unlink r.nodes now) f (erase now xs) (unlink-val r.nodes now),
      find-erase r.nodes now f xs v.distinct h,
    );
    flagged = λ f.
        rw vals-removed
          (ground (arith, v.flagged f, mem-erase f (r.nodes now).val (vals r.nodes xs) v.distinct));
  }

-- The replacer with a new node in front, as `Unpin` leaves it.
abbrev pub added : LruReplacer → ℕ → LruReplacer
added r f = record r {
  unpinned = update r.unpinned f true;
  now_size = r.now_size + 1;
  nodes = link_front r.nodes r.head r.fresh f;
  fresh = r.fresh + 1;
  map = update r.map f (some r.fresh);
}

pub Below-not-mem : (k : ℕ) (xs : List ℕ) → Below k xs → mem k xs ≡ false
Below-not-mem k [] b = refl
Below-not-mem k (x ∷ xs) b = ground (arith, Below-not-mem k xs)

pub Below-suc : (k : ℕ) (xs : List ℕ) → Below k xs → Below (k + 1) xs
Below-suc k [] b = tt
Below-suc k (x ∷ xs) b = (omega arith, Below-suc k xs b.1)

-- A new node leaves the frames of the others.
pub vals-link_front :
    (n : ℕ → Node) (a now f : ℕ) (xs : List ℕ)
    → now ≢ a
    → mem now xs ≡ false
    → vals (link_front n a now f) xs ≡ vals n xs
vals-link_front n a now f [] h k = refl
vals-link_front n a now f (x ∷ xs) h k =
    ground (arith, link_front-val n a now f x, vals-link_front n a now f xs)

pub find-link_front :
    (n : ℕ → Node) (a now f g : ℕ) (xs : List ℕ)
    → now ≢ a
    → mem now xs ≡ false
    → find (link_front n a now f) g xs ≡ find n g xs
find-link_front n a now f g [] h k = refl
find-link_front n a now f g (x ∷ xs) h k =
    ground (arith, link_front-val n a now f x, find-link_front n a now f g xs)

module _ (r : LruReplacer) (f : ℕ) (xs : List ℕ) (v : Holds r xs) where
  pub vals-added : vals (link_front r.nodes r.head r.fresh f) (r.fresh ∷ xs) ≡ f ∷ vals r.nodes xs
  vals-added = ground (
    arith,
    link_front-val r.nodes r.head r.fresh f r.fresh,
    vals-link_front r.nodes r.head r.fresh f xs,
    Below-not-mem r.fresh xs,
  )

  pub added-Holds : mem f (vals r.nodes xs) ≡ false → Holds (added r f) (r.fresh ∷ xs)
  added-Holds absent = record {
    chain =
        Chain-link_front r.nodes r.head r.tail r.fresh f xs v.chain
          (ground (arith, Below-not-mem r.fresh xs v.fresh)) v.head_out v.tail_out
          (Distinct-addresses r.nodes xs v.distinct);
    head_out = ground (arith, v.head_out);
    tail_out = ground (arith, v.tail_out);
    head_fresh = omega arith;
    tail_fresh = omega arith;
    fresh = (omega arith, Below-suc r.fresh xs v.fresh);
    distinct = subst Distinct (sym vals-added) (absent, v.distinct);
    sized = omega (arith, v.sized);
    mapped = λ g. ground (
      arith,
      v.mapped g,
      link_front-val r.nodes r.head r.fresh f r.fresh,
      find-link_front r.nodes r.head r.fresh f g xs,
      Below-not-mem r.fresh xs v.fresh,
    );
    flagged = λ g.
        subst (λ w. update r.unpinned f true g ≡ mem g w) (sym vals-added)
          (ground (arith, v.flagged g));
  }
