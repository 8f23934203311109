-- ===== src/Page/Leaf/Insertion.antt =====
-- `Insert` on a leaf: the order of the keys, and what the page answers afterwards.
use native.Mathlib.Decide.{ℕ_discrete, dec_lt}
use Prim.Native.Nat.{Ordering}
use dis_minisql.Prelude.{
  ℕ, ◌+◌, ◌-◌, ◌<◌, ◌≤◌, ◌≡◌, ◌≢◌, refl, sym, ap, ◌∙◌, subst, inl, inr, false, ◌&&◌, Option, some,
  ltb, leb, ◌==◌, if◌then◌else◌, arith, Bool-cases, ==_self, ==_self,
}
use dis_minisql.Page.TreePage.{KeyManager, RowId, is_eq, is_lt→eq, is_eq→eq, is_gt}
use dis_minisql.Page.Pairs.{shift_up_lem}
use dis_minisql.Page.Leaf.Search.{
  Sorted, IsFirst, key_index-IsFirst, Answers, found, missing, lookup-Answers, Answers-one,
}
use dis_minisql.Page.Leaf.{insert, LeafPage, get_size, key_at, key_index, lookup}

module _ (KM : KeyManager) where
  open KM use {GenericKey, compare_keys}

  -- No key of the page compares equal.
  unfoldable pub Absent : LeafPage KM → GenericKey → Type 0
  Absent p key = (i : ℕ) → i < get_size KM p → compare_keys (key_at KM p i) key ≢ Ordering.eq

  insert_pair :
      (p : LeafPage KM) (key : GenericKey) (value : RowId) (i j : ℕ)
      → key_index KM p key ≡ i
      → i ≤ get_size KM p
      → (insert KM p key value).pairs j ≡ (
          if i == j
          then (key, value)
          else if ltb i j && leb j (get_size KM p)
          then p.pairs (j - 1)
          else p.pairs j)
  unfolding insert
  insert_pair p key value i j e h =
      rw (e, insert) (ground (arith, shift_up_lem (get_size KM p - i) i p.pairs j))

  module _ (p : LeafPage KM) (key : GenericKey) (value : RowId) (s : Sorted KM p) where
    abbrev at : ℕ
    at = key_index KM p key

    abbrev grown : LeafPage KM
    grown = insert KM p key value

    insert-size : get_size KM grown ≡ get_size KM p + 1
    unfolding insert
    insert-size = refl

    first : IsFirst KM p key at
    first = key_index-IsFirst KM p key s

    pair_at : grown.pairs at ≡ (key, value)
    pair_at = insert_pair p key value at at refl first.0 ∙ rw (==_self at)

    pair_below : (j : ℕ) → j < at → grown.pairs j ≡ p.pairs j
    pair_below j h = insert_pair p key value at j refl first.0 ∙ ground arith

    pair_above : (j : ℕ) → at ≤ j → j < get_size KM p → grown.pairs (j + 1) ≡ p.pairs j
    pair_above j h k = insert_pair p key value at (j + 1) refl first.0 ∙ ground arith

    key_below : (j : ℕ) → j < at → compare_keys (key_at KM p j) key ≡ Ordering.lt
    key_below j h = is_lt→eq (compare_keys (key_at KM p j) key) (first.1 j h)

    key_above :
        Absent p key
        → (j : ℕ) → at ≤ j
        → j < get_size KM p
        → compare_keys key (key_at KM p j) ≡ Ordering.lt
    unfolding Absent
    key_above a j h k =
        KM.compare_flip_gt (key_at KM p j) key
          (is_gt (compare_keys (key_at KM p j) key) (first.2 j h k) (a j k))

    -- Where the pairs of the page after the insertion come from.
    data Slot : ℕ → GenericKey × RowId → Type 0 where
      below : (j : ℕ) → j < at → Slot j (p.pairs j)
      here : Slot at (key, value)
      above : (j : ℕ) → at ≤ j → j < get_size KM p → Slot (j + 1) (p.pairs j)

    slot : (j : ℕ) → j < get_size KM p + 1 → Slot j (grown.pairs j)
    slot j h = elim (dec_lt j at) [
      | yes l ↦ subst (Slot j) (sym (pair_below j l)) (below j l)
      | no n ↦ elim (ℕ_discrete j at) [
        | yes e ↦ subst (λ j. Slot j (grown.pairs j)) (sym e) (subst (Slot at) (sym pair_at) here)
        | no ne ↦
            subst (λ j. Slot j (grown.pairs j)) (omega arith)
              (subst (Slot (j - 1 + 1)) (sym (pair_above (j - 1) (omega arith) (omega arith)))
                (above (j - 1) (omega arith) (omega arith)))
      ]
    ]

    Slot-rise :
        Absent p key
        → (i j : ℕ) (x y : GenericKey × RowId) → i < j
        → Slot i x
        → Slot j y
        → compare_keys x.0 y.0 ≡ Ordering.lt
    unfolding Sorted
    Slot-rise a _ _ _ _ h (below i k) (below j l) = s i j h (omega (arith, first.0))
    Slot-rise a _ _ _ _ h (below i k) here = key_below i k
    Slot-rise a _ _ _ _ h (below i k) (above j l m) = s i j (omega arith) m
    Slot-rise a _ _ _ _ h here (below j l) = absurd (omega arith)
    Slot-rise a _ _ _ _ h here here = absurd (omega arith)
    Slot-rise a _ _ _ _ h here (above j l m) = key_above a j l m
    Slot-rise a _ _ _ _ h (above i k n) (below j l) = absurd (omega arith)
    Slot-rise a _ _ _ _ h (above i k n) here = absurd (omega arith)
    Slot-rise a _ _ _ _ h (above i k n) (above j l m) = s i j (omega arith) m

    insert-Sorted : Absent p key → Sorted KM grown
    unfolding Sorted
    insert-Sorted a i j h k =
        Slot-rise a i j _ _ h (slot i (omega (arith, insert-size)))
          (slot j (omega (arith, insert-size)))

    Slot-Answers-miss :
        (k : GenericKey)
        → is_eq (compare_keys key k) ≡ false
        → ((j : ℕ) → j < get_size KM p → compare_keys (key_at KM p j) k ≢ Ordering.eq)
        → (j : ℕ) (x : GenericKey × RowId) → Slot j x
        → compare_keys x.0 k ≢ Ordering.eq
    Slot-Answers-miss k ne a _ _ (below j h) = a j (omega (arith, first.0))
    Slot-Answers-miss k ne a _ _ here = λ e. ground (arith, ne, ap is_eq e)
    Slot-Answers-miss k ne a _ _ (above j h l) = a j l

    found_at :
        (k : GenericKey) (j : ℕ) (x : GenericKey × RowId)
        → grown.pairs j ≡ x
        → j < get_size KM p + 1
        → compare_keys x.0 k ≡ Ordering.eq
        → Answers KM grown k (some x.1)
    found_at k j x e h same =
        subst (λ x. compare_keys x.0 k ≡ Ordering.eq → Answers KM grown k (some x.1)) e
          (found j (omega (arith, insert-size))) same

    kept-Answers :
        (k : GenericKey) (result : Option RowId)
        → is_eq (compare_keys key k) ≡ false
        → Answers KM p k result
        → Answers KM grown k result
    kept-Answers k _ ne (missing a) =
        missing λ j h. Slot-Answers-miss k ne a j _ (slot j (omega (arith, insert-size)))
    kept-Answers k _ ne (found j h e) = elim (dec_lt j at) [
      | yes l ↦ found_at k j (p.pairs j) (pair_below j l) (omega arith) e
      | no n ↦ found_at k (j + 1) (p.pairs j) (pair_above j (omega arith) h) (omega arith) e
    ]

    insert-Answers :
        (k : GenericKey)
        → Answers KM grown k (if is_eq (compare_keys key k) then some value else lookup KM p k)
    insert-Answers k = elim (Bool-cases (is_eq (compare_keys key k))) [
      | inl same ↦ rw same (
          found_at k at (key, value) pair_at (omega (arith, first.0))
            (is_eq→eq (compare_keys key k) same))
      | inr other ↦ rw other (kept-Answers k (lookup KM p k) other (lookup-Answers KM p k s))
    ]

  -- Inserting a key that no key of the page equals keeps the keys rising and counts the pair.
  -- `Lookup` then answers the value for every key that equals the new one, and what it answered
  -- before for every other.
  pub lookup-insert :
      (p : LeafPage KM) (key : GenericKey) (value : RowId)
      → Sorted KM p
      → Absent p key
      → Sorted KM (insert KM p key value)
        × (get_size KM (insert KM p key value) ≡ get_size KM p + 1)
        × ((k : GenericKey)
            → lookup KM (insert KM p key value) k
              ≡ (if is_eq (compare_keys key k) then some value else lookup KM p k))
  lookup-insert p key value s a =
      let s' = insert-Sorted p key value s a in
      (
        s',
        insert-size p key value s,
        λ k. Answers-one KM _ k _ _ s' (lookup-Answers KM _ k s') (insert-Answers p key value s k),
      )
