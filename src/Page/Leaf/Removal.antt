-- ===== src/Page/Leaf/Removal.antt =====
-- `RemoveAndDeleteRecord` on a leaf.
use native.Mathlib.Decide.{ℕ_discrete, dec_lt}
use Prim.Native.Nat.{Ordering}
use dis_minisql.Prelude.{
  ℕ, ◌+◌, ◌-◌, ◌<◌, ◌≡◌, ◌≢◌, refl, sym, ap, ◌∙◌, subst, inl, inr, Bool, true, false, ◌&&◌, Option,
  none, some, ltb, if◌then◌else◌, arith, Bool-cases, lt→ltb,
}
use dis_minisql.Page.TreePage.{KeyManager, RowId, is_lt, is_eq, is_eq→eq}
use dis_minisql.Page.Pairs.{shift_down, shift_down_lem}
use dis_minisql.Page.Leaf.Search.{
  Sorted, key_index-IsFirst, Answers, found, missing, lookup-Answers, Answers-one, equal_index,
}
use dis_minisql.Page.Leaf.{remove_and_delete_record, LeafPage, get_size, key_at, key_index, lookup}
use dis_minisql.Prelude.{is_some}

-- The index of a pair before the one at `i` is removed.
abbrev skip : ℕ → ℕ → ℕ
skip i j = if ltb j i then j else j + 1

module _ (KM : KeyManager) where
  open KM use {GenericKey, compare_keys}

  module _ (p : LeafPage KM) (key : GenericKey) (s : Sorted KM p) where
    -- The page without the pair at an index.
    abbrev without : ℕ → LeafPage KM
    without i = record p {
      header = record (p.header) { size = get_size KM p - 1 };
      pairs = shift_down (get_size KM p - 1 - i) i p.pairs;
    }

    without_pair :
        (i j : ℕ)
        → i < get_size KM p
        → j < get_size KM p - 1
        → (without i).pairs j ≡ p.pairs (skip i j)
    without_pair i j h k = shift_down_lem (get_size KM p - 1 - i) i p.pairs j ∙ ground arith

    without-Sorted : (i : ℕ) → i < get_size KM p → Sorted KM (without i)
    unfolding Sorted
    without-Sorted i h a b l k =
        subst (λ x. compare_keys x.0 ((without i).pairs b).0 ≡ Ordering.lt)
          (sym (without_pair i a h (omega arith)))
          (subst (λ y. compare_keys (p.pairs (skip i a)).0 y.0 ≡ Ordering.lt)
            (sym (without_pair i b h k)) (s (skip i a) (skip i b) (ground arith) (ground arith)))

    -- An index whose key equals the key is the one that `KeyIndex` finds.
    key_index_found :
        (j : ℕ)
        → j < get_size KM p
        → compare_keys (key_at KM p j) key ≡ Ordering.eq
        → key_index KM p key ≡ j
    unfolding Sorted
    key_index_found j h e = elim (ℕ_discrete (key_index KM p key) j) [
      | yes same ↦ same
      | no ne ↦
          let (_, less, rest) = key_index-IsFirst KM p key s in
          elim (dec_lt j (key_index KM p key)) [
            | yes l ↦ absurd (ground (arith, less j l, ap is_lt e))
            | no n ↦
                let i = key_index KM p key in
                let below =
                  sym (KM.compare_same (key_at KM p j) key (key_at KM p i) e).1
                  ∙ s i j (omega arith) h in
                absurd (ground (arith, rest i (omega arith) (omega arith), ap is_lt below))
          ]
    ]

    abbrev at : ℕ
    at = key_index KM p key

    -- The condition of the removal.
    abbrev hit : Bool
    hit = ltb at (get_size KM p) && is_eq (compare_keys (key_at KM p at) key)

    remove_hit : hit ≡ true → remove_and_delete_record KM p key ≡ (true, without at)
    unfolding remove_and_delete_record
    remove_hit h = rw h

    remove_miss : hit ≡ false → remove_and_delete_record KM p key ≡ (false, p)
    unfolding remove_and_delete_record
    remove_miss h = rw h

    hit_some : (x : Option RowId) → Answers KM p key x → hit ≡ is_some x
    hit_some _ (found j h e) = rw (key_index_found j h e, lt→ltb j (get_size KM p) h, e)
    hit_some _ (missing a) = elim (Bool-cases hit) [
      | inr off ↦ off
      | inl on ↦ absurd (
          a at (ground (arith, on))
            (is_eq→eq (compare_keys (key_at KM p at) key) (ground (arith, on))))
    ]

    -- What the page without the pair at `at` answers for a key.
    removed_at :
        (k : GenericKey) (i j : ℕ) (x : GenericKey × RowId)
        → (without i).pairs j ≡ x
        → j < get_size KM p - 1
        → compare_keys x.0 k ≡ Ordering.eq
        → Answers KM (without i) k (some x.1)
    removed_at k i j x e h same =
        subst (λ x. compare_keys x.0 k ≡ Ordering.eq → Answers KM (without i) k (some x.1)) e
          (found j h) same

    kept-Answers :
        (k : GenericKey) (i : ℕ) (x : Option RowId)
        → i < get_size KM p
        → compare_keys (key_at KM p i) k ≢ Ordering.eq
        → Answers KM p k x
        → Answers KM (without i) k x
    kept-Answers k i _ h ne (missing a) = missing λ j l e.
        a (skip i j) (ground arith)
          (subst (λ x. compare_keys x.0 k ≡ Ordering.eq) (without_pair i j h l) e)
    kept-Answers k i _ h ne (found j l e) = elim (dec_lt j i) [
      | yes before ↦
          removed_at k i j (p.pairs j) (without_pair i j h (omega arith) ∙ ground arith)
            (omega arith) e
      | no n ↦
          let apart : i ≢ j =
            λ same. ne (subst (λ j. compare_keys (key_at KM p j) k ≡ Ordering.eq) (sym same) e) in
          removed_at k i (j - 1) (p.pairs j)
            (without_pair i (j - 1) h (omega (arith, apart)) ∙ ap p.pairs (ground (arith, apart)))
            (omega (arith, apart)) e
    ]

    gone-Answers :
        (k : GenericKey) (i : ℕ)
        → i < get_size KM p
        → compare_keys (key_at KM p i) k ≡ Ordering.eq
        → Answers KM (without i) k none
    gone-Answers k i h e = missing λ j l same.
        let same' = subst (λ x. compare_keys x.0 k ≡ Ordering.eq) (without_pair i j h l) same in
        ground (
          arith,
          equal_index KM p k i (skip i j) s h (ground arith) e same',
          equal_index KM p k (skip i j) i s (ground arith) h same' e,
        )

    absent :
        (x : Option RowId)
        → Answers KM p key x
        → is_some x ≡ false
        → (j : ℕ) → j < get_size KM p
        → compare_keys (key_at KM p j) key ≢ Ordering.eq
    absent _ (found j h e) n = cc
    absent _ (missing a) n = a

    same_none :
        hit ≡ false → (k : GenericKey) → compare_keys key k ≡ Ordering.eq → lookup KM p k ≡ none
    same_none off k e =
        let answer = lookup-Answers KM p key s in
        let none_found =
          absent (lookup KM p key) answer (sym (hit_some (lookup KM p key) answer) ∙ off) in
        Answers-one KM p k (lookup KM p k) none s (lookup-Answers KM p k s)
          (missing λ j h e'. none_found j h ((KM.compare_same key k (key_at KM p j) e).1 ∙ e'))

    -- What a removal leaves.
    abbrev pub Removes : Bool × LeafPage KM → Type 0
    Removes result =
        Sorted KM result.1
        × (result.0 ≡ is_some (lookup KM p key))
        × (get_size KM result.1 ≡ get_size KM p - (if result.0 then 1 else 0))
        × ((k : GenericKey)
            → lookup KM result.1 k ≡ (if is_eq (compare_keys key k) then none else lookup KM p k))

    removed : hit ≡ true → Removes (true, without at)
    removed on =
        let h : at < get_size KM p = ground (arith, on) in
        let e = is_eq→eq (compare_keys (key_at KM p at) key) (ground (arith, on)) in
        let s' = without-Sorted at h in
        (
          s',
          sym on ∙ hit_some (lookup KM p key) (lookup-Answers KM p key s),
          refl,
          λ k.
              Answers-one KM (without at) k _ _ s' (lookup-Answers KM (without at) k s')
                (answer h e k),
        )
      where
        answer :
            at < get_size KM p
            → compare_keys (key_at KM p at) key ≡ Ordering.eq
            → (k : GenericKey)
            → Answers KM (without at) k (if is_eq (compare_keys key k) then none else lookup KM p k)
        answer h e k = elim (Bool-cases (is_eq (compare_keys key k))) [
          | inl same ↦ rw same (
              gone-Answers k at h
                ((KM.compare_same (key_at KM p at) key k e).0 ∙ is_eq→eq (compare_keys key k) same))
          | inr other ↦ rw other (
              kept-Answers k at (lookup KM p k) h
                (λ e'.
                  ground (
                    arith,
                    other,
                    ap is_eq (sym (KM.compare_same (key_at KM p at) key k e).0 ∙ e'),
                  ))
                (lookup-Answers KM p k s))
        ]

    kept : hit ≡ false → Removes (false, p)
    kept off = (
      s,
      sym off ∙ hit_some (lookup KM p key) (lookup-Answers KM p key s),
      omega arith,
      λ k. elim (Bool-cases (is_eq (compare_keys key k))) [
        | inl same ↦ rw same (same_none off k (is_eq→eq (compare_keys key k) same))
        | inr other ↦ rw other
      ],
    )

  -- Removing a key keeps the keys rising. It is done exactly if `Lookup` finds the key; then the
  -- page has one pair less. `Lookup` afterwards answers none for every key that equals it, and what
  -- it answered before for every other.
  pub lookup-remove_and_delete_record :
      (p : LeafPage KM) (key : GenericKey)
      → (s : Sorted KM p) → Removes p key s (remove_and_delete_record KM p key)
  lookup-remove_and_delete_record p key s = elim (Bool-cases (hit p key s)) [
    | inl on ↦ rw (remove_hit p key s on) (removed p key s on)
    | inr off ↦ rw (remove_miss p key s off) (kept p key s off)
  ]
