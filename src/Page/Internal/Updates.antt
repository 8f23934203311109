-- ===== src/Page/Internal/Updates.antt =====
-- The updates of an internal page: insertion after a child, and removal.
use dis_minisql.Prelude.{
  ℕ, zero, suc, ◌+◌, ◌-◌, ◌<◌, ◌≤◌, ◌≡◌, ap, ◌∙◌, subst, true, Option, some, List, [], ◌∷◌, ◌++◌,
  arith, update, Bool-cases, inl, inr,
}
use dis_minisql.Page.TreePage.{KeyManager, same_page}
use dis_minisql.Page.Pairs.{
  shift_up, entries_from, entries_from-add, shift_up-entries_from, shift_down-entries_from,
  append-one,
}
use dis_minisql.Page.Internal.{
  InternalPage, get_size, value_at, value_index_from, value_index, insert_node_after, remove,
}

module _ (KM : KeyManager) where
  open KM use {GenericKey}

  -- The pairs of a page, in order.
  abbrev pub entries : InternalPage KM → List (GenericKey × Option ℕ)
  entries p = entries_from p.pairs 0 (get_size KM p)

  value_index_from_lem :
      (n : ℕ) (p : InternalPage KM) (value : Option ℕ) (i k : ℕ)
      → value_index_from KM n p value i ≡ some k
      → (i ≤ k) × (k < i + n) × (same_page (value_at KM p k) value ≡ true)
  unfolding value_index_from
  value_index_from_lem zero p value i k e = ground arith
  value_index_from_lem (suc n) p value i k e =
      elim (Bool-cases (same_page (value_at KM p i) value)) [
        | inl here ↦
            let same : i ≡ k = ground (arith, e, here) in
            (
              omega (arith, same),
              omega (arith, same),
              subst (λ k. same_page (value_at KM p k) value ≡ true) same here,
            )
        | inr other ↦
            let (l, h, m) = value_index_from_lem n p value (i + 1) k (ground (arith, e, other)) in
            (omega (arith, l), omega (arith, h), m)
      ]

  insert_node_after_at :
      (p : InternalPage KM) (old_value : Option ℕ) (key : GenericKey) (new_value : Option ℕ) (i : ℕ)
      → value_index KM p old_value ≡ some i
      → entries (insert_node_after KM p old_value key new_value)
        ≡ entries_from
            (update (shift_up (get_size KM p - (i + 1)) (i + 1) p.pairs) (i + 1) (key, new_value))
            0
            (get_size KM p + 1)
  unfolding insert_node_after
  insert_node_after_at p old_value key new_value i e = rw (e, insert_node_after)

  -- `InsertNodeAfter` of an old value that the page has puts the new pair right behind a pair with
  -- that value, and keeps the other pairs in order.
  pub insert_node_after-entries :
      (p : InternalPage KM) (old_value : Option ℕ) (key : GenericKey) (new_value : Option ℕ) (i : ℕ)
      → value_index KM p old_value ≡ some i
      → (before : List (GenericKey × Option ℕ)) × (after : List (GenericKey × Option ℕ))
        × (same_page (value_at KM p i) old_value ≡ true)
        × (entries p ≡ before ++ (p.pairs i ∷ after))
        × (entries (insert_node_after KM p old_value key new_value)
            ≡ before ++ (p.pairs i ∷ (key, new_value) ∷ after))
  unfolding value_index
  insert_node_after-entries p old_value key new_value i e =
      let n = get_size KM p in
      let (_, h, same) = value_index_from_lem n p old_value 0 i e in
      let after = entries_from p.pairs (i + 1) (n - (i + 1)) in
      (
        entries_from p.pairs 0 i,
        after,
        same,
        ap (entries_from p.pairs 0) {x = n} {y = i + suc (n - (i + 1))} (omega (arith, h))
            ∙ entries_from-add p.pairs 0 i (suc (n - (i + 1)))
            ∙ ap (λ k. entries_from p.pairs 0 i ++ entries_from p.pairs k (suc (n - (i + 1))))
                {x = 0 + i} {y = i} (omega arith),
        insert_node_after_at p old_value key new_value i e
            ∙ shift_up-entries_from p.pairs n (i + 1) (key, new_value) (omega (arith, h))
            ∙ ap (λ xs. xs ++ ((key, new_value) ∷ after)) (entries_from-add p.pairs 0 i 1)
            ∙ ap (λ k. (entries_from p.pairs 0 i ++ (p.pairs k ∷ [])) ++ ((key, new_value) ∷ after))
                {x = 0 + i} {y = i} (omega arith)
            ∙ append-one (entries_from p.pairs 0 i) (p.pairs i) ((key, new_value) ∷ after),
      )

  -- `Remove` of `index + 1` removes the pair behind the index, and no other.
  pub remove-entries :
      (p : InternalPage KM) (first : ℕ)
      → first < get_size KM p
      → (before : List (GenericKey × Option ℕ)) × (after : List (GenericKey × Option ℕ)) × (entries
            p
          ≡ before ++ (p.pairs first ∷ after))
        × (entries (remove KM p first) ≡ before ++ after)
  unfolding remove
  remove-entries p first h =
      let n = get_size KM p in
      (
        entries_from p.pairs 0 first,
        entries_from p.pairs (first + 1) (n - 1 - first),
        ap (entries_from p.pairs 0) {x = n} {y = first + suc (n - 1 - first)} (omega arith)
            ∙ entries_from-add p.pairs 0 first (suc (n - 1 - first))
            ∙ ap (λ k. entries_from p.pairs 0 first ++ entries_from p.pairs k (suc (n - 1 - first)))
                {x = 0 + first} {y = first} (omega arith),
        shift_down-entries_from p.pairs n first h,
      )
