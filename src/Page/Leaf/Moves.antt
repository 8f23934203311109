-- ===== src/Page/Leaf/Moves.antt =====
-- The moves of pairs between two leaves: split, merge and redistribution.
use dis_minisql.Prelude.{
  ℕ, suc, ◌+◌, ◌-◌, ◌/◌, ◌<◌, ◌≡◌, refl, sym, ap, ◌∙◌, List, [], ◌∷◌, ◌++◌, arith, update,
}
use dis_minisql.Page.TreePage.{KeyManager, RowId}
use dis_minisql.Page.Pairs.{
  shift_up, shift_up_lem, shift_down, shift_down_lem, copy_pairs, entries_from, entries_from-eq,
  entries_from-add, copy_pairs-entries_from,
}
use dis_minisql.Page.Leaf.{
  LeafPage, get_size, copy_n_from, move_half_to, move_all_to, copy_last_from, copy_first_from,
  move_first_to_end_of, move_last_to_front_of,
}

module _ (KM : KeyManager) where
  open KM use {GenericKey}

  -- The pairs of a page, in order.
  abbrev pub entries : LeafPage KM → List (GenericKey × RowId)
  entries p = entries_from p.pairs 0 (get_size KM p)

  -- `MoveHalfTo` moves the later half of the pairs, rounded down, behind those of the recipient:
  -- the pairs that stay and those that are moved are the pairs that were there.
  pub move_half_to-entries :
      (p recipient : LeafPage KM)
      → (moved : List (GenericKey × RowId)) × (entries p
          ≡ entries (move_half_to KM p recipient).0 ++ moved)
        × (entries (move_half_to KM p recipient).1 ≡ entries recipient ++ moved)
        × (get_size KM (move_half_to KM p recipient).1 ≡ get_size KM recipient + get_size KM p / 2)
        × (get_size KM (move_half_to KM p recipient).0 ≡ get_size KM p - get_size KM p / 2)
  unfolding move_half_to copy_n_from
  move_half_to-entries p recipient =
      let size = get_size KM p in
      let moved = entries_from p.pairs (size - size / 2) (size / 2) in
      (
        moved,
        ap (entries_from p.pairs 0) (omega arith)
            ∙ entries_from-add p.pairs 0 (size - size / 2) (size / 2)
            ∙ ap
                (λ k. entries_from p.pairs 0 (size - size / 2) ++ entries_from p.pairs k (size / 2))
                (omega arith),
        copy_pairs-entries_from recipient.pairs p.pairs (get_size KM recipient) (size - size / 2)
            (size / 2),
        refl,
        refl,
      )

  -- `MoveAllTo` moves every pair behind those of the recipient, which takes over the next page.
  pub move_all_to-entries :
      (p recipient : LeafPage KM)
      → (entries (move_all_to KM p recipient).0 ≡ [])
        × (entries (move_all_to KM p recipient).1 ≡ entries recipient ++ entries p)
        × ((move_all_to KM p recipient).1.next_page_id ≡ p.next_page_id)
  unfolding move_all_to copy_n_from
  move_all_to-entries p recipient = (
    refl,
    ap
          (entries_from
            (copy_pairs recipient.pairs (get_size KM recipient) p.pairs 0 (get_size KM p)) 0)
          (omega arith)
        ∙ copy_pairs-entries_from recipient.pairs p.pairs (get_size KM recipient) 0 (get_size KM p),
    refl,
  )

  -- `MoveFirstToEndOf` on a page that is not empty moves the first pair behind those of the
  -- recipient.
  pub move_first_to_end_of-entries :
      (p recipient : LeafPage KM)
      → 0 < get_size KM p
      → (entries p ≡ p.pairs 0 ∷ entries (move_first_to_end_of KM p recipient).0)
        × (entries (move_first_to_end_of KM p recipient).1 ≡ entries recipient ++ (p.pairs 0 ∷ []))
  unfolding move_first_to_end_of copy_last_from
  move_first_to_end_of-entries p recipient h = (
    ap (entries_from p.pairs 0) {x = size} {y = suc (size - 1)} (omega arith)
        ∙ ap (λ xs. p.pairs 0 ∷ xs)
            (entries_from-eq p.pairs (shift_down (size - 1) 0 p.pairs) 1 0 (size - 1)
              λ j l. sym (shift_down_lem (size - 1) 0 p.pairs (0 + j) ∙ ground (arith, moved j))),
    entries_from-add (update recipient.pairs n (p.pairs 0)) 0 n 1
        ∙ ap (λ xs. xs ++ entries_from (update recipient.pairs n (p.pairs 0)) (0 + n) 1)
            (entries_from-eq (update recipient.pairs n (p.pairs 0)) recipient.pairs 0 0 n
              λ j l. ground arith)
        ∙ ap (λ x. entries recipient ++ (x ∷ [])) {x = update recipient.pairs n (p.pairs 0) (0 + n)}
            {y = p.pairs 0} (ground arith),
  )
    where
      size : ℕ
      size = get_size KM p

      n : ℕ
      n = get_size KM recipient

      moved : (j : ℕ) → p.pairs (0 + j + 1) ≡ p.pairs (1 + j)
      moved j = ap p.pairs (omega arith)

  -- `MoveLastToFrontOf` on a page that is not empty moves the last pair before those of the
  -- recipient.
  pub move_last_to_front_of-entries :
      (p recipient : LeafPage KM)
      → 0 < get_size KM p
      → (entries p
          ≡ entries (move_last_to_front_of KM p recipient).0 ++ (p.pairs (get_size KM p - 1) ∷ []))
        × (entries (move_last_to_front_of KM p recipient).1
            ≡ p.pairs (get_size KM p - 1) ∷ entries recipient)
  unfolding move_last_to_front_of copy_first_from
  move_last_to_front_of-entries p recipient h = (
    ap (entries_from p.pairs 0) {x = size} {y = size - 1 + 1} (omega arith)
        ∙ entries_from-add p.pairs 0 (size - 1) 1
        ∙ ap (λ k. entries_from p.pairs 0 (size - 1) ++ (p.pairs k ∷ [])) {x = 0 + (size - 1)}
            {y = size - 1} (omega arith),
    ap (entries_from (update (shift_up n 0 recipient.pairs) 0 last) 0) {x = n + 1} {y = suc n}
          (omega arith)
        ∙ ap (λ xs. last ∷ xs)
            (entries_from-eq (update (shift_up n 0 recipient.pairs) 0 last) recipient.pairs 1 0 n
              λ j l. ground (arith, shift_up_lem n 0 recipient.pairs (1 + j), moved j)),
  )
    where
      size : ℕ
      size = get_size KM p

      n : ℕ
      n = get_size KM recipient

      last : GenericKey × RowId
      last = p.pairs (size - 1)

      moved : (j : ℕ) → recipient.pairs (1 + j - 1) ≡ recipient.pairs (0 + j)
      moved j = ap recipient.pairs (omega arith)
