-- ===== src/Page/IndexRoots/Insertion.antt =====
-- `Insert` and `GetRootId` on the table of roots.
use dis_minisql.Prelude.{
  ℕ, zero, suc, ◌+◌, ◌<◌, ◌≡◌, refl, ap, ◌∙◌, false, not, ◌&&◌, Option, none, some, is_some, ◌==◌,
  if◌then◌else◌, update, arith, Option-cases, inl, inr, Bool-cases, ==_self, ==_ne,
}
use dis_minisql.Page.IndexRoots.{IndexRootsPage, find_from, find_index, insert, get_root_id}

-- The search with one more entry at the end, at index `k`.
find_from-update :
    (n : ℕ) (roots : ℕ → ℕ × Option ℕ) (j i k : ℕ) (x : ℕ × Option ℕ)
    → k ≡ i + n
    → find_from (n + 1) (update roots k x) j i ≡ (
        if is_some (find_from n roots j i)
        then find_from n roots j i
        else if x.0 == j
        then some k
        else none)
unfolding find_from
find_from-update zero roots j i k x e = ground (arith, e)
find_from-update (suc n) roots j i k x e = ground (arith, find_from-update n roots j (i + 1) k x, e)

find_from_below :
    (n : ℕ) (roots : ℕ → ℕ × Option ℕ) (j i k : ℕ) → find_from n roots j i ≡ some k → k < i + n
unfolding find_from
find_from_below zero roots j i k e = ground arith
find_from_below (suc n) roots j i k e = ground (arith, find_from_below n roots j (i + 1) k)

get_root_id_lem :
    (p : IndexRootsPage) (j : ℕ) (found : Option ℕ)
    → find_from p.count p.roots j 0 ≡ found
    → get_root_id p j ≡ elim found [ none ↦ none | some index ↦ some (p.roots index).1 ]
unfolding get_root_id find_index
get_root_id_lem p j found e = rw (get_root_id, e)

-- `Insert` is refused exactly if the index has a root. Otherwise `GetRootId` answers the new root
-- for that index, and for every other index what it answered before.
pub get_root_id-insert :
    (p : IndexRootsPage) (index_id : ℕ) (root_id : Option ℕ)
    → ((insert p index_id root_id).0 ≡ not (is_some (get_root_id p index_id)))
      × ((j : ℕ)
          → get_root_id (insert p index_id root_id).1 j ≡ (
              if (insert p index_id root_id).0 && index_id == j
              then some root_id
              else get_root_id p j))
unfolding insert find_index
get_root_id-insert p index_id root_id = elim (Option-cases (find_from p.count p.roots index_id 0)) [
  | inr (k, e) ↦ rw (e, insert) (rw (get_root_id_lem p index_id (some k) e), λ j. refl)
  | inl e ↦ rw (e, insert) (rw (get_root_id_lem p index_id none e), λ j. after e j)
]
  where
    grown : IndexRootsPage
    grown = record { count = p.count + 1; roots = update p.roots p.count (index_id, root_id) }

    after :
        find_from p.count p.roots index_id 0 ≡ none
        → (j : ℕ) → get_root_id grown j ≡ (if index_id == j then some root_id else get_root_id p j)
    after e j =
        let grows =
          find_from-update p.count p.roots j 0 p.count (index_id, root_id) (omega arith) in
        elim (Option-cases (find_from p.count p.roots j 0)) [
          | inr (k, f) ↦
              let below = find_from_below p.count p.roots j 0 k f in
              let other : (index_id == j) ≡ false =
                ground
                  (arith, e, f, ap (λ j. find_from p.count p.roots j 0) {x = index_id} {y = j}) in
              get_root_id_lem grown j (some k) (grows ∙ ground (arith, f))
              ∙ rw (other, get_root_id_lem p j (some k) f, ==_ne p.count k (λ c. omega arith))
          | inl f ↦ elim (Bool-cases (index_id == j)) [
            | inl same ↦
                get_root_id_lem grown j (some p.count) (grows ∙ ground (arith, f, same))
                ∙ rw (same, ==_self p.count)
            | inr other ↦
                get_root_id_lem grown j none (grows ∙ ground (arith, f, other))
                ∙ rw (other, get_root_id_lem p j none f)
          ]
        ]
