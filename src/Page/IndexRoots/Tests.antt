-- ===== src/Page/IndexRoots/Tests.antt =====
-- Tests of the table of roots, and its theorem at a table of two entries.
use dis_minisql.Prelude.{
  ℕ, ◌≡◌, refl, not, ◌&&◌, Option, none, some, is_some, ◌==◌, if◌then◌else◌, List, [], ◌∷◌, ◌+◌,
}
use dis_minisql.Page.Pairs.{shift_down}
use dis_minisql.Page.IndexRoots.{
  IndexRootsPage, find_from, find_index, insert, delete, update_root, get_root_id,
}
use dis_minisql.Page.IndexRoots.Insertion.{get_root_id-insert}

abbrev two : IndexRootsPage
two = record { count = 2; roots = λ i. (i + 5, some (i + 40)) }

abbrev answers : IndexRootsPage → List (Option (Option ℕ))
answers p = get_root_id p 5 ∷ get_root_id p 6 ∷ get_root_id p 9 ∷ []

insert_test :
    answers (insert two 9 (some 50)).1 ≡ some (some 40) ∷ some (some 41) ∷ some (some 50) ∷ []
unfolding find_from find_index insert get_root_id
insert_test = refl

delete_test : answers (delete two 5).1 ≡ none ∷ some (some 41) ∷ none ∷ []
unfolding find_from find_index delete get_root_id shift_down
delete_test = refl

update_test : answers (update_root two 6 (some 60)).1 ≡ some (some 40) ∷ some (some 60) ∷ none ∷ []
unfolding find_from find_index update_root get_root_id
update_test = refl

get_root_id-insert_example :
    ((insert two 9 (some 50)).0 ≡ not (is_some (get_root_id two 9)))
    × ((j : ℕ)
        → get_root_id (insert two 9 (some 50)).1 j
          ≡ (if (insert two 9 (some 50)).0 && 9 == j then some (some 50) else get_root_id two j))
get_root_id-insert_example = get_root_id-insert two 9 (some 50)
