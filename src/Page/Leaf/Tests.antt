-- ===== src/Page/Leaf/Tests.antt =====
-- Tests of the leaf, and its theorems at a page of three pairs.
use Prim.Native.Nat.{compare, Ordering}
use dis_minisql.Prelude.{
  ℕ, ◌+◌, ◌*◌, ◌≡◌, refl, Option, none, some, List, [], ◌∷◌, arith, if◌then◌else◌,
}
use dis_minisql.Page.TreePage.{KeyManager, RowId, TreePage, leaf_page, is_eq}
use dis_minisql.Page.Pairs.{copy_pairs, shift_up, shift_down}
use dis_minisql.Page.Leaf.{
  LeafPage, get_size, init, index_between, key_index, insert, copy_n_from, move_half_to,
  lookup_between, lookup, remove_and_delete_record, move_all_to, copy_last_from, copy_first_from,
  move_first_to_end_of, move_last_to_front_of,
}
use dis_minisql.Page.Leaf.Search.{Sorted, Answers, lookup-Answers}
use dis_minisql.Page.Leaf.Insertion.{Absent, lookup-insert}
use dis_minisql.Page.Leaf.Removal.{Removes, lookup-remove_and_delete_record}

program : Unit {0}
unfolding copy_pairs shift_up shift_down init index_between key_index insert copy_n_from
    move_half_to lookup_between lookup remove_and_delete_record move_all_to copy_last_from
    copy_first_from move_first_to_end_of move_last_to_front_of
program = tt

abbrev pub numbers : KeyManager
numbers = record {
  GenericKey = ℕ;
  compare_keys = compare;
  compare_self = λ k. ground arith;
  compare_trans = λ k l m h h'. ground arith;
  compare_flip = λ k l h. ground arith;
  compare_flip_gt = λ k l h. ground arith;
  compare_same = λ k l m h. ground arith;
}

abbrev row : ℕ → RowId
row n = record { page_id = some 1; slot_num = n }

abbrev header : ℕ → TreePage
header n = record {
  page_type = leaf_page;
  key_size = 8;
  lsn = none;
  size = n;
  max_size = 6;
  parent_page_id = none;
  page_id = some 1;
}

-- The keys 10, 20, 30.
abbrev three : LeafPage numbers
three = record { header = header 3; next_page_id = none; pairs = λ i. (i * 10 + 10, row i) }

abbrev other : LeafPage numbers
other = record { header = header 1; next_page_id = some 4; pairs = λ i. (i + 90, row (i + 7)) }

abbrev answers : LeafPage numbers → List (Option RowId)
answers p =
    lookup numbers p 10 ∷ lookup numbers p 20 ∷ lookup numbers p 25 ∷ lookup numbers p 30 ∷ []

insert_test :
    answers (insert numbers three 25 (row 9))
    ≡ some (row 0) ∷ some (row 1) ∷ some (row 9) ∷ some (row 2) ∷ []
unfolding program
insert_test = refl

remove_test :
    answers (remove_and_delete_record numbers three 20).1
    ≡ some (row 0) ∷ none ∷ none ∷ some (row 2) ∷ []
unfolding program
remove_test = refl

three-Sorted : Sorted numbers three
unfolding Sorted
three-Sorted i j h k = ground (arith, h)

Absent-25 : Absent numbers three 25
unfolding Absent
Absent-25 i h e = ground (arith, at i e)
  where
    at : (i : ℕ) → compare (i * 10 + 10) 25 ≡ Ordering.eq → i * 10 + 10 ≡ 25
    at i e = ground arith

lookup-Answers_example : Answers numbers three 20 (lookup numbers three 20)
lookup-Answers_example = lookup-Answers numbers three 20 three-Sorted

lookup-insert_example :
    Sorted numbers (insert numbers three 25 (row 9))
    × (get_size numbers (insert numbers three 25 (row 9)) ≡ 4)
    × ((k : ℕ)
        → lookup numbers (insert numbers three 25 (row 9)) k
          ≡ (if is_eq (compare 25 k) then some (row 9) else lookup numbers three k))
lookup-insert_example = lookup-insert numbers three 25 (row 9) three-Sorted Absent-25

lookup-remove_and_delete_record_example :
    Removes numbers three 20 three-Sorted (remove_and_delete_record numbers three 20)
lookup-remove_and_delete_record_example =
    lookup-remove_and_delete_record numbers three 20 three-Sorted
