-- ===== src/Page/Internal/Tests.antt =====
-- Tests of the internal page, and its theorems at a page of four children.
use dis_minisql.Prelude.{
  ℕ, ◌+◌, ◌*◌, ◌≡◌, refl, Option, none, some, List, [], ◌∷◌, ◌++◌, arith, ◌<◌, subst, sym, ap, inl,
  inr, Bool-cases, ◌==◌, ==→eq,
}
use dis_minisql.Page.TreePage.{TreePage, internal_page}
use dis_minisql.Page.Leaf.Tests.{numbers}
use dis_minisql.Page.Pairs.{copy_pairs, shift_up, shift_down}
use dis_minisql.Page.Internal.{
  InternalPage, adopt_child, get_size, init, set_key_at, set_value_at, value_index_from,
  value_index, child_between, lookup, populate_new_root, insert_node_after, remove,
  remove_and_return_only_child, adopt, copy_n_from, move_half_to, move_all_to, copy_last_from,
  move_first_to_end_of, copy_first_from, move_last_to_front_of,
}
use dis_minisql.Page.Internal.Search.{Leads, lookup-Leads}
use dis_minisql.Page.Internal.Updates.{entries}
use dis_minisql.Page.Internal.Moves.{move_half_to-Adopts}
use dis_minisql.Page.Internal.Adoption.{Resident, Adopts}
use dis_minisql.Memory.{write_bytes, uint32_bytes}
use dis_minisql.Storage.Disk.Tests.{one_page}
use dis_minisql.Buffer.Lru.Instance.{lru}
use dis_minisql.Buffer.Pool.{init as init_pool, fetch_page}
use dis_minisql.Buffer.Pool.Invariant.{IsValid}
use dis_minisql.Buffer.Pool.Fetch.{fetch_page-IsValid}
use dis_minisql.Buffer.Pool.Initial.{init-IsValid}
use dis_minisql.Buffer.Pool.Tests as PoolTests
use dis_minisql.Buffer.Pool.Tests.{LruPool, pool_of, readable}
use dis_minisql.Page.TablePage.{set32}

program : Unit {0}
unfolding copy_pairs shift_up shift_down init set_key_at set_value_at value_index_from value_index
    child_between lookup populate_new_root insert_node_after remove remove_and_return_only_child
    adopt_child adopt copy_n_from move_half_to move_all_to copy_last_from move_first_to_end_of
    copy_first_from move_last_to_front_of
program = tt

abbrev header : ℕ → ℕ → TreePage
header id n = record {
  page_type = internal_page;
  key_size = 8;
  lsn = none;
  size = n;
  max_size = 6;
  parent_page_id = none;
  page_id = some id;
}

-- The children 10, 11, 12 and 13, with the keys 100, 200 and 300 between them.
abbrev four : InternalPage numbers
four = record { header = header 5 4; pairs = λ i. (i * 100, some (i + 10)) }

abbrev other : InternalPage numbers
other = record { header = header 6 1; pairs = λ i. (i + 900, some (i + 20)) }

-- A pool of two frames, then with the page 12, then with 12 and 13.
abbrev two_frames : LruPool
two_frames = init_pool lru 2 one_page

abbrev one_in : LruPool
one_in = pool_of two_frames (fetch_page lru two_frames (some 12))

abbrev both_in : LruPool
both_in = pool_of one_in (fetch_page lru one_in (some 13))

-- The pairs of the recipient.
abbrev received :
    Option (InternalPage numbers × InternalPage numbers × LruPool) → List (ℕ × Option ℕ)
received none = []
received (some (_, recipient, _)) = entries numbers recipient

lookup_test :
    lookup numbers four 50
      ∷ lookup numbers four 100
      ∷ lookup numbers four 250
      ∷ lookup numbers four 999
      ∷ []
    ≡ some 10 ∷ some 11 ∷ some 12 ∷ some 13 ∷ []
unfolding program
lookup_test = refl

first_moves_test :
    received (move_first_to_end_of numbers lru four other 77 two_frames)
    ≡ (900, some 20) ∷ (77, some 10) ∷ []
unfolding program PoolTests.program set32 write_bytes uint32_bytes
first_moves_test = refl

-- The key in the middle is not used: the recipient keeps its old first key behind the new one.
last_moves_test :
    received (move_last_to_front_of numbers lru four other 77 two_frames)
    ≡ (300, some 13) ∷ (900, some 20) ∷ []
unfolding program PoolTests.program set32 write_bytes uint32_bytes
last_moves_test = refl

lookup-Leads_example : Leads numbers four 250 (lookup numbers four 250)
lookup-Leads_example = lookup-Leads numbers four 250 (omega arith)

index_11 : value_index numbers four (some 11) ≡ some 1
unfolding program
index_11 = refl

fetched-IsValid :
    (b : LruPool) (q : List ℕ) (p : ℕ)
    → IsValid lru b q
    → p < 32704
    → (q' : List ℕ) × IsValid lru (pool_of b (fetch_page lru b (some p))) q'
fetched-IsValid b q p v h =
    let (_, _, q', e, w, _) = fetch_page-IsValid lru b q p v (readable p h) in
    (q', subst (λ b. IsValid lru b q') (ap (pool_of b) (sym e)) w)

one_in-IsValid : (q : List ℕ) × IsValid lru one_in q
one_in-IsValid = fetched-IsValid two_frames [] 12 (init-IsValid lru 2 one_page) (omega arith)

both_in-IsValid : (q : List ℕ) × IsValid lru both_in q
both_in-IsValid = fetched-IsValid one_in one_in-IsValid.0 13 one_in-IsValid.1 (omega arith)

both_entries : (both_in.page_table (some 12) ≡ some 0) × (both_in.page_table (some 13) ≡ some 1)
unfolding PoolTests.program
both_entries = (refl, refl)

both-Resident : Resident numbers lru both_in four.pairs 2 2
both-Resident j l u = elim (Bool-cases (j == 2)) [
  | inl two ↦
      subst
        (λ j.
          (p : ℕ) × (f : ℕ) × ((four.pairs j).1 ≡ some p) × (both_in.page_table (some p) ≡ some f))
        (sym (==→eq j 2 two)) (12, 0, refl, both_entries.0)
  | inr other ↦
      let three : 3 ≡ j = ground (arith, l, u, other) in
      subst
        (λ j.
          (p : ℕ) × (f : ℕ) × ((four.pairs j).1 ≡ some p) × (both_in.page_table (some p) ≡ some f))
        three (13, 1, refl, both_entries.1)
]

move_half_to-Adopts_example :
    (p' : InternalPage numbers) × (recipient' : InternalPage numbers) × (b' : LruPool)
    × (moved : List (ℕ × Option ℕ)) × (move_half_to numbers lru four other both_in
        ≡ some (p', recipient', b'))
    × (entries numbers four ≡ entries numbers p' ++ moved)
    × (entries numbers recipient' ≡ entries numbers other ++ moved)
    × (get_size numbers p' ≡ 2)
    × Adopts numbers lru both_in b' (some 6) four.pairs 2 2
move_half_to-Adopts_example =
    move_half_to-Adopts numbers lru four other both_in both_in-IsValid.0 both_in-IsValid.1
      both-Resident (omega arith)
