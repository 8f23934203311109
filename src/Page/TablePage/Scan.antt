-- ===== src/Page/TablePage/Scan.antt =====
-- A new page, and the scan of the tuples by `GetFirstTupleRid` and `GetNextTupleRid`.
use dis_minisql.Prelude.{
  ℕ, zero, suc, ◌+◌, ◌-◌, ◌%◌, ◌^◌, ◌<◌, ◌≤◌, ◌≡◌, ◌⊎◌, inl, inr, refl, ap, ◌∙◌, true, false, none,
  some, arith, Bool-cases, ltb, ltb→lt, ltb→le,
}
use dis_minisql.Storage.Disk.{Bytes, le32}
use dis_minisql.Memory.{read_bytes}
use dis_minisql.Page.TreePage.{RowId, same_page}
use dis_minisql.Page.TablePage.{
  get_free_space_pointer, get_tuple_count, get_tuple_offset, get_tuple_size, is_deleted, init,
  valid_slot, get_next_tuple_rid, get_table_page_id,
}
use dis_minisql.Page.TablePage.Access.{le32-set32-Apart, le32-set32}
use dis_minisql.Page.TablePage.View.{
  tuple_at, IsValid, tuple_at-beyond, tuple_at-deleted, tuple_at-there,
}

module _ (p : Bytes) (page_id prev_id : ℕ) where
  pub init_count : get_tuple_count (init p page_id prev_id) ≡ 0
  unfolding init
  init_count = le32-set32 _ 20 0 (omega arith)

  pub init_pointer : get_free_space_pointer (init p page_id prev_id) ≡ 4096
  unfolding init
  init_pointer = le32-set32-Apart _ 20 0 16 (inr (omega arith)) ∙ le32-set32 _ 16 4096 (omega arith)

  pub init_id : page_id < 2 ^ 32 → le32 (init p page_id prev_id) 0 ≡ page_id
  unfolding init
  init_id h =
      le32-set32-Apart _ 20 0 0 (inr (omega arith))
      ∙ le32-set32-Apart _ 16 4096 0 (inr (omega arith))
      ∙ le32-set32-Apart _ 12 (2 ^ 32 - 1) 0 (inr (omega arith))
      ∙ le32-set32-Apart _ 8 prev_id 0 (inr (omega arith))
      ∙ le32-set32 p 0 page_id h

  -- A new page is well formed and holds no tuple.
  pub init_empty :
      IsValid (init p page_id prev_id) × ((i : ℕ) → tuple_at (init p page_id prev_id) i ≡ none)
  init_empty = (
    record {
      room = omega (arith, init_count, init_pointer);
      top = omega (arith, init_pointer);
      word = λ i l. absurd (omega (arith, init_count, l));
      used = λ i l s. absurd (omega (arith, init_count, l));
      inside = λ i l s. absurd (omega (arith, init_count, l));
      apart = λ i j l k n s t. absurd (omega (arith, init_count, l));
    },
    λ i. tuple_at-beyond (init p page_id prev_id) i (omega (arith, init_count)),
  )

-- The search for a tuple finds the first that is not deleted, or there is none.
valid_slot-First :
    (p : Bytes) (i n : ℕ)
    → ((valid_slot p i n ≡ none)
        × ((j : ℕ) → i ≤ j → j < i + n → is_deleted (get_tuple_size p j) ≡ true))
      ⊎ ((k : ℕ) × ((valid_slot p i n ≡ some k)
            × ((i ≤ k)
                × ((k < i + n)
                    × ((is_deleted (get_tuple_size p k) ≡ false)
                        × ((j : ℕ) → i ≤ j → j < k → is_deleted (get_tuple_size p j) ≡ true))))))
unfolding valid_slot
valid_slot-First p i zero = inl (refl, λ j l u. absurd (omega arith))
valid_slot-First p i (suc n) = elim (Bool-cases (is_deleted (get_tuple_size p i))) [
  | inr e ↦ inr (i, (rw e, (omega arith, (omega arith, (e, λ j l u. absurd (omega arith))))))
  | inl e ↦ elim (valid_slot-First p (i + 1) n) [
    | inl (h, all) ↦ inl (rw (e, h), λ j l u. first_or i j l e (λ m. all j m (omega arith)))
    | inr (k, (h, (l, (u, (d, all))))) ↦ inr (
      k,
      (
        rw (e, h),
        (omega (arith, l), (omega (arith, u), (d, λ j m w. first_or i j m e (λ x. all j x w)))),
      ),
    )
  ]
]
  where
    first_or :
        (i j : ℕ)
        → i ≤ j
        → is_deleted (get_tuple_size p i) ≡ true
        → (i + 1 ≤ j → is_deleted (get_tuple_size p j) ≡ true)
        → is_deleted (get_tuple_size p j) ≡ true
    first_or i j l e h = elim (Bool-cases (ltb i j)) [
      | inl b ↦ h (omega (arith, ltb→lt i j b))
      | inr b ↦
          ap (λ k. is_deleted (get_tuple_size p k)) {x = j} {y = i} (omega (arith, ltb→le i j b))
          ∙ e
    ]

-- GetNextTupleRid, from a row id of the page whose slot is below the last `uint32_t`, answers the first
-- slot behind the current one that holds a tuple, or false when no later slot does.
pub get_next_tuple_rid-scans :
    (p : Bytes) (cur_rid : RowId)
    → same_page cur_rid.page_id (get_table_page_id p) ≡ true
    → cur_rid.slot_num + 1 < 2 ^ 32
    → ((k : ℕ) × ((get_next_tuple_rid p cur_rid
            ≡ some (true, record { page_id = get_table_page_id p; slot_num = k }))
          × ((cur_rid.slot_num < k)
              × ((tuple_at p k ≡ some (read_bytes p (get_tuple_offset p k) (get_tuple_size p k)))
                  × ((j : ℕ) → cur_rid.slot_num < j → j < k → tuple_at p j ≡ none)))))
      ⊎ ((get_next_tuple_rid p cur_rid ≡ some (false, record { page_id = none; slot_num = 0 }))
          × ((j : ℕ) → cur_rid.slot_num < j → tuple_at p j ≡ none))
unfolding get_next_tuple_rid
get_next_tuple_rid-scans p cur_rid same small =
    let start : ℕ = cur_rid.slot_num + 1 in
    let no_wrap : start % 2 ^ 32 ≡ start = omega (arith, small) in
    let n = get_tuple_count p - start in
    elim (valid_slot-First p start n) [
      | inl (h, all) ↦ inr (
        rw (same, no_wrap, h),
        λ j l. elim (Bool-cases (ltb j (get_tuple_count p))) [
          | inl u ↦ tuple_at-deleted p j (all j (omega arith) (omega (arith, ltb→lt j _ u)))
          | inr u ↦ tuple_at-beyond p j (ltb→le j _ u)
        ],
      )
      | inr (k, (h, (l, (u, (d, all))))) ↦ inl (
        k,
        (
          rw (same, no_wrap, h),
          (
            omega (arith, l),
            (
              tuple_at-there p k (omega (arith, l, u)) d,
              λ j m w. tuple_at-deleted p j (all j (omega arith) w),
            ),
          ),
        ),
      )
    ]
