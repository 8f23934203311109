-- ===== src/Page/TablePage/Update/Rows.antt =====
-- `UpdateTuple` of rows.
use dis_minisql.Prelude.{
  ℕ, ◌+◌, ◌*◌, ◌%◌, ◌^◌, ◌<◌, ◌≤◌, ◌≡◌, ◌≢◌, ◌⊎◌, inl, inr, sym, subst, ◌∙◌, true, false, some,
  List, length, ltb, leb, ltb→lt, ltb→le, lt→ltb, le→ltb, ◌==◌, ==_ne, if◌then◌else◌, arith,
  Bool-cases,
}
use dis_minisql.Storage.Disk.{Bytes}
use dis_minisql.Memory.{Holds}
use dis_minisql.Record.Schema.{Schema}
use dis_minisql.Record.Row
use dis_minisql.Record.Row.{Row, Fits}
use dis_minisql.Record.Row.RoundTrip.{row_total, IsRead, get_serialized_size-ge}
use dis_minisql.Page.TablePage.{
  get_free_space_pointer, get_tuple_count, get_tuple_offset, get_tuple_size, is_deleted, is_invalid,
  get_free_space_remaining, update_tuple, replace_tuple,
}
use dis_minisql.Page.TablePage.View.{tuple_at, IsValid, tuple_at-some, not_deleted}
use dis_minisql.Page.TablePage.Rows.{remaining_lem}
use dis_minisql.Page.TablePage.Update.{replace_tuple-Replaced}
use dis_minisql.Page.TablePage.Update.Replacement.{Replaced-IsValid, tuple_at-Replaced}

not_beyond : (i n : ℕ) → i < n → leb n i ≡ false
not_beyond i n l = ground arith

module _ (p : Bytes) (new_row old_row : Row) (schema : Schema) (n : ℕ)
    (size : Row.get_serialized_size new_row schema ≡ some n) (ne : n ≢ 0)
    (valid : is_invalid old_row.rid ≡ false) (l : old_row.rid.slot_num < get_tuple_count p)
    (d : is_deleted (get_tuple_size p old_row.rid.slot_num) ≡ false) where
  abbrev i : ℕ
  i = old_row.rid.slot_num

  update_tuple-refuses :
      (get_free_space_remaining p + get_tuple_size p i) % 2 ^ 32 < n
      → update_tuple p new_row old_row schema ≡ some (false, (p, old_row))
  unfolding update_tuple
  update_tuple-refuses r =
      rw (size, valid, ==_ne n 0 ne, not_beyond i (get_tuple_count p) l, d, lt→ltb _ n r)

  update_tuple-replaces :
      (tuple bs : List ℕ) (prev : Row)
      → n ≤ (get_free_space_remaining p + get_tuple_size p i) % 2 ^ 32
      → get_free_space_pointer p ≤ get_tuple_offset p i
      → get_tuple_size p i ≡ length bs
      → Holds p (get_tuple_offset p i) bs
      → IsRead prev schema bs
      → Row.row_bytes new_row schema ≡ some tuple
      → update_tuple p new_row old_row schema
        ≡ some (true, (replace_tuple p i n tuple, record old_row { fields = prev.fields }))
  unfolding update_tuple
  update_tuple-replaces tuple bs prev r above s h read e = rw (
    size,
    valid,
    ==_ne n 0 ne,
    not_beyond i (get_tuple_count p) l,
    d,
    le→ltb _ n r,
    read old_row p (get_tuple_offset p i) h,
    ==_eq (length bs) (get_tuple_size p i) (sym s),
    le→ltb (get_tuple_offset p i) (get_free_space_pointer p) above,
    e,
  )
    where
      ==_eq : (a b : ℕ) → a ≡ b → (a == b) ≡ true
      ==_eq a b e = ground arith

-- UpdateTuple of a row that a well-formed page holds either answers false, for want of room, or puts
-- the bytes of the new row into its slot and reads the old row; every other tuple keeps its bytes,
-- wherever they move, and the page stays well formed.
pub update_tuple-Updates :
    (p : Bytes) (new_row old_row prev : Row) (schema : Schema) (bs : List ℕ)
    → IsValid p
    → is_invalid old_row.rid ≡ false
    → Fits prev.fields schema
    → length prev.fields ≤ 32
    → Row.row_bytes prev schema ≡ some bs
    → tuple_at p old_row.rid.slot_num ≡ some bs
    → Fits new_row.fields schema
    → length new_row.fields ≤ 32
    → ((n : ℕ) × ((Row.get_serialized_size new_row schema ≡ some n)
          × ((get_free_space_remaining p + length bs < n)
              × (update_tuple p new_row old_row schema ≡ some (false, (p, old_row))))))
      ⊎ ((tuple : List ℕ) × ((q : Bytes) × ((Row.row_bytes new_row schema ≡ some tuple)
              × ((update_tuple p new_row old_row schema
                    ≡ some (true, (q, record old_row { fields = prev.fields })))
                  × (IsValid q
                      × ((j : ℕ)
                          → tuple_at q j
                            ≡ (if j == old_row.rid.slot_num then some tuple else tuple_at p j)))))))
update_tuple-Updates p new_row old_row prev schema bs v valid pf pl pb h nf nl =
    let i = old_row.rid.slot_num in
    let (tuple, (eb, (es, _))) = row_total new_row schema nf nl in
    let (bs', (eb', (_, read'))) = row_total prev schema pf pl in
    let read = subst (λ b. IsRead prev schema b) (some_injective (sym eb' ∙ pb)) read' in
    let n = length tuple in
    let ne : n ≢ 0 = λ z. omega (arith, z, get_serialized_size-ge new_row schema n es) in
    let (l, (d, (s, held))) = tuple_at-some p i bs h in
    let (live, (small, x)) = not_deleted (get_tuple_size p i) d in
    let (above, top) = v.inside i l live in
    let whole : (get_free_space_remaining p + get_tuple_size p i) % 2 ^ 32
        ≡ get_free_space_remaining p + get_tuple_size p i =
      omega (arith, remaining_lem p v, v.top, top, x) in
    elim (Bool-cases (ltb (get_free_space_remaining p + get_tuple_size p i) n)) [
      | inl r ↦
          let r' = ltb→lt _ n r in
          inl (
            n,
            (
              es,
              (
                omega (arith, r', s),
                update_tuple-refuses p new_row old_row schema n es ne valid l d
                    (omega (arith, whole, r')),
              ),
            ),
          )
      | inr r ↦
          let r' = ltb→le _ n r in
          let room : 24 + 8 * get_tuple_count p + n
              ≤ get_free_space_pointer p + get_tuple_size p i =
            omega (arith, r', remaining_lem p v) in
          let z = replace_tuple-Replaced p i tuple v l d room ne in
          inr (
            tuple,
            (
              replace_tuple p i n tuple,
              (
                eb,
                (
                  update_tuple-replaces p new_row old_row schema n es ne valid l d tuple bs prev
                      (omega (arith, whole, r')) above s held read eb,
                  (
                    Replaced-IsValid p (replace_tuple p i n tuple) i tuple v l d room ne z,
                    tuple_at-Replaced p (replace_tuple p i n tuple) i tuple v l d room ne z,
                  ),
                ),
              ),
            ),
          )
    ]
  where
    some_injective : {a b : List ℕ} → some a ≡ some b → a ≡ b
    some_injective e = cc
