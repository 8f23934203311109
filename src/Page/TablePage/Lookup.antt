-- ===== src/Page/TablePage/Lookup.antt =====
-- `GetTuple` reads what `InsertTuple` wrote.
use dis_minisql.Prelude.{
  ℕ, ◌<◌, ◌≤◌, ◌≡◌, ◌≢◌, inl, inr, refl, sym, ap, ◌∙◌, Bool, true, false, Option, none, some, List,
  length, ◌==◌, ==_self, leb, if◌then◌else◌, arith,
}
use dis_minisql.Storage.Disk.{Bytes}
use dis_minisql.Page.TreePage.{RowId}
use dis_minisql.Record.Schema.{Schema}
use dis_minisql.Record.Row.{Row, Fits}
use dis_minisql.Record.Row.RoundTrip.{row_total, IsRead}
use dis_minisql.Page.TablePage.{
  get_tuple_count, get_tuple_offset, get_tuple_size, insert_tuple, get_tuple, is_invalid,
  get_table_page_id,
}
use dis_minisql.Page.TablePage.View.{tuple_at, IsValid, tuple_at-some}
use dis_minisql.Page.TablePage.Rows.{insert_tuple-Inserts}

-- GetTuple reads a row from the slot that holds its bytes.
get_tuple-tuple_at :
    (p : Bytes) (row old : Row) (schema : Schema) (bs : List ℕ)
    → is_invalid old.rid ≡ false
    → tuple_at p old.rid.slot_num ≡ some bs
    → IsRead row schema bs
    → get_tuple p old schema ≡ some (true, record old { fields = row.fields })
unfolding get_tuple
get_tuple-tuple_at p row old schema bs valid h read =
    let i = old.rid.slot_num in
    let (l, (d, (s, held))) = tuple_at-some p i bs h in
    rw (
      valid,
      not_beyond i (get_tuple_count p) l,
      d,
      read old p (get_tuple_offset p i) held,
      ==_eq (length bs) (get_tuple_size p i) (sym s),
    )
  where
    not_beyond : (i n : ℕ) → i < n → leb n i ≡ false
    not_beyond i n l = ground arith

    ==_eq : (a b : ℕ) → a ≡ b → (a == b) ≡ true
    ==_eq a b e = ground arith

abbrev Outcome : Type 0
Outcome = Option (Bool × (Bytes × Row))

inserted_parts :
    (q r : Bytes) (a b : Row)
    → ◌≡◌ {A = Outcome} (some (true, (q, a))) (some (true, (r, b)))
    → (q ≡ r) × (a.rid ≡ b.rid)
inserted_parts q r a b e = (ap (λ o. page_or q o) e, ap (λ o. rid_or a o) e)
  where
    page_or : Bytes → Outcome → Bytes
    page_or q none = q
    page_or q (some (_, (r, _))) = r

    rid_or : Row → Outcome → RowId
    rid_or a none = a.rid
    rid_or a (some (_, (_, b))) = b.rid

not_inserted :
    (p q : Bytes) (a b : Row) → ◌≡◌ {A = Outcome} (some (false, (p, a))) (some (true, (q, b))) → ⊥
not_inserted p q a b e = cc

-- A row that InsertTuple puts on a well-formed page with an id is read back by GetTuple under the
-- row id that it sets.
pub get_tuple-insert_tuple :
    (p q : Bytes) (row placed old : Row) (schema : Schema)
    → IsValid p
    → get_table_page_id p ≢ none
    → Fits row.fields schema
    → length row.fields ≤ 32
    → insert_tuple p row schema ≡ some (true, (q, placed))
    → old.rid ≡ placed.rid
    → get_tuple q old schema ≡ some (true, record old { fields = row.fields })
get_tuple-insert_tuple p q row placed old schema v id fits few h same =
    elim (insert_tuple-Inserts p row schema v fits few) [
      | inl (n, (_, (_, e))) ↦ absurd (not_inserted p q row placed (sym e ∙ h))
      | inr (tuple, (r, (i, (eb, (e, (_, (_, view))))))) ↦
          let (bs, (eb', (_, read))) = row_total row schema fits few in
          let (rq, rid) = inserted_parts r q _ placed (sym e ∙ h) in
          let slot = ap (λ x. x.slot_num) (same ∙ sym rid) in
          get_tuple-tuple_at q row old schema bs
            (ap is_invalid (same ∙ sym rid) ∙ valid_id (get_table_page_id p) i id)
            (ap (λ k. tuple_at q k) slot
              ∙ ap (λ x. tuple_at x i) (sym rq)
              ∙ view i
              ∙ ap (λ b. if b then some tuple else tuple_at p i) (==_self i)
              ∙ sym eb
              ∙ eb')
            read
    ]
  where
    valid_id :
        (id : Option ℕ) (i : ℕ)
        → id ≢ none
        → is_invalid (record { page_id = id; slot_num = i }) ≡ false
    valid_id none i n = absurd (n refl)
    valid_id (some k) i n = refl
