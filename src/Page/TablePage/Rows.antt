-- ===== src/Page/TablePage/Rows.antt =====
-- `InsertTuple` of rows.
use dis_minisql.Prelude.{
  ℕ, ◌+◌, ◌*◌, ◌<◌, ◌≤◌, ◌≡◌, ◌≢◌, ◌⊎◌, inl, inr, ap, ◌∙◌, true, false, Option, none, some, List,
  length, ◌==◌, ==_self, ==_ne, ltb, ltb→lt, lt→ltb, ltb→le, le→ltb, if◌then◌else◌, arith,
  Bool-cases,
}
use dis_minisql.Storage.Disk.{Bytes}
use dis_minisql.Record.Schema.{Schema}
use dis_minisql.Record.Row
use dis_minisql.Record.Row.{Row, Fits}
use dis_minisql.Record.Row.RoundTrip.{row_total, get_serialized_size-ge}
use dis_minisql.Page.TablePage.{
  get_free_space_pointer, get_tuple_count, is_deleted, empty_slot, place_tuple, insert_tuple,
  get_free_space_remaining, get_table_page_id, page_id_of,
}
use dis_minisql.Page.TablePage.View.{tuple_at, IsValid, tuple_at-beyond, tuple_at-deleted}
use dis_minisql.Page.TablePage.Placement.{Placed, place_tuple-Placed}
use dis_minisql.Page.TablePage.Insertion.{
  IsUnused, empty_slot-IsEmpty, Placed-IsValid, tuple_at-Placed,
}

pub slot_of : Bytes → ℕ
slot_of p = empty_slot p 0 (get_tuple_count p)

pub slot_of-IsUnused : (p : Bytes) → IsUnused p (slot_of p)
unfolding slot_of
slot_of-IsUnused p =
    let (_, (u, c)) = empty_slot-IsEmpty p 0 (get_tuple_count p) in
    elim (Bool-cases (ltb (empty_slot p 0 (get_tuple_count p)) (get_tuple_count p))) [
      | inl l ↦ elim c [ inl e ↦ inl (omega (arith, e)) | inr z ↦ inr (ltb→lt _ _ l, z) ]
      | inr l ↦ inl (omega (arith, u, ltb→le _ _ l))
    ]

unused-tuple_at : (p : Bytes) (i : ℕ) → IsUnused p i → tuple_at p i ≡ none
unused-tuple_at p i (inl e) = tuple_at-beyond p i (omega arith)
unused-tuple_at p i (inr (l, z)) = tuple_at-deleted p i (ap is_deleted z)

-- The room of a well-formed page.
pub remaining_lem :
    (p : Bytes)
    → IsValid p
    → get_free_space_remaining p + 24 + 8 * get_tuple_count p ≡ get_free_space_pointer p
remaining_lem p v = omega (arith, v.room, v.top)

-- The two branches of the insertion, from the bytes of the row.
insert_tuple-full :
    (p : Bytes) (row : Row) (schema : Schema) (n : ℕ)
    → Row.get_serialized_size row schema ≡ some n
    → n ≢ 0
    → get_free_space_remaining p < n + 8
    → insert_tuple p row schema ≡ some (false, (p, row))
unfolding insert_tuple
insert_tuple-full p row schema n e ne l = rw (e, ==_ne n 0 ne, lt→ltb _ (n + 8) l)

pub with_rid : Row → Option ℕ → ℕ → Row
with_rid row page_id i = record row { rid = record { page_id = page_id; slot_num = i } }

pub insert_tuple-place :
    (p : Bytes) (row : Row) (schema : Schema) (tuple : List ℕ)
    → Row.get_serialized_size row schema ≡ some (length tuple)
    → Row.row_bytes row schema ≡ some tuple
    → length tuple ≢ 0
    → length tuple + 8 ≤ get_free_space_remaining p
    → insert_tuple p row schema
      ≡ some (
        true,
        (
          place_tuple p (slot_of p) (length tuple) tuple,
          with_rid row
              (get_table_page_id (place_tuple p (slot_of p) (length tuple) tuple))
              (slot_of p),
        ),
      )
unfolding insert_tuple slot_of with_rid
insert_tuple-place p row schema tuple e b ne l =
    rw (e, ==_ne (length tuple) 0 ne, le→ltb _ (length tuple + 8) l, b, ==_self (length tuple))

unused-le : (p : Bytes) (i : ℕ) → IsUnused p i → i ≤ get_tuple_count p
unused-le p i (inl e) = omega arith
unused-le p i (inr (l, z)) = omega arith

room_left :
    (p q : Bytes) (i : ℕ) (tuple : List ℕ)
    → Placed p q i tuple
    → 32 + 8 * get_tuple_count p + length tuple ≤ get_free_space_pointer p
    → 24 + 8 * get_tuple_count q ≤ get_free_space_pointer q
room_left p q i tuple d room = ground (arith, d.count, d.pointer)

-- On a well-formed page InsertTuple either answers false, for want of room, or enters the bytes of
-- the row in an unused slot, sets the row id, keeps every other tuple and the page well formed.
pub insert_tuple-Inserts :
    (p : Bytes) (row : Row) (schema : Schema)
    → IsValid p
    → Fits row.fields schema
    → length row.fields ≤ 32
    → ((n : ℕ) × ((Row.get_serialized_size row schema ≡ some n)
          × ((get_free_space_remaining p < n + 8)
              × (insert_tuple p row schema ≡ some (false, (p, row))))))
      ⊎ ((tuple : List ℕ) × ((q : Bytes) × ((i : ℕ) × ((Row.row_bytes row schema ≡ some tuple)
                × ((insert_tuple p row schema
                      ≡ some (
                        true,
                        (
                          q,
                          record row {
                            rid = record { page_id = get_table_page_id p; slot_num = i };
                          },
                        ),
                      ))
                    × (IsValid q
                        × ((tuple_at p i ≡ none)
                            × ((j : ℕ)
                                → tuple_at q j
                                  ≡ (if j == i then some tuple else tuple_at p j)))))))))
unfolding with_rid
insert_tuple-Inserts p row schema v fits few =
    let (tuple, (eb, (es, _))) = row_total row schema fits few in
    let n = length tuple in
    let ne : n ≢ 0 = λ z. omega (arith, z, get_serialized_size-ge row schema n es) in
    elim (Bool-cases (ltb (get_free_space_remaining p) (n + 8))) [
      | inl l ↦
          let l' = ltb→lt _ (n + 8) l in
          inl (n, (es, (l', insert_tuple-full p row schema n es ne l')))
      | inr l ↦
          let l' = ltb→le _ (n + 8) l in
          let i = slot_of p in
          let q = place_tuple p i n tuple in
          let u = slot_of-IsUnused p in
          let room : 32 + 8 * get_tuple_count p + n ≤ get_free_space_pointer p =
            omega (arith, l', remaining_lem p v) in
          let d = place_tuple-Placed p i tuple (unused-le p i u) room v.top in
          inr (
            tuple,
            (
              q,
              (
                i,
                (
                  eb,
                  (
                    insert_tuple-place p row schema tuple es eb ne l'
                        ∙ ap (λ id. some (true, (q, with_rid row (page_id_of id) i))) d.id,
                    (
                      Placed-IsValid p q i tuple v u d ne (room_left p q i tuple d room),
                      (unused-tuple_at p i u, tuple_at-Placed p q i tuple v u d ne),
                    ),
                  ),
                ),
              ),
            ),
          )
    ]
