-- ===== src/Record/Row/KeyRow.antt =====
-- `GetKeyFromRow`: the fields of the columns that an index is over.
use dis_minisql.Prelude.{
  ℕ, zero, suc, ◌+◌, ◌≡◌, refl, sym, ◌∙◌, ap, true, false, Option, none, some, List, [], ◌∷◌,
  get_elem?, arith, ◌>>=◌, subst, Option-cases, inl, inr,
}
use dis_minisql.Record.Field.{Field}
use dis_minisql.Record.Column.{Column}
use dis_minisql.Record.Schema.{Schema, same_name, column_index_from, shallow_copy_schema}
use dis_minisql.Record.Row.{Row, key_fields, get_key_from_row}

-- No two columns have one name.
unfoldable pub DistinctNames : Schema → Type 0
DistinctNames [] = Unit
DistinctNames (c ∷ columns) = (column_index_from columns c.name 0 ≡ none) × DistinctNames columns

-- The elements at the positions.
unfoldable pub pick {ℓ} : {A : Type ℓ} → List A → List ℕ → Option (List A)
pick xs [] = some []
pick xs (i ∷ attrs) = do x ← get_elem? xs i; rest ← pick xs attrs; some (x ∷ rest)

same_name_self : (s : List ℕ) → same_name s s ≡ true
unfolding same_name
same_name_self [] = refl
same_name_self (a ∷ s) = ground (arith, same_name_self s)

same_name_flip : (s t : List ℕ) → same_name s t ≡ same_name t s
unfolding same_name
same_name_flip [] [] = refl
same_name_flip [] (b ∷ t) = refl
same_name_flip (a ∷ s) [] = refl
same_name_flip (a ∷ s) (b ∷ t) = ground (arith, same_name_flip s t)

absent :
    (columns : Schema) (col_name : List ℕ) (k i : ℕ) (d : Column)
    → column_index_from columns col_name k ≡ none
    → get_elem? columns i ≡ some d
    → same_name d.name col_name ≡ false
unfolding column_index_from
absent [] col_name k i d h e = cc
absent (c ∷ columns) col_name k zero d h e = ground (arith, ap (λ o. o) e)
absent (c ∷ columns) col_name k (suc i) d h e = ground (arith, absent columns col_name (k + 1) i d)

-- The start of the count does not matter to whether a name is found.
absent_from :
    (columns : Schema) (col_name : List ℕ) (k l : ℕ)
    → column_index_from columns col_name k ≡ none
    → column_index_from columns col_name l ≡ none
unfolding column_index_from
absent_from [] col_name k l h = refl
absent_from (c ∷ columns) col_name k l h =
    ground (arith, absent_from columns col_name (k + 1) (l + 1))

column_index_from-get_elem? :
    (columns : Schema) (k i : ℕ) (c : Column)
    → DistinctNames columns
    → get_elem? columns i ≡ some c
    → column_index_from columns c.name k ≡ some (k + i)
unfolding column_index_from DistinctNames
column_index_from-get_elem? [] k i c d e = cc
column_index_from-get_elem? (b ∷ columns) k zero c d e =
    ground (arith, subst (λ n. same_name b.name n ≡ true) (ap name_or e) (same_name_self b.name))
  where
    name_or : Option Column → List ℕ
    name_or none = []
    name_or (some c) = c.name
column_index_from-get_elem? (b ∷ columns) k (suc i) c (n, d) e = ground (
  arith,
  same_name_flip b.name c.name,
  absent columns b.name 0 i c n e,
  column_index_from-get_elem? columns (k + 1) i c d e,
)

shallow_copy_schema-next :
    (schema : Schema) (i : ℕ) (attrs : List ℕ) (ks : Schema)
    → shallow_copy_schema schema (i ∷ attrs) ≡ some ks
    → (c : Column) × ((rest : Schema) × ((get_elem? schema i ≡ some c)
          × ((shallow_copy_schema schema attrs ≡ some rest) × (ks ≡ c ∷ rest))))
unfolding shallow_copy_schema
shallow_copy_schema-next schema i attrs ks h = elim (Option-cases (get_elem? schema i)) [
  | inl e ↦ ground (arith, h, e)
  | inr (c, e) ↦ elim (Option-cases (shallow_copy_schema schema attrs)) [
    | inl d ↦ ground (arith, h, e, d)
    | inr (rest, d) ↦ (c, (rest, (e, (d, ground (arith, h, e, d)))))
  ]
]

shallow_copy_schema-none : (schema ks : Schema) → shallow_copy_schema schema [] ≡ some ks → [] ≡ ks
unfolding shallow_copy_schema
shallow_copy_schema-none schema ks h = cc

key_fields-pick :
    (fields : List Field) (schema : Schema) (attrs : List ℕ) (ks : Schema) (idx : Option ℕ)
    → DistinctNames schema
    → shallow_copy_schema schema attrs ≡ some ks
    → key_fields fields schema ks idx ≡ pick fields attrs
unfolding key_fields pick
key_fields-pick fields schema [] ks idx d h = rw (sym (shallow_copy_schema-none schema ks h))
key_fields-pick fields schema (i ∷ attrs) ks idx d h =
    let (c, (rest, (e, (r, k)))) = shallow_copy_schema-next schema i attrs ks h in
    let found =
      column_index_from-get_elem? schema 0 i c d e ∙ ap some {x = 0 + i} {y = i} (omega arith) in
    rw (k, found, key_fields-pick fields schema attrs rest (some i) d r)

-- On a schema without two columns of one name, the key row of an index on some columns has the
-- fields of those columns, in the order of the index.
pub get_key_from_row-shallow_copy_schema :
    (row : Row) (schema ks : Schema) (attrs : List ℕ) (key : List Field)
    → DistinctNames schema
    → shallow_copy_schema schema attrs ≡ some ks
    → pick row.fields attrs ≡ some key
    → get_key_from_row row schema ks
      ≡ some (record { rid = record { page_id = none; slot_num = 0 }; fields = key })
unfolding get_key_from_row
get_key_from_row-shallow_copy_schema row schema ks attrs key d h p =
    rw (key_fields-pick row.fields schema attrs ks none d h, p)
