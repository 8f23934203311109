-- ===== src/Index/GenericKey/Nulls.antt =====
-- `CompareKeys` on rows with nulls: a column in which either side is null is passed over.
use Prim.Native.Nat.{Ordering}
use dis_minisql.Prelude.{
  ℕ, ◌+◌, ◌≤◌, ◌≡◌, ◌≢◌, ◌⊎◌, inl, inr, ap, true, false, ◌||◌, some, List, [], ◌∷◌, length, arith,
  get_elem?, if◌then◌else◌, Bool-cases,
}
use dis_minisql.Storage.Disk.{Bytes}
use dis_minisql.Page.TreePage.{is_lt, is_above}
use dis_minisql.Record.Types.{TypeId, type_invalid, cmp_null, get_cmp_bool}
use dis_minisql.Record.Field
use dis_minisql.Record.Field.{
  Field, get_type_id, is_null, check_comparable, compare_less_than, compare_greater_than,
}
use dis_minisql.Record.Field.Comparison.{compare_null}
use dis_minisql.Record.Field.Keys.{IsKey, sign, comparisons-sign, IsKey-IsValid}
use dis_minisql.Record.Schema.{Schema}
use dis_minisql.Record.Row
use dis_minisql.Record.Row.{Row, Fits}
use dis_minisql.Index.GenericKey.{KeyFormat, serialize_from_key, compare_fields, compare_keys}
use dis_minisql.Index.GenericKey.Comparison.{At, At-here, At-next}
use dis_minisql.Index.GenericKey.Manager.{row_buffer}

-- A field of a type that is null, or else no NaN.
unfoldable pub IsValue : TypeId → Field → Type 0
IsValue t f = IsKey t f ⊎ ((get_type_id f ≡ t) × (Field.IsValid f) × (is_null f ≡ true))

unfoldable pub AreValues : Schema → List Field → Type 0
AreValues [] [] = Unit
AreValues (c ∷ columns) (f ∷ fields) = IsValue c.column_type f × AreValues columns fields
AreValues _ _ = true ≡ false

-- The first column without a null in which the rows differ decides.
unfoldable pub sign_without_nulls : List Field → List Field → Ordering
sign_without_nulls (f ∷ k) (g ∷ l) =
    let rest = sign_without_nulls k l in
    if is_null f || is_null g then rest else elim (sign f g) [
      | Ordering.lt ↦ Ordering.lt
      | Ordering.eq ↦ rest
      | Ordering.gt ↦ Ordering.gt
    ]
sign_without_nulls _ _ = Ordering.eq

IsKey-is_null : (t : TypeId) (f : Field) → IsKey t f → is_null f ≡ false
unfolding IsKey
IsKey-is_null t f h = ground arith

IsValue-IsValid : (t : TypeId) (f : Field) → IsValue t f → (get_type_id f ≡ t) × Field.IsValid f
unfolding IsValue
IsValue-IsValid t f (inl h) = IsKey-IsValid t f h
IsValue-IsValid t f (inr (e, v, _)) = (e, v)

IsValid-get_type_id : (f : Field) → Field.IsValid f → get_type_id f ≢ type_invalid
unfolding Field.IsValid
IsValid-get_type_id f v e = ground (arith, v, e)

comparable :
    (t : TypeId) (f g : Field) → get_type_id f ≡ t → get_type_id g ≡ t → check_comparable f g ≡ true
comparable t f g h i = ground (arith, h, i)

-- Two values of one type: the columns with a null are neither less nor greater.
column_null :
    (t : TypeId) (f g : Field)
    → IsValue t f
    → IsValue t g
    → (is_null f || is_null g) ≡ true
    → (compare_less_than f g ≡ some cmp_null) × (compare_greater_than f g ≡ some cmp_null)
column_null t f g hf hg n =
    let (ef, vf) = IsValue-IsValid t f hf in
    let (eg, vg) = IsValue-IsValid t g hg in
    let (_, (_, (below, (_, (above, _))))) =
      compare_null f g (comparable t f g ef eg) (IsValid-get_type_id f vf) n in
    (below, above)

column_keys :
    (t : TypeId) (f g : Field)
    → IsValue t f
    → IsValue t g
    → (is_null f || is_null g) ≡ false
    → (compare_less_than f g ≡ some (get_cmp_bool (is_lt (sign f g))))
      × (compare_greater_than f g ≡ some (get_cmp_bool (is_above (sign f g))))
unfolding IsValue
column_keys t f g (inl hf) (inl hg) n =
    let (_, (_, (below, (_, (above, _))))) = comparisons-sign t f g hf hg in (below, above)
column_keys t f g (inr (_, _, h)) hg n = absurd (ground (arith, h, n))
column_keys t f g (inl hf) (inr (_, _, h)) n = absurd (ground (arith, h, n))

compare_fields-sign_without_nulls :
    (s : Schema) (lhs rhs k l : List Field) (i : ℕ)
    → AreValues s k
    → AreValues s l
    → At lhs i k
    → At rhs i l
    → compare_fields lhs rhs i (length s) ≡ some (sign_without_nulls k l)
unfolding AreValues compare_fields sign_without_nulls
compare_fields-sign_without_nulls [] lhs rhs k l i hk hl ak al = ground arith
compare_fields-sign_without_nulls (c ∷ s) lhs rhs [] l i hk hl ak al = cc
compare_fields-sign_without_nulls (c ∷ s) lhs rhs (f ∷ k) [] i hk hl ak al = cc
compare_fields-sign_without_nulls (c ∷ s) lhs rhs (f ∷ k) (g ∷ l) i (hf, hk) (hg, hl) ak al =
    let rest =
      compare_fields-sign_without_nulls s lhs rhs k l (i + 1) hk hl (At-next lhs i f k ak)
        (At-next rhs i g l al) in
    elim (Bool-cases (is_null f || is_null g)) [
      | inl n ↦
          let (below, above) = column_null c.column_type f g hf hg n in
          rw (At-here lhs i f k ak, At-here rhs i g l al, below, above, n, rest)
      | inr n ↦
          let (below, above) = column_keys c.column_type f g hf hg n in
          rw (At-here lhs i f k ak, At-here rhs i g l al, below, above, n, rest) (ground arith)
    ]

AreValues-Fits : (s : Schema) (fields : List Field) → AreValues s fields → Fits fields s
unfolding AreValues Fits
AreValues-Fits [] [] h = tt
AreValues-Fits [] (f ∷ fields) h = cc
AreValues-Fits (c ∷ s) [] h = cc
AreValues-Fits (c ∷ s) (f ∷ fields) (hf, h) =
    let (t, v) = IsValue-IsValid c.column_type f hf in (t, (v, AreValues-Fits s fields h))

-- Rows of values that are null or else no NaN, and that are within the size of the keys, are written
-- to key buffers, and CompareKeys orders two such buffers by the columns in which neither row is null:
-- the first of these in which they differ decides, and where there is none the keys are equal.
pub compare_keys-sign_without_nulls :
    (m : KeyFormat) (k l : Row) (i j : ℕ)
    → AreValues m.key_schema k.fields
    → AreValues m.key_schema l.fields
    → length m.key_schema ≤ 32
    → Row.get_serialized_size k m.key_schema ≡ some i
    → i ≤ m.key_size
    → Row.get_serialized_size l m.key_schema ≡ some j
    → j ≤ m.key_size
    → (a : Bytes) × (b : Bytes) × (serialize_from_key m k m.key_schema ≡ some a)
      × (serialize_from_key m l m.key_schema ≡ some b)
      × (compare_keys m a b ≡ some (sign_without_nulls k.fields l.fields))
unfolding compare_keys
compare_keys-sign_without_nulls m k l i j hk hl h si bi sj bj =
    let (a, ea, da) = row_buffer m k i (AreValues-Fits m.key_schema k.fields hk) h si bi in
    let (b, eb, db) = row_buffer m l j (AreValues-Fits m.key_schema l.fields hl) h sj bj in
    (
      a,
      b,
      ea,
      eb,
      rw (
        compare_keys,
        da,
        db,
        compare_fields-sign_without_nulls m.key_schema k.fields l.fields k.fields l.fields 0 hk hl
            (at_start k.fields) (at_start l.fields),
      ),
    )
  where
    at_start : (fields : List Field) (j : ℕ) → get_elem? fields (0 + j) ≡ get_elem? fields j
    at_start fields j = ap (λ i. get_elem? fields i) (omega arith)
