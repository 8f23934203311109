-- ===== src/Index/GenericKey/Comparison.antt =====
-- `CompareKeys` on keys: it compares column by column.
use dis_minisql.Prelude.{ℕ, suc, ◌+◌, ◌≡◌, subst, some, List, [], ◌∷◌, length, get_elem?, arith}
use dis_minisql.Record.Field.{Field}
use dis_minisql.Record.Field.Keys.{comparisons-sign}
use dis_minisql.Record.Schema.{Schema}
use dis_minisql.Index.GenericKey.{compare_fields}
use dis_minisql.Index.GenericKey.Order.{AreKeys, keys_sign}

-- The fields stand in the row from an index on.
abbrev pub At : List Field → ℕ → List Field → Type 0
At row i fields = (j : ℕ) → get_elem? row (i + j) ≡ get_elem? fields j

pub At-here :
    (row : List Field) (i : ℕ) (f : Field) (fields : List Field)
    → At row i (f ∷ fields)
    → get_elem? row i ≡ some f
At-here row i f fields h =
    subst (λ k. get_elem? row k ≡ some f) {x = i + 0} {y = i} (omega arith) (h 0)

pub At-next :
    (row : List Field) (i : ℕ) (f : Field) (fields : List Field)
    → At row i (f ∷ fields)
    → At row (i + 1) fields
At-next row i f fields h j =
    subst (λ k. get_elem? row k ≡ get_elem? fields j) {x = i + suc j} {y = i + 1 + j} (omega arith)
      (h (suc j))

pub compare_fields-keys_sign :
    (s : Schema) (lhs rhs k l : List Field) (i : ℕ)
    → AreKeys s k
    → AreKeys s l
    → At lhs i k
    → At rhs i l
    → compare_fields lhs rhs i (length s) ≡ some (keys_sign k l)
unfolding AreKeys compare_fields keys_sign
compare_fields-keys_sign [] lhs rhs k l i hk hl ak al = ground arith
compare_fields-keys_sign (c ∷ s) lhs rhs [] l i hk hl ak al = cc
compare_fields-keys_sign (c ∷ s) lhs rhs (f ∷ k) [] i hk hl ak al = cc
compare_fields-keys_sign (c ∷ s) lhs rhs (f ∷ k) (g ∷ l) i (hf, hk) (hg, hl) ak al =
    let (_, (_, (below, (_, (above, _))))) = comparisons-sign c.column_type f g hf hg in
    rw
      (
        At-here lhs i f k ak,
        At-here rhs i g l al,
        below,
        above,
        compare_fields-keys_sign s lhs rhs k l (i + 1) hk hl (At-next lhs i f k ak)
            (At-next rhs i g l al),
      )
      (ground arith)
