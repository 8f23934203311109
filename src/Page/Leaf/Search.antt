-- ===== src/Page/Leaf/Search.antt =====
-- The two binary searches of a leaf.
use native.Mathlib.Decide.{ℕ_discrete, dec_lt}
use Prim.Native.Nat.{Ordering}
use dis_minisql.Prelude.{
  ℕ, zero, suc, ◌+◌, ◌-◌, ◌/◌, ◌<◌, ◌≤◌, ◌≡◌, ◌≢◌, refl, sym, ap, ◌∙◌, subst, inl, inr, true, false,
  Option, none, some, ltb, arith, Bool-cases, ltb→lt,
}
use dis_minisql.Page.TreePage.{KeyManager, RowId, is_lt, is_eq, is_lt→eq, is_eq→eq}
use dis_minisql.Page.Leaf.{
  LeafPage, get_size, key_at, value_at, index_between, key_index, lookup_between, lookup,
}

module _ (KM : KeyManager) where
  open KM use {GenericKey, compare_keys}

  -- The keys of the page rise.
  unfoldable pub Sorted : LeafPage KM → Type 0
  Sorted p =
      (i j : ℕ)
      → i < j
      → j < get_size KM p
      → compare_keys (key_at KM p i) (key_at KM p j) ≡ Ordering.lt

  -- `i` is the first index whose key is not below the key, among those of the page.
  abbrev pub IsFirst : LeafPage KM → GenericKey → ℕ → Type 0
  IsFirst p key i =
      (i ≤ get_size KM p)
      × ((j : ℕ) → j < i → is_lt (compare_keys (key_at KM p j) key) ≡ true)
      × ((j : ℕ) → i ≤ j → j < get_size KM p → is_lt (compare_keys (key_at KM p j) key) ≡ false)

  -- Below an index whose key is below the key, every key is.
  below_less :
      (p : LeafPage KM) (key : GenericKey) (mid : ℕ)
      → Sorted p
      → is_lt (compare_keys (key_at KM p mid) key) ≡ true
      → mid < get_size KM p
      → (j : ℕ) → j ≤ mid
      → is_lt (compare_keys (key_at KM p j) key) ≡ true
  unfolding Sorted
  below_less p key mid s less h j k = elim (ℕ_discrete j mid) [
    | yes e ↦ rw e less
    | no ne ↦ ap is_lt (
        KM.compare_trans _ _ key (s j mid (omega arith) h)
          (is_lt→eq (compare_keys (key_at KM p mid) key) less))
  ]

  above_not_less :
      (p : LeafPage KM) (key : GenericKey) (mid : ℕ)
      → Sorted p
      → is_lt (compare_keys (key_at KM p mid) key) ≡ false
      → (j : ℕ) → mid ≤ j
      → j < get_size KM p
      → is_lt (compare_keys (key_at KM p j) key) ≡ false
  above_not_less p key mid s more j h k =
      elim (Bool-cases (is_lt (compare_keys (key_at KM p j) key))) [
        | inr fine ↦ fine
        | inl less ↦ absurd (ground (arith, below_less p key j s less k mid h, more))
      ]

  index_between-IsFirst :
      (fuel : ℕ) (p : LeafPage KM) (key : GenericKey) (left right : ℕ)
      → Sorted p
      → right ≤ left + fuel
      → left ≤ right
      → right ≤ get_size KM p
      → ((j : ℕ) → j < left → is_lt (compare_keys (key_at KM p j) key) ≡ true)
      → ((j : ℕ) → right ≤ j → j < get_size KM p → is_lt (compare_keys (key_at KM p j) key) ≡ false)
      → IsFirst p key (index_between KM fuel p key left right)
  unfolding index_between
  index_between-IsFirst zero p key left right s f l r below above =
      (r, λ j h. below j (omega arith), above)
  index_between-IsFirst (suc fuel) p key left right s f l r below above =
      elim (Bool-cases (ltb left right)) [
        | inr done ↦ rw (index_between, done) (r, λ j h. below j (ground arith), above)
        | inl more ↦
            let mid = (left + right) / 2 in
            let here : left ≤ mid = omega (arith, ltb→lt left right more) in
            let before : mid < right = omega (arith, ltb→lt left right more) in
            elim (Bool-cases (is_lt (compare_keys (key_at KM p mid) key))) [
              | inl less ↦
                  rw (index_between, more, less)
                    (index_between-IsFirst fuel p key (mid + 1) right s (omega arith) (omega arith)
                      r (λ j h. below_less p key mid s less (omega arith) j (omega arith)) above)
              | inr not_less ↦
                  rw (index_between, more, not_less)
                    (index_between-IsFirst fuel p key left mid s (omega arith) here (omega arith)
                      below (λ j h k. above_not_less p key mid s not_less j h k))
            ]
      ]

  -- On a page whose keys rise, `KeyIndex` ends with the first index whose key is not below the key.
  pub key_index-IsFirst :
      (p : LeafPage KM) (key : GenericKey) → Sorted p → IsFirst p key (key_index KM p key)
  unfolding key_index
  key_index-IsFirst p key s =
      index_between-IsFirst (get_size KM p) p key 0 (get_size KM p) s (omega arith) (omega arith)
        (omega arith) (λ j h. absurd (omega arith)) (λ j h k. absurd (omega arith))

  -- What a page answers for a key: the value of an index whose key compares equal, or that there is
  -- none.
  pub data Answers (p : LeafPage KM) (key : GenericKey) : Option RowId → Type 0 where
    found :
        (i : ℕ)
        → i < get_size KM p
        → compare_keys (key_at KM p i) key ≡ Ordering.eq
        → Answers p key (some (value_at KM p i))
    missing :
        ((i : ℕ) → i < get_size KM p → compare_keys (key_at KM p i) key ≢ Ordering.eq)
        → Answers p key none

  pub equal_above :
      (p : LeafPage KM) (key : GenericKey) (index : ℕ)
      → Sorted p
      → is_eq (compare_keys (key_at KM p index) key) ≡ false
      → is_lt (compare_keys (key_at KM p index) key) ≡ false
      → (j : ℕ) → index ≤ j
      → j < get_size KM p
      → compare_keys (key_at KM p j) key ≢ Ordering.eq
  unfolding Sorted
  equal_above p key index s other not_less j h k e = elim (ℕ_discrete index j) [
    | yes same ↦ ground (
      arith,
      other,
      ap is_eq (subst (λ j. compare_keys (key_at KM p j) key ≡ Ordering.eq) (sym same) e),
    )
    | no ne ↦
        let below =
          sym (KM.compare_same (key_at KM p j) key (key_at KM p index) e).1
          ∙ s index j (omega arith) k in
        ground (arith, not_less, ap is_lt below)
  ]

  lookup_between-Answers :
      (fuel : ℕ) (p : LeafPage KM) (key : GenericKey) (left right : ℕ)
      → Sorted p
      → right ≤ left + fuel
      → right ≤ get_size KM p
      → ((j : ℕ) → j < left → compare_keys (key_at KM p j) key ≢ Ordering.eq)
      → ((j : ℕ) → right ≤ j → j < get_size KM p → compare_keys (key_at KM p j) key ≢ Ordering.eq)
      → Answers p key (lookup_between KM fuel p key left right)
  unfolding lookup_between
  lookup_between-Answers zero p key left right s f r below above =
      missing λ j h. elim (dec_lt j left) [ yes l ↦ below j l | no n ↦ above j (omega arith) h ]
  lookup_between-Answers (suc fuel) p key left right s f r below above =
      elim (Bool-cases (ltb left right)) [
        | inr done ↦
            rw (lookup_between, done)
              (missing
                λ j h. elim (dec_lt j left) [ yes l ↦ below j l | no n ↦ above j (ground arith) h ])
        | inl more ↦
            let l = ltb→lt left right more in
            let index = (left + (right - 1)) / 2 in
            let here : left ≤ index = omega (arith, l) in
            let before : index < right = omega (arith, l) in
            elim (Bool-cases (is_eq (compare_keys (key_at KM p index) key))) [
              | inl same ↦
                  rw (lookup_between, more, same)
                    (found index (omega arith)
                      (is_eq→eq (compare_keys (key_at KM p index) key) same))
              | inr other ↦ elim (Bool-cases (is_lt (compare_keys (key_at KM p index) key))) [
                | inl less ↦
                    rw (lookup_between, more, other, less)
                      (lookup_between-Answers fuel p key (index + 1) right s (omega arith) r
                        (λ j h e. ground (
                          arith,
                          below_less p key index s less (omega arith) j (omega arith),
                          ap is_lt e,
                        ))
                        above)
                | inr not_less ↦
                    rw (lookup_between, more, other, not_less)
                      (lookup_between-Answers fuel p key left index s (omega arith) (omega arith)
                        below (λ j h k e. equal_above p key index s other not_less j h k e))
              ]
            ]
      ]

  -- On a page whose keys rise, `Lookup` answers the value of an index whose key compares equal, or
  -- none when no key does.
  pub lookup-Answers :
      (p : LeafPage KM) (key : GenericKey) → Sorted p → Answers p key (lookup KM p key)
  unfolding lookup
  lookup-Answers p key s =
      lookup_between-Answers (get_size KM p) p key 0 (get_size KM p) s (omega arith) (omega arith)
        (λ j h. absurd (omega arith)) (λ j h k. absurd (omega arith))

  -- A page whose keys rise has one answer for a key.
  pub equal_index :
      (p : LeafPage KM) (key : GenericKey) (i j : ℕ)
      → Sorted p
      → i < get_size KM p
      → j < get_size KM p
      → compare_keys (key_at KM p i) key ≡ Ordering.eq
      → compare_keys (key_at KM p j) key ≡ Ordering.eq
      → ¬ (i < j)
  unfolding Sorted
  equal_index p key i j s h k e e' l =
      let same = (KM.compare_same (key_at KM p j) key (key_at KM p i) e').1 in
      ground (arith, ap is_lt (sym (s i j l k) ∙ same ∙ e))

  pub Answers-one :
      (p : LeafPage KM) (key : GenericKey) (x y : Option RowId)
      → Sorted p
      → Answers p key x
      → Answers p key y
      → x ≡ y
  Answers-one p key _ _ s (found i h e) (found j k e') =
      ap (λ i. some (value_at KM p i))
        (omega (arith, equal_index p key i j s h k e e', equal_index p key j i s k h e' e))
  Answers-one p key _ _ s (found i h e) (missing a) = absurd (a i h e)
  Answers-one p key _ _ s (missing a) (found j k e') = absurd (a j k e')
  Answers-one p key _ _ s (missing a) (missing a') = refl
