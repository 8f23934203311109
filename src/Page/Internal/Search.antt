-- ===== src/Page/Internal/Search.antt =====
-- `Lookup` on an internal page.
use dis_minisql.Prelude.{
  ℕ, zero, suc, ◌+◌, ◌-◌, ◌/◌, ◌<◌, ◌≤◌, ◌≡◌, ◌≢◌, refl, ap, Bool, true, false, ◌⊎◌, inl, inr,
  Option, arith, Bool-cases, lt→ltb,
}
use dis_minisql.Page.TreePage.{KeyManager, is_above}
use dis_minisql.Page.Internal.{InternalPage, get_size, key_at, value_at, child_between, lookup}

module _ (KM : KeyManager) where
  open KM use {GenericKey}

  -- Whether the key at an index is above the key.
  abbrev pub above : InternalPage KM → GenericKey → ℕ → Bool
  above p key i = is_above (KM.compare_keys (key_at KM p i) key)

  -- The child at an index whose key is not above the key, unless it is the first, and whose next
  -- key, if there is one, is.
  pub data Leads (p : InternalPage KM) (key : GenericKey) : Option ℕ → Type 0 where
    child :
        (i : ℕ)
        → i < get_size KM p
        → (i ≡ 0) ⊎ (above p key i ≡ false)
        → (i + 1 < get_size KM p → above p key (i + 1) ≡ true)
        → Leads p key (value_at KM p i)

  above-apart :
      (p : InternalPage KM) (key : GenericKey) (i j : ℕ)
      → above p key i ≡ false
      → above p key j ≡ true
      → i ≢ j
  above-apart p key i j a b e = ground (arith, a, b, ap (above p key) e)

  child_between-Leads :
      (fuel : ℕ) (p : InternalPage KM) (key : GenericKey) (left right : ℕ)
      → right ≤ left + fuel
      → left < right
      → right < get_size KM p
      → above p key left ≡ false
      → above p key right ≡ true
      → Leads p key (child_between KM fuel p key left right)
  unfolding child_between
  child_between-Leads zero p key left right f l r a b = absurd (omega arith)
  child_between-Leads (suc fuel) p key left right f l r a b = elim (Bool-cases (above p key mid)) [
    | inl high ↦
        rw (child_between, lt→ltb left right l, high)
          (child_between-Leads fuel p key left mid (omega arith) (below high) (omega arith) a high)
    | inr low ↦ elim (Bool-cases (above p key (mid + 1))) [
      | inl next ↦
          rw (child_between, lt→ltb left right l, low, next)
            (child mid (omega arith) (inr low) λ h. next)
      | inr more ↦
          rw (child_between, lt→ltb left right l, low, more)
            (child_between-Leads fuel p key (mid + 1) right (omega arith) (before more) r more b)
    ]
  ]
    where
      mid : ℕ
      mid = (left + (right - 1)) / 2

      below : above p key mid ≡ true → left < mid
      below high = omega (arith, above-apart p key left mid a high)

      before : above p key (mid + 1) ≡ false → mid + 1 < right
      before more = omega (arith, above-apart p key (mid + 1) right more b)

  -- On a page of two children or more `Lookup`, a binary search, ends with the child that the keys
  -- lead to: the key of the child is not above the key, unless it is the first child, and the next
  -- key, if there is one, is above it.
  pub lookup-Leads :
      (p : InternalPage KM) (key : GenericKey) → 2 ≤ get_size KM p → Leads p key (lookup KM p key)
  unfolding lookup
  lookup-Leads p key h = elim (Bool-cases (above p key 1)) [
    | inl first ↦ rw (lookup, first) (child 0 (omega arith) (inl refl) λ k. first)
    | inr later ↦ elim (Bool-cases (above p key (get_size KM p - 1))) [
      | inr last ↦
          rw (lookup, later, last)
            (child (get_size KM p - 1) (omega arith) (inr last) λ k. absurd (omega arith))
      | inl between ↦
          rw (lookup, later, between)
            (child_between-Leads (get_size KM p) p key 1 (get_size KM p - 1) (omega arith)
              (omega (arith, above-apart p key 1 (get_size KM p - 1) later between)) (omega arith)
              later between)
    ]
  ]
