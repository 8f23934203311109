-- ===== src/Page/TablePage/View.antt =====
-- What a table page holds, and when it is well formed.
use dis_minisql.Prelude.{
  ℕ, ◌+◌, ◌*◌, ◌%◌, ◌^◌, ◌<◌, ◌≤◌, ◌≡◌, ◌≢◌, not, ◌&&◌, Option, none, some, List, ltb,
  if◌then◌else◌, true, false, length, subst, sym, ap, ◌∙◌, lt→ltb, le→ltb, ltb→lt, ltb→le,
  Bool-cases, inl, inr, arith,
}
use dis_minisql.Storage.Disk.{Bytes}
use dis_minisql.Memory.{read_bytes, Holds}
use dis_minisql.Memory.Reading.{Holds-read_bytes, length-read_bytes}
use dis_minisql.Page.TablePage.{
  get_free_space_pointer, get_tuple_count, get_tuple_offset, get_tuple_size, is_deleted,
}
use dis_minisql.Page.TablePage.Access.{Apart}

-- The bytes of the tuple in a slot, if it is there.
unfoldable pub tuple_at : Bytes → ℕ → Option (List ℕ)
tuple_at p i =
    if ltb i (get_tuple_count p) && not (is_deleted (get_tuple_size p i))
    then some (read_bytes p (get_tuple_offset p i) (get_tuple_size p i))
    else none

-- The bytes that a slot takes, marked or not.
abbrev pub extent : Bytes → ℕ → ℕ
extent p i = get_tuple_size p i % 2 ^ 31

-- The slots stand below the free space, and the tuples above it, apart from each other.
pub record IsValid (p : Bytes) : Type 0 where
  pub room : 24 + 8 * get_tuple_count p ≤ get_free_space_pointer p
  pub top : get_free_space_pointer p ≤ 4096
  pub word : (i : ℕ) → i < get_tuple_count p → get_tuple_size p i < 2 ^ 32
  pub used : (i : ℕ) → i < get_tuple_count p → get_tuple_size p i ≢ 0 → extent p i ≢ 0
  pub inside :
      (i : ℕ)
      → i < get_tuple_count p
      → get_tuple_size p i ≢ 0
      → (get_free_space_pointer p ≤ get_tuple_offset p i)
        × (get_tuple_offset p i + extent p i ≤ 4096)
  pub apart :
      (i j : ℕ)
      → i < get_tuple_count p
      → j < get_tuple_count p
      → i ≢ j
      → get_tuple_size p i ≢ 0
      → get_tuple_size p j ≢ 0
      → Apart (get_tuple_offset p i) (extent p i) (get_tuple_offset p j) (extent p j)

pub tuple_at-there :
    (p : Bytes) (i : ℕ)
    → i < get_tuple_count p
    → is_deleted (get_tuple_size p i) ≡ false
    → tuple_at p i ≡ some (read_bytes p (get_tuple_offset p i) (get_tuple_size p i))
unfolding tuple_at
tuple_at-there p i l e = rw (lt→ltb i (get_tuple_count p) l, e)

pub tuple_at-beyond : (p : Bytes) (i : ℕ) → get_tuple_count p ≤ i → tuple_at p i ≡ none
unfolding tuple_at
tuple_at-beyond p i l = rw (le→ltb i (get_tuple_count p) l)

pub tuple_at-deleted :
    (p : Bytes) (i : ℕ) → is_deleted (get_tuple_size p i) ≡ true → tuple_at p i ≡ none
unfolding tuple_at
tuple_at-deleted p i e = ground (arith, e)

-- A tuple that is there has a size, and takes as many bytes.
pub not_deleted :
    (size : ℕ) → is_deleted size ≡ false → (size ≢ 0) × ((size < 2 ^ 31) × (size % 2 ^ 31 ≡ size))
not_deleted size e = ground arith

-- Two pages hold the same in a slot if its entries and its bytes agree.
pub tuple_at-cong :
    (p q : Bytes) (i : ℕ)
    → (get_tuple_count q ≤ i → get_tuple_count p ≤ i)
    → (i < get_tuple_count q → (i < get_tuple_count p) × (get_tuple_size q i ≡ get_tuple_size p i))
    → (i < get_tuple_count q
        → is_deleted (get_tuple_size p i) ≡ false
        → read_bytes q (get_tuple_offset q i) (get_tuple_size p i)
          ≡ read_bytes p (get_tuple_offset p i) (get_tuple_size p i))
    → tuple_at q i ≡ tuple_at p i
tuple_at-cong p q i out slot bytes = elim (Bool-cases (ltb i (get_tuple_count q))) [
  | inr e ↦
      let l = ltb→le i (get_tuple_count q) e in
      tuple_at-beyond q i l ∙ sym (tuple_at-beyond p i (out l))
  | inl e ↦
      let l = ltb→lt i (get_tuple_count q) e in
      let (k, s) = slot l in
      elim (Bool-cases (is_deleted (get_tuple_size p i))) [
        | inl d ↦ tuple_at-deleted q i (ap is_deleted s ∙ d) ∙ sym (tuple_at-deleted p i d)
        | inr d ↦
            tuple_at-there q i l (ap is_deleted s ∙ d)
            ∙ ap some (ap (λ n. read_bytes q (get_tuple_offset q i) n) s ∙ bytes l d)
            ∙ sym (tuple_at-there p i k d)
      ]
]

-- The bytes of a tuple that is there stand at its offset.
pub tuple_at-some :
    (p : Bytes) (i : ℕ) (bs : List ℕ)
    → tuple_at p i ≡ some bs
    → (i < get_tuple_count p)
      × ((is_deleted (get_tuple_size p i) ≡ false)
          × ((get_tuple_size p i ≡ length bs) × Holds p (get_tuple_offset p i) bs))
tuple_at-some p i bs h = elim (Bool-cases (ltb i (get_tuple_count p))) [
  | inr e ↦ absurd (none_some (sym (tuple_at-beyond p i (ltb→le i _ e)) ∙ h))
  | inl e ↦ elim (Bool-cases (is_deleted (get_tuple_size p i))) [
    | inl d ↦ absurd (none_some (sym (tuple_at-deleted p i d) ∙ h))
    | inr d ↦
        let l = ltb→lt i _ e in
        let same = some_injective (sym (tuple_at-there p i l d) ∙ h) in
        (
          l,
          (
            d,
            (
              sym (length-read_bytes p (get_tuple_offset p i) (get_tuple_size p i))
                  ∙ ap length same,
              subst (λ b. Holds p (get_tuple_offset p i) b) same
                  (Holds-read_bytes p (get_tuple_offset p i) (get_tuple_size p i)),
            ),
          ),
        )
  ]
]
  where
    none_some : {b : List ℕ} → none ≢ some b
    none_some e = cc

    some_injective : {a b : List ℕ} → some a ≡ some b → a ≡ b
    some_injective e = cc
