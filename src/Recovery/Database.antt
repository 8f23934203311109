-- ===== src/Recovery/Database.antt =====
-- What redoing and undoing one record do to the data.
use dis_minisql.Prelude.{
  ℕ, ◌≡◌, ◌⊎◌, inl, inr, refl, ap, ◌∙◌, subst, fun_ext, Bool, true, false, ◌||◌, Option, some, none,
  if◌then◌else◌, is_some, arith, Bool-cases, ==_self,
}
use dis_minisql.Recovery.{
  Keys, LogRecType, k_insert, k_delete, k_update, LogInfo, insert_info, delete_info, update_info,
  KvDatabase, set_key, emplace, undo_rec, redo_rec,
}

module _ (K : Keys) where
  open K use {Key, same}

  -- The data is what the record says that it was before the change.
  pub data Fits : LogRecType → LogInfo K → KvDatabase K → Type 0 where
    inserts :
        (key : Key) (val : ℕ) (data_ : KvDatabase K)
        → data_ key ≡ none
        → Fits k_insert (insert_info key val) data_
    deletes :
        (key : Key) (val : ℕ) (data_ : KvDatabase K)
        → data_ key ≡ some val
        → Fits k_delete (delete_info key val) data_
    updates :
        (old_key : Key) (old_val : ℕ) (new_key : Key) (new_val : ℕ) (data_ : KvDatabase K)
        → data_ old_key ≡ some old_val
        → (same old_key new_key ≡ true) ⊎ (data_ new_key ≡ none)
        → Fits k_update (update_info old_key old_val new_key new_val) data_

  -- The keys that a record names.
  abbrev pub names : LogInfo K → Key → Bool
  names (insert_info key val) k = same key k
  names (delete_info key val) k = same key k
  names (update_info old_key old_val new_key new_val) k = same old_key k || same new_key k
  names _ k = false

  -- The first database on the keys of a set, and the second on the others.
  abbrev pub mix : (Key → Bool) → KvDatabase K → KvDatabase K → KvDatabase K
  mix keys a b k = if keys k then a k else b k

  set_key_self :
      (data_ : KvDatabase K) (key : Key) (val : Option ℕ) → set_key K data_ key val key ≡ val
  set_key_self data_ key val = ground (arith, K.same_self key)

  restored :
      (data_ changed : KvDatabase K) (key : Key)
      → ((k : Key) → same key k ≡ false → changed k ≡ data_ k)
      → set_key K changed key (data_ key) ≡ data_
  restored data_ changed key h =
      fun_ext λ k. ground (arith, h k, K.same_lem key k, ap data_ {x = key} {y = k})

  emplace_absent :
      (data_ : KvDatabase K) (key : Key) (val : ℕ)
      → data_ key ≡ none
      → emplace K data_ key val ≡ set_key K data_ key (some val)
  emplace_absent data_ key val e = rw e

  redo_insert :
      (key : Key) (val : ℕ) (data_ : KvDatabase K)
      → data_ key ≡ none
      → redo_rec K k_insert (insert_info key val) data_ ≡ some (set_key K data_ key (some val))
  unfolding redo_rec
  redo_insert key val data_ e = rw e

  redo_delete :
      (key : Key) (val : ℕ) (data_ : KvDatabase K)
      → data_ key ≡ some val
      → redo_rec K k_delete (delete_info key val) data_ ≡ some (set_key K data_ key none)
  unfolding redo_rec
  redo_delete key val data_ e = rw (e, ==_self val)

  -- An update, when the entry of the new key is that of the old one or is missing.
  redo_update :
      (old_key : Key) (new_key : Key) (new_val : ℕ) (data_ : KvDatabase K)
      → (same old_key new_key ≡ true) ⊎ (data_ new_key ≡ none)
      → emplace K (set_key K data_ old_key none) new_key new_val
        ≡ set_key K (set_key K data_ old_key none) new_key (some new_val)
  redo_update old_key new_key new_val data_ (inl e) = rw e
  redo_update old_key new_key new_val data_ (inr e) = ground (arith, e)

  undo_update :
      (old_key : Key) (old_val : ℕ) (new_key : Key) (new_val : ℕ) (data_ : KvDatabase K)
      → data_ old_key ≡ some old_val
      → (same old_key new_key ≡ true) ⊎ (data_ new_key ≡ none)
      → emplace K
          (set_key K (set_key K (set_key K data_ old_key none) new_key (some new_val)) new_key none)
          old_key
          old_val
        ≡ data_
  undo_update old_key old_val new_key new_val data_ e apart =
      emplace_absent changed old_key old_val (ground (arith, K.same_self old_key))
      ∙ subst (λ old. set_key K changed old_key old ≡ data_) e
          (restored data_ changed old_key (kept apart))
    where
      changed : KvDatabase K
      changed =
          set_key K (set_key K (set_key K data_ old_key none) new_key (some new_val)) new_key none

      kept :
          (same old_key new_key ≡ true) ⊎ (data_ new_key ≡ none)
          → (k : Key) → same old_key k ≡ false
          → changed k ≡ data_ k
      kept (inl e) k n = ground (arith, n, ap (λ new. same new k) (K.same_lem old_key new_key e))
      kept (inr e) k n = ground (arith, n, e, K.same_lem new_key k, ap data_ {x = new_key} {y = k})

  -- A record of a change, redone on data that it fits, is undone to that data.
  pub undo_rec-redo_rec :
      (kind : LogRecType) (info : LogInfo K) (data_ : KvDatabase K)
      → Fits kind info data_
      → (redone : KvDatabase K) × (redo_rec K kind info data_ ≡ some redone)
        × (undo_rec K kind info redone ≡ some data_)
  unfolding undo_rec redo_rec
  undo_rec-redo_rec _ _ _ (inserts key val data_ e) = (
    set_key K data_ key (some val),
    redo_insert key val data_ e,
    ap some (
        subst (λ old. set_key K (set_key K data_ key (some val)) key old ≡ data_) e
          (restored data_ (set_key K data_ key (some val)) key λ k n. ground arith)),
  )
  undo_rec-redo_rec _ _ _ (deletes key val data_ e) = (
    set_key K data_ key none,
    redo_delete key val data_ e,
    ap some (
        emplace_absent (set_key K data_ key none) key val (set_key_self data_ key none)
        ∙ subst (λ old. set_key K (set_key K data_ key none) key old ≡ data_) e
            (restored data_ (set_key K data_ key none) key λ k n. ground arith)),
  )
  undo_rec-redo_rec _ _ _ (updates old_key old_val new_key new_val data_ e apart) = (
    _,
    ap some (redo_update old_key new_key new_val data_ apart),
    ap some (undo_update old_key old_val new_key new_val data_ e apart),
  )

  set_key-mix :
      (keys : Key → Bool) (a b : KvDatabase K) (key : Key) (val : Option ℕ)
      → keys key ≡ true
      → set_key K (mix keys a b) key val ≡ mix keys (set_key K a key val) b
  set_key-mix keys a b key val h =
      fun_ext λ k. ground (arith, h, K.same_lem key k, ap keys {x = key} {y = k})

  emplace-mix :
      (keys : Key → Bool) (a b : KvDatabase K) (key : Key) (val : ℕ)
      → keys key ≡ true
      → emplace K (mix keys a b) key val ≡ mix keys (emplace K a key val) b
  emplace-mix keys a b key val h = elim (Bool-cases (is_some (a key))) [
    | inl here ↦ rw (h, here)
    | inr gone ↦ rw (h, gone) (set_key-mix keys a b key (some val) h)
  ]

  -- Undoing a change looks at the keys that the record names, and changes no other.
  pub undo_rec-mix :
      (kind : LogRecType) (info : LogInfo K) (data_ : KvDatabase K)
      → Fits kind info data_
      → (keys : Key → Bool) (a b : KvDatabase K) → ((k : Key) → names info k ≡ true → keys k ≡ true)
      → (undone : KvDatabase K) × (undo_rec K kind info a ≡ some undone)
        × (undo_rec K kind info (mix keys a b) ≡ some (mix keys undone b))
  unfolding undo_rec
  undo_rec-mix _ _ _ (inserts key val data_ e) keys a b h = (
    set_key K a key none,
    refl,
    ap some (set_key-mix keys a b key none (h key (K.same_self key))),
  )
  undo_rec-mix _ _ _ (deletes key val data_ e) keys a b h =
      (emplace K a key val, refl, ap some (emplace-mix keys a b key val (h key (K.same_self key))))
  undo_rec-mix _ _ _ (updates old_key old_val new_key new_val data_ e apart) keys a b h =
      let new : keys new_key ≡ true = h new_key (ground (arith, K.same_self new_key)) in
      let old : keys old_key ≡ true = h old_key (ground (arith, K.same_self old_key)) in
      (
        emplace K (set_key K a new_key none) old_key old_val,
        refl,
        ap some (
            ap (λ d. emplace K d old_key old_val) (set_key-mix keys a b new_key none new)
            ∙ emplace-mix keys (set_key K a new_key none) b old_key old_val old),
      )
