-- ===== src/Recovery/Undo.antt =====
-- `UndoTxn` on the chain of a transaction's records.
use dis_minisql.Prelude.{
  ℕ, zero, suc, ◌+◌, ◌≡◌, ◌<◌, ◌≤◌, inl, inr, refl, sym, ap, ◌∙◌, subst, fun_ext, Bool, true, false,
  ◌||◌, Option, some, none, List, [], ◌∷◌, leb, if◌then◌else◌, length, arith, Option-cases,
}
use dis_minisql.Recovery.{
  Keys, LogRec, KvDatabase, is_begin, find_rec, undo_rec, redo_rec, undo_from, undo_txn,
}
use dis_minisql.Recovery.Database.{Fits, names, mix, undo_rec-redo_rec, undo_rec-mix}

module _ (K : Keys) where
  open K use {Key, same}

  -- The records of the changes of a transaction, newest first, from the one with number `lsn` to
  -- its begin.
  pub data Chain (log : List (LogRec K)) : ℕ → List (LogRec K) → Type 0 where
    start :
        (lsn : ℕ) (r : LogRec K)
        → find_rec K log lsn ≡ some r
        → is_begin r.kind ≡ true
        → Chain log lsn []
    link :
        (lsn prev : ℕ) (r : LogRec K) (rs : List (LogRec K))
        → find_rec K log lsn ≡ some r
        → is_begin r.kind ≡ false
        → r.prev_lsn ≡ some prev
        → prev < lsn
        → Chain log prev rs
        → Chain log lsn (r ∷ rs)

  -- The changes of the records undone one after the other, and redone in the order of the log.
  pub undo_all : List (LogRec K) → KvDatabase K → Option (KvDatabase K)
  undo_all [] data_ = some data_
  undo_all (r ∷ rs) data_ = elim (undo_rec K r.kind r.log_info data_) [
    | none ↦ none
    | some undone ↦ undo_all rs undone
  ]

  pub redo_all : List (LogRec K) → KvDatabase K → Option (KvDatabase K)
  redo_all [] data_ = some data_
  redo_all (r ∷ rs) data_ = elim (redo_all rs data_) [
    | none ↦ none
    | some redone ↦ redo_rec K r.kind r.log_info redone
  ]

  -- The records with numbers up to a bound.
  upto : List (LogRec K) → ℕ → ℕ
  upto [] lsn = 0
  upto (r ∷ rest) lsn = (if leb r.lsn lsn then 1 else 0) + upto rest lsn

  upto-le : (log : List (LogRec K)) (lsn : ℕ) → upto log lsn ≤ length log
  unfolding upto
  upto-le [] lsn = omega arith
  upto-le (r ∷ rest) lsn = ground (arith, upto-le rest lsn)

  upto_mono : (log : List (LogRec K)) (p l : ℕ) → p ≤ l → upto log p ≤ upto log l
  unfolding upto
  upto_mono [] p l h = omega arith
  upto_mono (r ∷ rest) p l h = ground (arith, upto_mono rest p l h)

  upto-less :
      (log : List (LogRec K)) (p l : ℕ) (r : LogRec K)
      → find_rec K log l ≡ some r
      → p < l
      → upto log p < upto log l
  unfolding upto find_rec
  upto-less [] p l r e h = cc
  upto-less (x ∷ rest) p l r e h =
      ground (arith, upto-less rest p l r, upto_mono rest p l (omega arith))

  upto-some :
      (log : List (LogRec K)) (l : ℕ) (r : LogRec K) → find_rec K log l ≡ some r → 0 < upto log l
  unfolding upto find_rec
  upto-some [] l r e = cc
  upto-some (x ∷ rest) l r e = ground (arith, upto-some rest l r)

  Chain-upto :
      (log : List (LogRec K)) (lsn : ℕ) (rs : List (LogRec K)) → Chain log lsn rs → 0 < upto log lsn
  Chain-upto log _ _ (start lsn r e b) = upto-some log lsn r e
  Chain-upto log _ _ (link lsn prev r rs e b p l c) = upto-some log lsn r e

  undo_from-Chain :
      (log : List (LogRec K)) (fuel lsn : ℕ) (rs : List (LogRec K)) (data_ : KvDatabase K)
      → Chain log lsn rs
      → upto log lsn ≤ fuel
      → undo_from K fuel log (find_rec K log lsn) data_ ≡ undo_all rs data_
  unfolding undo_from undo_all
  undo_from-Chain log zero lsn rs data_ c h = absurd (ground (arith, Chain-upto log lsn rs c))
  undo_from-Chain log (suc fuel) _ _ data_ (start lsn r e b) h = rw (e, undo_from, b)
  undo_from-Chain log (suc fuel) _ _ data_ (link lsn prev r rs e b p l c) h =
      elim (Option-cases (undo_rec K r.kind r.log_info data_)) [
        | inl stuck ↦ rw (e, undo_from, b, undo_all, stuck)
        | inr (undone, done) ↦
            rw (e, undo_from, b, undo_all, done, p)
              (undo_from-Chain log fuel prev rs undone c
                (omega (arith, upto-less log prev lsn r e l)))
      ]

  -- `UndoTxn` undoes the changes of the chain, newest first, and ends at its begin.
  pub undo_txn-Chain :
      (log : List (LogRec K)) (lsn : ℕ) (rs : List (LogRec K)) (data_ : KvDatabase K)
      → Chain log lsn rs
      → undo_txn K log (some lsn) data_ ≡ undo_all rs data_
  unfolding undo_txn
  undo_txn-Chain log lsn rs data_ c =
      undo_from-Chain log (length log) lsn rs data_ c (upto-le log lsn)

  -- Every record fits the data that the older ones leave.
  pub data AllFit (data_ : KvDatabase K) : List (LogRec K) → KvDatabase K → Type 0 where
    no_change : AllFit data_ [] data_
    change :
        (r : LogRec K) (rs : List (LogRec K)) (before after : KvDatabase K)
        → AllFit data_ rs before
        → Fits K r.kind r.log_info before
        → redo_rec K r.kind r.log_info before ≡ some after
        → AllFit data_ (r ∷ rs) after

  -- The keys that some record of a list names.
  abbrev pub all_names : List (LogRec K) → Key → Bool
  all_names [] k = false
  all_names (r ∷ rs) k = names K r.log_info k || all_names rs k

  some-injective : (a b : KvDatabase K) → some a ≡ some b → a ≡ b
  some-injective a b e = ap (λ o. elim o [ none ↦ a | some x ↦ x ]) e

  undo_rec-after :
      (r : LogRec K) (before after : KvDatabase K)
      → Fits K r.kind r.log_info before
      → redo_rec K r.kind r.log_info before ≡ some after
      → undo_rec K r.kind r.log_info after ≡ some before
  undo_rec-after r before after fits redone =
      let (redone', e, undone) = undo_rec-redo_rec K r.kind r.log_info before fits in
      subst (λ d. undo_rec K r.kind r.log_info d ≡ some before)
        (some-injective redone' after (sym e ∙ redone)) undone

  undo_all-mix :
      (data_ after : KvDatabase K) (rs : List (LogRec K))
      → AllFit data_ rs after
      → (keys : Key → Bool) (other : KvDatabase K)
      → ((k : Key) → all_names rs k ≡ true → keys k ≡ true)
      → undo_all rs (mix K keys after other) ≡ some (mix K keys data_ other)
  unfolding undo_all
  undo_all-mix data_ _ _ no_change keys other h = refl
  undo_all-mix data_ _ _ (change r rs before after f fits redone) keys other h =
      let (undone, e, mixed) =
        undo_rec-mix K r.kind r.log_info before fits keys after other
          λ k n. h k (ground (arith, n)) in
      let same : undone ≡ before =
        some-injective undone before (sym e ∙ undo_rec-after r before after fits redone) in
      rw (undo_all, mixed, same)
        (undo_all-mix data_ before rs f keys other λ k n. h k (ground (arith, n)))

  -- `UndoTxn` restores the keys that a transaction changed, and leaves every other key as it is:
  -- if `rs` is the chain of the records of the transaction, they were redone one after the other
  -- on `data_`, and the data now has their result in the keys that they name, whatever else other
  -- transactions changed, then undoing ends with the old value in those keys.
  pub undo_txn-redo :
      (log : List (LogRec K)) (lsn : ℕ) (rs : List (LogRec K)) (data_ after now : KvDatabase K)
      → Chain log lsn rs
      → AllFit data_ rs after
      → ((k : Key) → all_names rs k ≡ true → now k ≡ after k)
      → undo_txn K log (some lsn) now ≡ some (mix K (all_names rs) data_ now)
  undo_txn-redo log lsn rs data_ after now c f agree =
      undo_txn-Chain log lsn rs now c
      ∙ subst (λ d. undo_all rs d ≡ some (mix K (all_names rs) data_ now)) (sym now_mix)
          (undo_all-mix data_ after rs f (all_names rs) now λ k n. n)
    where
      now_mix : now ≡ mix K (all_names rs) after now
      now_mix = fun_ext λ k. ground (arith, agree k)
