-- ===== src/Recovery/TxnChain.antt =====
-- The records of one transaction in the log, chained by `prev_lsn_`.
use dis_minisql.Prelude.{
  ℕ, ◌+◌, ◌≡◌, ◌<◌, ◌≤◌, inl, inr, ◌∙◌, sym, ◌≢◌, subst, true, false, some, none, List, [], ◌∷◌,
  ◌==◌, arith, Bool-cases,
}
use dis_minisql.Recovery.{Keys, LogRec, is_begin, emplace_rec, find_rec}
use dis_minisql.Recovery.Undo.{Chain, start, link}
use dis_minisql.Recovery.Sorted.{Sorted, find_rec-emplace_rec}

module _ (K : Keys) where
  -- No record with a number from `lo` up to `hi` is of the transaction.
  abbrev pub NoneBetween : List (LogRec K) → ℕ → ℕ → ℕ → Type 0
  NoneBetween log txn_id lo hi =
      (k : ℕ) (y : LogRec K) → lo ≤ k → k < hi → find_rec K log k ≡ some y → y.txn_id ≢ txn_id

  -- All the records of a transaction from its last begin on, newest first, up to the one with number
  -- `lsn`: each names the one before it.
  pub data TxnChain (log : List (LogRec K)) (txn_id : ℕ) : ℕ → List (LogRec K) → Type 0 where
    begun :
        (lsn : ℕ) (r : LogRec K)
        → find_rec K log lsn ≡ some r
        → r.txn_id ≡ txn_id
        → is_begin r.kind ≡ true
        → TxnChain log txn_id lsn (r ∷ [])
    after :
        (lsn prev : ℕ) (r : LogRec K) (rs : List (LogRec K))
        → find_rec K log lsn ≡ some r
        → r.txn_id ≡ txn_id
        → is_begin r.kind ≡ false
        → r.prev_lsn ≡ some prev
        → prev < lsn
        → NoneBetween log txn_id (prev + 1) lsn
        → TxnChain log txn_id prev rs
        → TxnChain log txn_id lsn (r ∷ rs)

  -- Such a chain is one that `UndoTxn` follows.
  pub TxnChain-Chain :
      (log : List (LogRec K)) (txn_id lsn : ℕ) (rs : List (LogRec K))
      → TxnChain log txn_id lsn rs
      → (changes : List (LogRec K)) × Chain K log lsn changes
  TxnChain-Chain log txn_id _ _ (begun lsn r e t b) = ([], start lsn r e b)
  TxnChain-Chain log txn_id _ _ (after lsn prev r rs e t b p h n c) =
      let (changes, d) = TxnChain-Chain log txn_id prev rs c in
      (r ∷ changes, link lsn prev r changes e b p h d)

  module _ (log : List (LogRec K)) (r : LogRec K) (s : Sorted K log)
      (new : find_rec K log r.lsn ≡ none) where
    abbrev appended : List (LogRec K)
    appended = emplace_rec K log r

    -- A record that is not the new one was in the log before.
    old_rec :
        (l : ℕ) (y : LogRec K)
        → l < r.lsn
        → find_rec K appended l ≡ some y
        → find_rec K log l ≡ some y
    old_rec l y h e = sym (find_rec-emplace_rec K log r l s ∙ ground (arith, h)) ∙ e

    kept_rec : (l : ℕ) (x : LogRec K) → find_rec K log l ≡ some x → find_rec K appended l ≡ some x
    kept_rec l x e = find_rec-emplace_rec K log r l s ∙ ground (arith, e)

    pub NoneBetween-emplace_rec :
        (t lo hi : ℕ) → hi ≤ r.lsn → NoneBetween log t lo hi → NoneBetween appended t lo hi
    NoneBetween-emplace_rec t lo hi h n k y a b e = n k y a b (old_rec k y (omega (arith, h, b)) e)

    -- A chain stays when a record with a greater number is appended.
    pub TxnChain-emplace_rec :
        (t l : ℕ) (rs : List (LogRec K))
        → l < r.lsn
        → TxnChain log t l rs
        → TxnChain appended t l rs
    TxnChain-emplace_rec t _ _ h (begun l x e own b) = begun l x (kept_rec l x e) own b
    TxnChain-emplace_rec t _ _ h (after l prev x rs e own b p less n c) =
        after l prev x rs (kept_rec l x e) own b p less
          (NoneBetween-emplace_rec t (prev + 1) l (omega (arith, h)) n)
          (TxnChain-emplace_rec t prev rs (omega (arith, h, less)) c)

    -- The new record is of another transaction.
    pub NoneBetween-suc :
        (t lo : ℕ)
        → r.txn_id ≢ t
        → NoneBetween log t lo r.lsn
        → NoneBetween appended t lo (r.lsn + 1)
    NoneBetween-suc t lo other n k y a b e = elim (Bool-cases (r.lsn == k)) [
      | inl here ↦
          let same : r ≡ y = ground (arith, find_rec-emplace_rec K log r k s, here, e, new) in
          subst (λ x. x.txn_id ≢ t) same other
      | inr apart ↦
          let below : k < r.lsn = ground (arith, b, apart) in n k y a below (old_rec k y below e)
    ]
