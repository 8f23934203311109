-- ===== src/Recovery/Phases.antt =====
-- `RedoPhase` at the record of an abort.
use dis_minisql.Prelude.{ℕ, ◌≡◌, true, Option, some, none, List, update}
use dis_minisql.Recovery.{
  Keys, k_abort, LogRec, KvDatabase, RecoveryManager, undo_txn, redo_rec, aborted, unended_after,
  redo_step,
}
use dis_minisql.Recovery.Database.{mix}
use dis_minisql.Recovery.Undo.{Chain, AllFit, all_names, undo_txn-redo}

module _ (K : Keys) where
  open K use {Key}

  aborted_lem :
      (log : List (LogRec K)) (r : LogRec K) (lsn : ℕ) (now undone : KvDatabase K)
      → r.kind ≡ k_abort
      → r.prev_lsn ≡ some lsn
      → undo_txn K log (some lsn) now ≡ some undone
      → aborted K log r now ≡ some undone
  unfolding aborted
  aborted_lem log r lsn now undone a p e = rw (a, p) e

  unended_after_abort :
      (r : LogRec K) (unended : ℕ → Option ℕ)
      → r.kind ≡ k_abort
      → unended_after K r unended ≡ update unended r.txn_id none
  unfolding unended_after
  unended_after_abort r unended a = rw a

  redo_rec_abort :
      (r : LogRec K) (data_ : KvDatabase K)
      → r.kind ≡ k_abort
      → redo_rec K r.kind r.log_info data_ ≡ some data_
  unfolding redo_rec
  redo_rec_abort r data_ a = rw a

  -- Redoing the abort of a transaction restores every key that its records name, if the data has
  -- their result in those keys and they fit when they were redone, leaves every other key as it
  -- is, and ends the transaction.
  pub redo_step-abort :
      (m : RecoveryManager K) (r : LogRec K) (lsn : ℕ) (rs : List (LogRec K))
      (data_ after : KvDatabase K)
      → r.kind ≡ k_abort
      → r.prev_lsn ≡ some lsn
      → Chain K m.log_recs lsn rs
      → AllFit K data_ rs after
      → ((k : Key) → all_names K rs k ≡ true → m.data_ k ≡ after k)
      → redo_step K m r
        ≡ some (record m {
          unended_txn = update m.unended_txn r.txn_id none;
          data_ = mix K (all_names K rs) data_ m.data_;
        })
  unfolding redo_step
  redo_step-abort m r lsn rs data_ after a p c f agree =
      let undone = undo_txn-redo K m.log_recs lsn rs data_ after m.data_ c f agree in
      let restored = mix K (all_names K rs) data_ m.data_ in
      rw (
        redo_step,
        aborted_lem m.log_recs r lsn m.data_ restored a p undone,
        redo_rec_abort r restored a,
        unended_after_abort r m.unended_txn a,
      )
