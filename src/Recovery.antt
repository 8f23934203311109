-- ===== src/Recovery.antt =====
-- include/recovery/log_info.h, log_rec.h and recovery_manager.h: log records and the recovery of a
-- key-value database from a checkpoint and a log. INVALID_LSN is `none`, and a value is the 32 bits
-- of an `int32_t`. In a result `none` is the exit of the process or undefined behaviour, the null
-- pointer of a missing record included.
pub mod Database
pub mod Undo
pub mod Sorted
pub mod TxnChain
pub mod Records
pub mod Phases
pub mod Tests
use dis_minisql.Prelude.{
  ℕ, zero, suc, ◌+◌, ◌-◌, ◌^◌, ◌≡◌, Bool, true, false, not, Option, some, none, List, [], ◌∷◌, ltb,
  ◌==◌, if◌then◌else◌, update, is_some, length,
}

-- `std::string` as the keys use it: its test for equality.
pub record Keys : Type 1 where
  pub Key : Type 0
  pub same : Key → Key → Bool
  pub same_self : (k : Key) → same k k ≡ true
  pub same_lem : (k l : Key) → same k l ≡ true → k ≡ l

pub data LogRecType : Type 0 where
  k_invalid k_insert k_delete k_update k_begin k_commit k_abort : LogRecType

-- The `operator[]` of a map, which is 0 for a key that is not there.
abbrev pub or_zero : Option ℕ → ℕ
or_zero none = 0
or_zero (some lsn) = lsn

abbrev pub is_begin : LogRecType → Bool
is_begin k_begin = true
is_begin _ = false

module _ (K : Keys) where
  open K use {Key, same}

  -- The classes of log_info.h, less the transaction.
  pub data LogInfo : Type 0 where
    insert_info : (ins_key : Key) (ins_val : ℕ) → LogInfo
    delete_info : (del_key : Key) (del_val : ℕ) → LogInfo
    update_info : (old_key : Key) (old_val : ℕ) (new_key : Key) (new_val : ℕ) → LogInfo
    begin_info commit_info abort_info : LogInfo

  pub record LogRec : Type 0 where
    pub kind : LogRecType
    pub lsn : ℕ
    pub prev_lsn : Option ℕ
    pub txn_id : ℕ
    pub log_info : LogInfo

  -- The static members of `LogRec`.
  pub record Counters : Type 0 where
    pub prev_lsn_map : ℕ → Option ℕ
    pub next_lsn : ℕ

  -- The constructor of `LogRec`, and the functions `Create...Log`.
  pub create_log : Counters → LogRecType → ℕ → LogInfo → Option (LogRec × Counters)
  create_log c kind txn_id log_info =
      if not (ltb (c.next_lsn + 1) (2 ^ 31))
      then none
      else some (
        record {
          kind = kind;
          lsn = c.next_lsn;
          prev_lsn = if is_begin kind then none else some (or_zero (c.prev_lsn_map txn_id));
          txn_id = txn_id;
          log_info = log_info;
        },
        record {
          prev_lsn_map = update c.prev_lsn_map txn_id (some c.next_lsn);
          next_lsn = c.next_lsn + 1;
        },
      )

  abbrev pub KvDatabase : Type 0
  KvDatabase = Key → Option ℕ

  abbrev pub set_key : KvDatabase → Key → Option ℕ → KvDatabase
  set_key data_ key val k = if same key k then val else data_ k

  -- `emplace`, which keeps an entry that is there.
  abbrev pub emplace : KvDatabase → Key → ℕ → KvDatabase
  emplace data_ key val = if is_some (data_ key) then data_ else set_key data_ key (some val)

  -- `data_[key]`, which makes an entry of 0 for a missing key.
  abbrev pub entered : KvDatabase → Key → KvDatabase
  entered data_ key = emplace data_ key 0

  pub record CheckPoint : Type 0 where
    pub checkpoint_lsn : Option ℕ
    pub active_txns : ℕ → Option ℕ
    pub persist_data : KvDatabase

  pub add_active_txn : CheckPoint → ℕ → ℕ → CheckPoint
  add_active_txn c txn_id last_lsn = record c {
    active_txns = update c.active_txns txn_id (some last_lsn);
  }

  pub add_data : CheckPoint → Key → ℕ → CheckPoint
  add_data c key val = record c { persist_data = emplace c.persist_data key val }

  pub record RecoveryManager : Type 0 where
    pub log_recs : List LogRec
    pub persist_lsn : Option ℕ
    pub active_txns : ℕ → Option ℕ
    pub unended_txn : ℕ → Option ℕ
    pub data_ : KvDatabase

  pub init : RecoveryManager → CheckPoint → RecoveryManager
  init m last_checkpoint = record m {
    persist_lsn = last_checkpoint.checkpoint_lsn;
    active_txns = last_checkpoint.active_txns;
    data_ = last_checkpoint.persist_data;
  }

  -- The map of records in the order of their numbers.
  pub emplace_rec : List LogRec → LogRec → List LogRec
  emplace_rec [] r = r ∷ []
  emplace_rec (x ∷ xs) r =
      let rest = emplace_rec xs r in
      if r.lsn == x.lsn then x ∷ xs else if ltb r.lsn x.lsn then r ∷ x ∷ xs else x ∷ rest

  pub append_log_rec : RecoveryManager → LogRec → RecoveryManager
  append_log_rec m r = record m { log_recs = emplace_rec m.log_recs r }

  pub find_rec : List LogRec → ℕ → Option LogRec
  find_rec [] lsn = none
  find_rec (r ∷ rest) lsn = let later = find_rec rest lsn in if r.lsn == lsn then some r else later

  -- One turn of the loop of `UndoTxn`: what it does to the data.
  pub undo_rec : LogRecType → LogInfo → KvDatabase → Option KvDatabase
  undo_rec k_update (update_info old_key old_val new_key new_val) data_ =
      some (emplace (set_key data_ new_key none) old_key old_val)
  undo_rec k_delete (delete_info del_key del_val) data_ = some (emplace data_ del_key del_val)
  undo_rec k_insert (insert_info ins_key ins_val) data_ = some (set_key data_ ins_key none)
  undo_rec k_update _ _ = none
  undo_rec k_delete _ _ = none
  undo_rec k_insert _ _ = none
  undo_rec _ _ data_ = some data_

  -- `UndoTxn`, from the record that is found; each turn but the last follows `prev_lsn_`.
  pub undo_from : ℕ → List LogRec → Option LogRec → KvDatabase → Option KvDatabase
  undo_from zero log _ _ = none
  undo_from (suc fuel) log none data_ = none
  undo_from (suc fuel) log (some r) data_ =
      if is_begin r.kind then some data_ else elim (undo_rec r.kind r.log_info data_) [
        | none ↦ none
        | some undone ↦ elim r.prev_lsn [
          | none ↦ none
          | some prev ↦ undo_from fuel log (find_rec log prev) undone
        ]
      ]

  pub undo_txn : List LogRec → Option ℕ → KvDatabase → Option KvDatabase
  undo_txn log none data_ = none
  undo_txn log (some last_lsn) data_ = undo_from (length log) log (find_rec log last_lsn) data_

  -- What a turn of `RedoPhase` does to the data, `kAbort` aside.
  pub redo_rec : LogRecType → LogInfo → KvDatabase → Option KvDatabase
  redo_rec k_update (update_info old_key old_val new_key new_val) data_ =
      some (emplace (set_key data_ old_key none) new_key new_val)
  redo_rec k_delete (delete_info del_key del_val) data_ =
      if or_zero (data_ del_key) == del_val
      then some (set_key data_ del_key none)
      else some (entered data_ del_key)
  redo_rec k_insert (insert_info ins_key ins_val) data_ =
      if is_some (data_ ins_key) then none else some (set_key data_ ins_key (some ins_val))
  redo_rec k_update _ _ = none
  redo_rec k_delete _ _ = none
  redo_rec k_insert _ _ = none
  redo_rec k_invalid _ _ = none
  redo_rec _ _ data_ = some data_

  -- The transactions that have not ended, after a record.
  pub unended_after : LogRec → (ℕ → Option ℕ) → ℕ → Option ℕ
  unended_after r unended = elim r.kind [
    | k_commit ↦ update unended r.txn_id none
    | k_abort ↦ update unended r.txn_id none
    | _ ↦ update unended r.txn_id (some r.lsn)
  ]

  -- The data that the redoing of a record starts from: `kAbort` undoes the transaction.
  pub aborted : List LogRec → LogRec → KvDatabase → Option KvDatabase
  aborted log r data_ = elim r.kind [ k_abort ↦ undo_txn log r.prev_lsn data_ | _ ↦ some data_ ]

  pub redo_step : RecoveryManager → LogRec → Option RecoveryManager
  redo_step m r = elim (aborted m.log_recs r m.data_) [
    | none ↦ none
    | some data_ ↦ elim (redo_rec r.kind r.log_info data_) [
      | none ↦ none
      | some redone ↦
          some (record m { unended_txn = unended_after r m.unended_txn; data_ = redone })
    ]
  ]

  pub redo_from : RecoveryManager → List LogRec → Option RecoveryManager
  redo_from m [] = some m
  redo_from m (r ∷ rest) = elim (redo_step m r) [ none ↦ none | some m' ↦ redo_from m' rest ]

  -- The records behind the one that is found.
  pub records_after : List LogRec → ℕ → Option (List LogRec)
  records_after [] lsn = none
  records_after (r ∷ rest) lsn =
      let later = records_after rest lsn in if r.lsn == lsn then some rest else later

  abbrev pub after_checkpoint : List LogRec → Option ℕ → Option (List LogRec)
  after_checkpoint log none = none
  after_checkpoint log (some lsn) = records_after log lsn

  pub redo_phase : RecoveryManager → Option RecoveryManager
  redo_phase m = elim (after_checkpoint m.log_recs m.persist_lsn) [
    | none ↦ none
    | some rest ↦ redo_from (record m { unended_txn = m.active_txns }) rest
  ]

  -- `UndoPhase`, over the transactions in the order in which the map lists them.
  pub undo_phase : List ℕ → RecoveryManager → Option RecoveryManager
  undo_phase [] m = some m
  undo_phase (txn_id ∷ rest) m = elim (m.unended_txn txn_id) [
    | none ↦ undo_phase rest m
    | some last_lsn ↦ elim (undo_txn m.log_recs (some last_lsn) m.data_) [
      | none ↦ none
      | some data_ ↦ undo_phase rest (record m { data_ = data_ })
    ]
  ]
