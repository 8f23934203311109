-- ===== src/Recovery/Tests.antt =====
-- Tests of the recovery manager, and its theorems on the log of
-- test/recovery/recovery_manager_test.cpp.
use dis_minisql.Prelude.{
  ℕ, ◌≡◌, refl, true, Option, some, none, List, [], ◌∷◌, arith, inl, ==→eq, ==_self, ◌==◌,
  if◌then◌else◌,
}
use dis_minisql.Recovery.{
  Keys, LogRecType, k_insert, k_delete, k_update, k_begin, k_commit, k_abort, LogInfo, insert_info,
  delete_info, update_info, begin_info, commit_info, abort_info, LogRec, Counters, create_log,
  KvDatabase, CheckPoint, add_active_txn, add_data, RecoveryManager, init, emplace_rec,
  append_log_rec, find_rec, undo_rec, undo_from, undo_txn, redo_rec, unended_after, aborted,
  redo_step, redo_from, records_after, redo_phase, undo_phase,
}
use dis_minisql.Recovery.Database.{deletes, updates, mix}
use dis_minisql.Recovery.Undo.{
  Chain, start, link, AllFit, no_change, change, all_names, undo_txn-redo,
}
use dis_minisql.Recovery.Records.{Logged, create_log-Logged}

program : Unit {0}
unfolding create_log add_active_txn add_data init emplace_rec append_log_rec find_rec undo_rec
    undo_from undo_txn redo_rec unended_after aborted redo_step redo_from records_after redo_phase
    undo_phase
program = tt

-- Numbers for the keys "A", "B", "C" and "D".
abbrev letters : Keys
letters = record { Key = ℕ; same = λ a b. a == b; same_self = ==_self; same_lem = ==→eq }

abbrev Log : Type 0
Log = List (LogRec letters)

-- The transactions and the records of the test, in its order.
abbrev requests : List (LogRecType × ℕ × LogInfo letters)
requests =
    (k_begin, 0, begin_info)
    ∷ (k_update, 0, update_info 0 2000 0 2050)
    ∷ (k_delete, 0, delete_info 1 1000)
    ∷ (k_begin, 1, begin_info)
    ∷ (k_insert, 1, insert_info 2 600)
    ∷ (k_commit, 1, commit_info)
    ∷ (k_update, 0, update_info 2 600 2 700)
    ∷ (k_abort, 0, abort_info)
    ∷ (k_begin, 2, begin_info)
    ∷ (k_insert, 2, insert_info 3 30000)
    ∷ (k_update, 2, update_info 2 600 2 800)
    ∷ []

abbrev no_counters : Counters letters
no_counters = record { prev_lsn_map = λ _. none; next_lsn = 0 }

create_all : Counters letters → List (LogRecType × ℕ × LogInfo letters) → Log
create_all c [] = []
create_all c ((kind, txn_id, log_info) ∷ rest) = elim (create_log letters c kind txn_id log_info) [
  | none ↦ []
  | some (r, c') ↦ r ∷ create_all c' rest
]

abbrev checkpoint : CheckPoint letters
checkpoint =
    add_data letters
      (add_active_txn letters
        (add_active_txn letters
          (record { checkpoint_lsn = some 3; active_txns = λ _. none; persist_data = λ _. none }) 0
          2)
        1 3)
      0 2050

append_all : RecoveryManager letters → Log → RecoveryManager letters
append_all m [] = m
append_all m (r ∷ rest) = append_all (append_log_rec letters m r) rest

abbrev new_manager : RecoveryManager letters
new_manager = record {
  log_recs = [];
  persist_lsn = none;
  active_txns = λ _. none;
  unended_txn = λ _. none;
  data_ = λ _. none;
}

abbrev values : Option (RecoveryManager letters) → List (Option ℕ)
values none = []
values (some m) = m.data_ 0 ∷ m.data_ 1 ∷ m.data_ 2 ∷ m.data_ 3 ∷ []

abbrev then_undo : Option (RecoveryManager letters) → Option (RecoveryManager letters)
then_undo none = none
then_undo (some m) = undo_phase letters (0 ∷ 1 ∷ 2 ∷ []) m

abbrev recovered : Option (RecoveryManager letters)
recovered =
    redo_phase letters
      (append_all (init letters new_manager checkpoint) (create_all no_counters requests))

redo_test : values recovered ≡ some 2000 ∷ some 1000 ∷ some 800 ∷ some 30000 ∷ []
unfolding program create_all append_all
redo_test = refl

undo_test : values (then_undo recovered) ≡ some 2000 ∷ some 1000 ∷ some 600 ∷ none ∷ []
unfolding program create_all append_all
undo_test = refl

-- Transaction 0 begins, updates a key and deletes another.
abbrev record_0 : LogRec letters
record_0 = record { kind = k_begin; lsn = 0; prev_lsn = none; txn_id = 0; log_info = begin_info }

abbrev record_1 : LogRec letters
record_1 = record {
  kind = k_update;
  lsn = 1;
  prev_lsn = some 0;
  txn_id = 0;
  log_info = update_info 0 2000 0 2050;
}

abbrev record_2 : LogRec letters
record_2 = record {
  kind = k_delete;
  lsn = 2;
  prev_lsn = some 1;
  txn_id = 0;
  log_info = delete_info 1 1000;
}

abbrev record_3 : LogRec letters
record_3 = record { kind = k_abort; lsn = 3; prev_lsn = some 2; txn_id = 0; log_info = abort_info }

abbrev small_log : Log
small_log = record_0 ∷ record_1 ∷ record_2 ∷ record_3 ∷ []

abbrev changes : Log
changes = record_2 ∷ record_1 ∷ []

small_chain : Chain letters small_log 2 changes
unfolding find_rec
small_chain =
    link 2 1 record_2 (record_1 ∷ []) refl refl refl (omega arith)
      (link 1 0 record_1 [] refl refl refl (omega arith) (start 0 record_0 refl refl))

abbrev old_data : KvDatabase letters
old_data k = if k == 0 then some 2000 else if k == 1 then some 1000 else none

abbrev updated : KvDatabase letters
updated k = if 0 == k then some 2050 else if 0 == k then none else old_data k

abbrev deleted : KvDatabase letters
deleted k = if 1 == k then none else updated k

-- What another transaction leaves beside it.
abbrev now : KvDatabase letters
now k = if k == 7 then some 5 else deleted k

small_fit : AllFit letters old_data changes deleted
unfolding redo_rec
small_fit =
    change record_2 (record_1 ∷ []) updated deleted
      (change record_1 [] old_data updated no_change
        (updates 0 2000 0 2050 old_data refl (inl refl)) refl)
      (deletes 1 1000 updated refl) refl

agree : (k : ℕ) → all_names letters changes k ≡ true → now k ≡ deleted k
agree k h = ground (arith, h)

undo_txn-redo_example :
    undo_txn letters small_log (some 2) now
    ≡ some (mix letters (all_names letters changes) old_data now)
undo_txn-redo_example =
    undo_txn-redo letters small_log 2 changes old_data deleted now small_chain small_fit agree

abbrev small_manager : RecoveryManager letters
small_manager = record new_manager { log_recs = small_log; data_ = now }

no_records : Logged letters no_counters []
unfolding find_rec
no_records = record {
  sorted = tt;
  fresh = λ l h. refl;
  chained = λ t l e. ground (arith, e);
  unknown = λ t e k y a b d. ground (arith, d);
}

create_log-Logged_example :
    (r : LogRec letters) × (c' : Counters letters) × (create_log letters no_counters k_begin 0
        begin_info
      ≡ some (r, c'))
    × Logged letters c' (emplace_rec letters [] r)
    × (find_rec letters (emplace_rec letters [] r) 0 ≡ some r)
    × (c'.prev_lsn_map 0 ≡ some 0)
create_log-Logged_example =
    create_log-Logged letters no_counters [] k_begin 0 begin_info no_records (inl refl)
      (omega arith)
