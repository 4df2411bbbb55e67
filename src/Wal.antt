-- ===== src/Wal.antt =====
-- storage-element/app/services/wal_service.py and app/models/wal.py: the write-ahead log of a
-- storage element, over the table of its transactions. A datetime is a number of microseconds.
pub mod Effects
pub mod Lifecycle
pub mod Records
use art_store.Common.{
  ℕ, String, Bool, true, false, not, ◌&&◌, List, [], ◌∷◌, ◌++◌, Option, none, some, is_some, ◌==◌,
  if◌then◌else◌, find_first, Result, ok, raise,
}
use art_store.Common.Int.{ℤ}
use art_store.Common.Json.{Json, object, Dict, put, to_fields}

-- `WALOperationType`
pub data OperationType : Type 0 where
  file_create file_update file_delete file_finalize cache_rebuild mode_change : OperationType

-- `WALStatus`
pub data Status : Type 0 where
  pending committed rolled_back failed : Status

abbrev pub is_pending : Status → Bool
is_pending pending = true
is_pending _ = false

-- `WALTransaction`; the ids are UUIDs, read as the numbers that they are.
pub record Transaction : Type 0 where
  pub transaction_id : ℕ
  pub operation_type : OperationType
  pub status : Status
  pub file_id : Option ℕ
  pub operation_data : Dict Json
  pub error_message : Option String
  pub started_at : ℕ
  pub completed_at : Option ℕ
  pub duration_ms : Option ℤ
  pub user_id : Option String

abbrev pub Table : Type 0
Table = List Transaction

-- The clock at a call: its reading, and `int((completed - started).total_seconds() * 1000)`, which
-- is float arithmetic and stays a function.
pub record Clock : Type 0 where
  pub now : ℕ
  pub elapsed_ms : ℕ → ℕ → ℤ

-- Whether the calls of the database session return (true) or raise (false).
pub record Session : Type 0 where
  pub execute_ok : Bool
  pub commit_ok : Bool
  pub refresh_ok : Bool

pub data WalError : Type 0 where
  start_failed : OperationType → WalError
  tx_not_found : ℕ → WalError
  tx_already_completed : ℕ → Status → WalError
  commit_failed : ℕ → WalError
  rollback_failed : ℕ → WalError
  mark_failed_error : ℕ → WalError

-- `select(WALTransaction).where(transaction_id == id)` and `scalar_one_or_none`, on the primary key.
abbrev pub select_tx : ℕ → Table → Option Transaction
select_tx id = find_first (λ t. t.transaction_id == id)

-- The flush of a row that the session has changed.
abbrev pub update_tx : ℕ → Transaction → Table → Table
update_tx id new [] = []
update_tx id new (t ∷ ts) = if t.transaction_id == id then new ∷ ts else t ∷ update_tx id new ts

-- The `WALTransaction(...)` of `start_transaction`.
abbrev pub new_row : Clock → ℕ → OperationType → Dict Json → Option ℕ → Option String → Transaction
new_row clock id operation_type operation_data file_id user_id = record {
  transaction_id = id;
  operation_type = operation_type;
  status = pending;
  file_id = file_id;
  operation_data = operation_data;
  error_message = none;
  started_at = clock.now;
  completed_at = none;
  duration_ms = none;
  user_id = user_id;
}

-- `start_transaction`, with the new UUID as `id`. A UUID in use violates the primary key, so the
-- commit raises.
unfoldable pub start_transaction :
    Session
    → Clock
    → ℕ
    → OperationType
    → Dict Json
    → Option ℕ
    → Option String
    → Table
    → Table × Result WalError ℕ
start_transaction db clock id operation_type operation_data file_id user_id table =
    let added = table ++ new_row clock id operation_type operation_data file_id user_id ∷ [] in
    if not (db.commit_ok && not (is_some (select_tx id table)))
    then (table, raise (start_failed operation_type))
    else if not db.refresh_ok
    then (added, raise (start_failed operation_type))
    else (added, ok id)

-- `if result_data:` holds of a dictionary with entries.
abbrev pub with_result : Option (Dict Json) → Dict Json → Dict Json
with_result none d = d
with_result (some []) d = d
with_result (some (e ∷ r)) d = put "result" (object (to_fields (e ∷ r))) d

-- The columns that every way of completing a transaction sets.
abbrev pub completed : Clock → Status → Transaction → Transaction
completed clock s t = record t {
  status = s;
  completed_at = some clock.now;
  duration_ms = some (clock.elapsed_ms t.started_at clock.now);
}

-- The last step of a call: the session's commit writes the row, or raises and writes nothing.
abbrev flush : Session → ℕ → Transaction → WalError → Table → Table × Result WalError (Unit {0})
flush db id new e table = if db.commit_ok then (update_tx id new table, ok tt) else (table, raise e)

-- `commit`
unfoldable pub commit :
    Session → Clock → ℕ → Option (Dict Json) → Table → Table × Result WalError (Unit {0})
commit db clock id result_data table =
    if not db.execute_ok then (table, raise (commit_failed id)) else elim (select_tx id table) [
      | none ↦ (table, raise (tx_not_found id))
      | some t ↦
          if not (is_pending t.status)
          then (table, raise (tx_already_completed id t.status))
          else let done = completed clock committed t in
            flush db id (record done { operation_data = with_result result_data t.operation_data })
              (commit_failed id) table
    ]

-- `rollback`
unfoldable pub rollback : Session → Clock → ℕ → String → Table → Table × Result WalError (Unit {0})
rollback db clock id message table =
    if not db.execute_ok then (table, raise (rollback_failed id)) else elim (select_tx id table) [
      | none ↦ (table, raise (tx_not_found id))
      | some t ↦
          if not (is_pending t.status)
          then (table, raise (tx_already_completed id t.status))
          else let done = completed clock rolled_back t in
            flush db id (record done { error_message = some message }) (rollback_failed id) table
    ]

-- `mark_failed`: it does not look at the status.
unfoldable pub mark_failed :
    Session → Clock → ℕ → String → Table → Table × Result WalError (Unit {0})
mark_failed db clock id message table =
    if not db.execute_ok then (table, raise (mark_failed_error id)) else elim (select_tx id table) [
      | none ↦ (table, raise (tx_not_found id))
      | some t ↦
          let done = completed clock failed t in
          flush db id (record done { error_message = some message }) (mark_failed_error id) table
    ]

-- `get_transaction`: an exception of the query is logged, and read as no transaction.
unfoldable pub get_transaction : Session → ℕ → Table → Option Transaction
get_transaction db id table = if db.execute_ok then select_tx id table else none
