-- ===== src/Wal/Records.antt =====
-- What one call of the write-ahead log does to the table.
use art_store.Common.{
  none, ok, ℕ, ◌≡◌, refl, ◌≢◌, true, [], ◌∷◌, ◌++◌, Option, some, arith, is_some, ◌==◌,
  if◌then◌else◌, inl, inr, Bool-cases, Option-cases, is_ok, false, String,
}
use art_store.Common.Json.{Json, Dict}
use art_store.Wal.{
  rollback, rolled_back, pending, committed, Transaction, Table, Clock, Session, select_tx,
  update_tx, with_result, completed, commit, start_transaction, OperationType, new_row,
}

module _ (id : ℕ) (new : Transaction) (same : new.transaction_id ≡ id) where
  pub select-update_self :
      (table : Table) (t : Transaction)
      → select_tx id table ≡ some t
      → select_tx id (update_tx id new table) ≡ some new
  select-update_self [] t e = cc
  select-update_self (x ∷ xs) t e = elim (Bool-cases (x.transaction_id == id)) [
    | inl here ↦ rw here (ground arith)
    | inr other ↦ rw other (ground (arith, select-update_self xs t))
  ]

  pub select-update_ne :
      (j : ℕ) (table : Table) → j ≢ id → select_tx j (update_tx id new table) ≡ select_tx j table
  select-update_ne j [] ne = refl
  select-update_ne j (x ∷ xs) ne = elim (Bool-cases (x.transaction_id == id)) [
    | inl here ↦ rw here (ground arith)
    | inr other ↦ rw other (ground (arith, select-update_ne j xs ne))
  ]

pub select-id :
    (id : ℕ) (table : Table) (t : Transaction) → select_tx id table ≡ some t → t.transaction_id ≡ id
select-id id [] t e = cc
select-id id (x ∷ xs) t e = ground (arith, select-id id xs t)

pub select-append :
    (id : ℕ) (table rest : Table)
    → select_tx id (table ++ rest)
      ≡ (if is_some (select_tx id table) then select_tx id table else select_tx id rest)
select-append id [] rest = refl
select-append id (x ∷ xs) rest = ground (arith, select-append id xs rest)

-- The row that `commit` writes.
abbrev pub committed_row : Clock → Option (Dict Json) → Transaction → Transaction
committed_row clock result t =
    let done = completed clock committed t in
    record done { operation_data = with_result result t.operation_data }

pub commit_writes :
    (db : Session) (clock : Clock) (id : ℕ) (result : Option (Dict Json)) (table : Table)
    (t : Transaction)
    → db.execute_ok ≡ true
    → db.commit_ok ≡ true
    → select_tx id table ≡ some t
    → t.status ≡ pending
    → commit db clock id result table ≡ (update_tx id (committed_row clock result t) table, ok tt)
unfolding commit
commit_writes db clock id result table t q c e p = ground arith

-- A commit of a pending transaction, with a database that answers, makes its row committed with
-- the clock's reading and the result under `result`, and leaves every other transaction as it was.
pub commit_pending :
    (db : Session) (clock : Clock) (id : ℕ) (result : Option (Dict Json)) (table : Table)
    (t : Transaction)
    → db.execute_ok ≡ true
    → db.commit_ok ≡ true
    → select_tx id table ≡ some t
    → t.status ≡ pending
    → ((commit db clock id result table).1 ≡ ok tt)
      × (select_tx id (commit db clock id result table).0 ≡ some (committed_row clock result t))
      × ((j : ℕ) → j ≢ id → select_tx j (commit db clock id result table).0 ≡ select_tx j table)
commit_pending db clock id result table t q c e p =
    rw (commit_writes db clock id result table t q c e p) (
      let same = select-id id table t e in
      let row = committed_row clock result t in
      (refl, select-update_self id row same table t e, λ j. select-update_ne id row same j table))

-- A commit that returns has left the transaction committed.
pub commit_returns :
    (db : Session) (clock : Clock) (id : ℕ) (result : Option (Dict Json)) (table : Table)
    → is_ok (commit db clock id result table).1 ≡ true
    → (t : Transaction) × (select_tx id (commit db clock id result table).0 ≡ some t)
      × (t.status ≡ committed)
unfolding commit
commit_returns db clock id result table h = elim (Option-cases (select_tx id table)) [
  | inl missing ↦ absurd (ground arith)
  | inr (t, found) ↦
      let done =
        commit_pending db clock id result table t (ground arith) (ground arith) found
          (ground arith) in
      (committed_row clock result t, done.1, refl)
]

-- A commit that raises has left the table as it was.
pub commit_raises :
    (db : Session) (clock : Clock) (id : ℕ) (result : Option (Dict Json)) (table : Table)
    → is_ok (commit db clock id result table).1 ≡ false
    → (commit db clock id result table).0 ≡ table
unfolding commit
commit_raises db clock id result table h = ground arith

-- A start that returns gives the new id, which no transaction had, to a new pending row.
pub start_returns :
    (db : Session) (clock : Clock) (id : ℕ) (op : OperationType) (d : Dict Json) (file : Option ℕ)
    (user : Option String) (table : Table) {tx : ℕ}
    → (start_transaction db clock id op d file user table).1 ≡ ok tx
    → (tx ≡ id)
      × (select_tx id table ≡ none)
      × ((start_transaction db clock id op d file user table).0
          ≡ table ++ new_row clock id op d file user ∷ [])
unfolding start_transaction
start_returns db clock id op d file user table h = ground arith

-- The row that `rollback` writes.
abbrev pub rolled_back_row : Clock → String → Transaction → Transaction
rolled_back_row clock message t =
    let done = completed clock rolled_back t in record done { error_message = some message }

-- A rollback of a pending transaction, with a database that answers, marks it rolled back with the
-- message.
pub rollback_pending :
    (db : Session) (clock : Clock) (id : ℕ) (message : String) (table : Table) (t : Transaction)
    → db.execute_ok ≡ true
    → db.commit_ok ≡ true
    → select_tx id table ≡ some t
    → t.status ≡ pending
    → select_tx id (rollback db clock id message table).0 ≡ some (rolled_back_row clock message t)
rollback_pending db clock id message table t q c e p =
    let written : (rollback db clock id message table).0
        ≡ update_tx id (rolled_back_row clock message t) table =
      unfold rollback in ground arith in
    rw written
      (select-update_self id (rolled_back_row clock message t) (select-id id table t e) table t e)

-- Where the session's commit raises, so does the commit of a transaction.
pub commit_refused :
    (db : Session) (clock : Clock) (id : ℕ) (result : Option (Dict Json)) (table : Table)
    → db.commit_ok ≡ false
    → is_ok (commit db clock id result table).1 ≡ false
unfolding commit
commit_refused db clock id result table h = ground arith

-- After a start that returns, the new transaction is in the table, pending.
pub start_pending :
    (db : Session) (clock : Clock) (id : ℕ) (op : OperationType) (d : Dict Json) (file : Option ℕ)
    (user : Option String) (table : Table) {tx : ℕ}
    → (start_transaction db clock id op d file user table).1 ≡ ok tx
    → select_tx id (start_transaction db clock id op d file user table).0
      ≡ some (new_row clock id op d file user)
start_pending db clock id op d file user table h =
    let (_, new, added) = start_returns db clock id op d file user table h in
    let row = new_row clock id op d file user in
    rw added (rw (select-append id table (row ∷ []), new) (ground arith))
