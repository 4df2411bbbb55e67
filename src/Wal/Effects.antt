-- ===== src/Wal/Effects.antt =====
-- What each call of the write-ahead log may do to the table, and the record invariant.
use art_store.Common.{
  ℕ, ◌≡◌, refl, Bool, true, false, String, [], ◌∷◌, ◌++◌, Option, none, some, arith, is_some, ◌==◌,
  inl, inr, ◌⊎◌, Bool-cases, Option-cases, All, ◌↔◌, ◌&&◌, not,
}
use art_store.Common.Json.{Json, Dict}
use art_store.Wal.{
  pending, rolled_back, failed, is_pending, Transaction, Table, Clock, Session, select_tx,
  update_tx, completed, commit, rollback, mark_failed, start_transaction, OperationType, new_row,
}
use art_store.Wal.Records.{committed_row}

-- A transaction is pending exactly as long as it has no time of completion, and it carries an error
-- message exactly if it was rolled back or failed.
pub record IsConsistent (t : Transaction) : Type 0 where
  pub open_until : (t.status ≡ pending) ↔ (t.completed_at ≡ none)
  pub timed : is_some t.duration_ms ≡ is_some t.completed_at
  pub explained :
      (is_some t.error_message ≡ true) ↔ ((t.status ≡ rolled_back) ⊎ (t.status ≡ failed))

All-update :
    (id : ℕ) (new : Transaction) (table : Table)
    → IsConsistent new
    → All IsConsistent table
    → All IsConsistent (update_tx id new table)
All-update id new [] h hs = tt
All-update id new (x ∷ xs) h hs = elim (Bool-cases (x.transaction_id == id)) [
  | inl here ↦ rw here (h, hs.1)
  | inr other ↦ rw other (hs.0, All-update id new xs h hs.1)
]

-- What a call that completes transaction `id` may do: nothing, or put a row in place of the old
-- one. `guarded` says that the old row must have been pending.
abbrev pub Completes : ℕ → Bool → Table → Table → Type 0
Completes id guarded table u =
    (u ≡ table)
    ⊎ ((old : Transaction) × (new : Transaction) × (select_tx id table ≡ some old)
        × (guarded ≡ true → old.status ≡ pending)
        × (new.transaction_id ≡ old.transaction_id)
        × (is_pending new.status ≡ false)
        × IsConsistent new
        × (u ≡ update_tx id new table))

select-IsConsistent :
    (id : ℕ) (table : Table) (t : Transaction)
    → All IsConsistent table
    → select_tx id table ≡ some t
    → IsConsistent t
select-IsConsistent id [] t hs e = cc
select-IsConsistent id (x ∷ xs) t hs e = elim (Bool-cases (x.transaction_id == id)) [
  | inl here ↦ let same : x ≡ t = ground arith in rw same at (hs.0)
  | inr other ↦ select-IsConsistent id xs t hs.1 (ground arith)
]

committed-IsConsistent :
    (clock : Clock) (r : Option (Dict Json)) (t : Transaction)
    → t.status ≡ pending
    → IsConsistent t
    → IsConsistent (committed_row clock r t)
committed-IsConsistent clock r t p h = grind arith

rolled_back-IsConsistent :
    (clock : Clock) (m : String) (t : Transaction)
    → IsConsistent
        (let done = completed clock rolled_back t in record done { error_message = some m })
rolled_back-IsConsistent clock m t = ground arith

failed-IsConsistent :
    (clock : Clock) (m : String) (t : Transaction)
    → IsConsistent (let done = completed clock failed t in record done { error_message = some m })
failed-IsConsistent clock m t = ground arith

module _ (db : Session) (clock : Clock) (id : ℕ) (table : Table) where
  pub commit-Completes :
      (r : Option (Dict Json))
      → All IsConsistent table
      → Completes id true table (commit db clock id r table).0
  unfolding commit
  commit-Completes r hs = elim (Option-cases (select_tx id table)) [
    | inl missing ↦ inl (ground arith)
    | inr (t, found) ↦ elim (Bool-cases (db.execute_ok && is_pending t.status && db.commit_ok)) [
      | inl go ↦ inr (
        t,
        committed_row clock r t,
        found,
        ground arith,
        refl,
        refl,
        committed-IsConsistent clock r t (ground arith) (select-IsConsistent id table t hs found),
        ground arith,
      )
      | inr stop ↦ inl (ground arith)
    ]
  ]

  pub rollback-Completes : (m : String) → Completes id true table (rollback db clock id m table).0
  unfolding rollback
  rollback-Completes m = elim (Option-cases (select_tx id table)) [
    | inl missing ↦ inl (ground arith)
    | inr (t, found) ↦ elim (Bool-cases (db.execute_ok && is_pending t.status && db.commit_ok)) [
      | inl go ↦ inr (
        t,
        (let done = completed clock rolled_back t in record done { error_message = some m }),
        found,
        ground arith,
        refl,
        refl,
        rolled_back-IsConsistent clock m t,
        ground arith,
      )
      | inr stop ↦ inl (ground arith)
    ]
  ]

  pub mark_failed-Completes :
      (m : String) → Completes id false table (mark_failed db clock id m table).0
  unfolding mark_failed
  mark_failed-Completes m = elim (Option-cases (select_tx id table)) [
    | inl missing ↦ inl (ground arith)
    | inr (t, found) ↦ elim (Bool-cases (db.execute_ok && db.commit_ok)) [
      | inl go ↦ inr (
        t,
        (let done = completed clock failed t in record done { error_message = some m }),
        found,
        λ h. cc,
        refl,
        refl,
        failed-IsConsistent clock m t,
        ground arith,
      )
      | inr stop ↦ inl (ground arith)
    ]
  ]

pub Completes-IsConsistent :
    (id : ℕ) (g : Bool) (table u : Table)
    → All IsConsistent table
    → Completes id g table u
    → All IsConsistent u
Completes-IsConsistent id g table u hs (inl e) = rw e hs
Completes-IsConsistent id g table u hs (inr (old, new, found, p, same, q, h, e)) =
    rw e (All-update id new table h hs)

pub start_effect :
    (db : Session) (clock : Clock) (id : ℕ) (op : OperationType) (d : Dict Json) (file : Option ℕ)
    (user : Option String) (table : Table)
    → let u = (start_transaction db clock id op d file user table).0 in
      (u ≡ table)
      ⊎ ((select_tx id table ≡ none) × (u ≡ table ++ new_row clock id op d file user ∷ []))
unfolding start_transaction
start_effect db clock id op d file user table =
    elim (Bool-cases (db.commit_ok && not (is_some (select_tx id table)))) [
      | inl go ↦ inr (ground arith, ground arith)
      | inr stop ↦ inl (ground arith)
    ]
