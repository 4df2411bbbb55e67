-- ===== src/Wal/Lifecycle.antt =====
-- Sequences of calls of the write-ahead log: the record invariant, and the finality of a completed
-- transaction.
use art_store.Common.{
  ok, ℕ, ◌≡◌, refl, ◌≢◌, Bool, true, false, String, List, [], ◌∷◌, Option, some, arith, inl, inr,
  ◌⊎◌, All, All-append, ◌∙◌, sym,
}
use art_store.Common.Json.{Json, Dict}
use art_store.Wal.{
  failed, is_pending, Transaction, Table, Clock, Session, select_tx, completed, commit, rollback,
  mark_failed, start_transaction, OperationType, new_row,
}
use art_store.Wal.Records.{select-update_ne, select-update_self, select-id, select-append}
use art_store.Wal.Effects.{
  IsConsistent, Completes, Completes-IsConsistent, start_effect, commit-Completes,
  rollback-Completes, mark_failed-Completes,
}

-- The calls of the service.
pub data Call : Type 0 where
  start : Session → Clock → ℕ → OperationType → Dict Json → Option ℕ → Option String → Call
  commit_tx : Session → Clock → ℕ → Option (Dict Json) → Call
  rollback_tx : Session → Clock → ℕ → String → Call
  mark : Session → Clock → ℕ → String → Call

unfoldable pub perform : Call → Table → Table
perform (start db clock id op d file user) table =
    (start_transaction db clock id op d file user table).0
perform (commit_tx db clock id r) table = (commit db clock id r table).0
perform (rollback_tx db clock id m) table = (rollback db clock id m table).0
perform (mark db clock id m) table = (mark_failed db clock id m table).0

unfoldable pub run : List Call → Table → Table
run [] table = table
run (c ∷ cs) table = run cs (perform c table)

perform-IsConsistent :
    (c : Call) (table : Table) → All IsConsistent table → All IsConsistent (perform c table)
unfolding perform
perform-IsConsistent (start db clock id op d file user) table hs =
    elim (start_effect db clock id op d file user table) [
      | inl same ↦ rw same hs
      | inr (_, added) ↦ rw added (
          All-append IsConsistent table (new_row clock id op d file user ∷ []) hs
            (ground arith, tt))
    ]
perform-IsConsistent (commit_tx db clock id r) table hs =
    Completes-IsConsistent id true table (commit db clock id r table).0 hs
      (commit-Completes db clock id table r hs)
perform-IsConsistent (rollback_tx db clock id m) table hs =
    Completes-IsConsistent id true table (rollback db clock id m table).0 hs
      (rollback-Completes db clock id table m)
perform-IsConsistent (mark db clock id m) table hs =
    Completes-IsConsistent id false table (mark_failed db clock id m table).0 hs
      (mark_failed-Completes db clock id table m)

-- Any sequence of calls, with a database that may fail at any of them, keeps every row consistent:
-- pending exactly while it has no time of completion, with a duration exactly if it has one, and
-- with an error message exactly if it was rolled back or failed.
pub run-IsConsistent :
    (cs : List Call) (table : Table) → All IsConsistent table → All IsConsistent (run cs table)
unfolding run
run-IsConsistent [] table hs = hs
run-IsConsistent (c ∷ cs) table hs =
    run-IsConsistent cs (perform c table) (perform-IsConsistent c table hs)

-- The call is not a `mark_failed` of the transaction.
abbrev pub Spares : ℕ → Call → Type 0
Spares id (mark db clock j m) = j ≢ id
Spares id _ = Unit

Completes-keeps :
    (id j : ℕ) (g : Bool) (table u : Table) (t : Transaction)
    → select_tx id table ≡ some t
    → is_pending t.status ≡ false
    → (j ≢ id) ⊎ (g ≡ true)
    → Completes j g table u
    → select_tx id u ≡ some t
Completes-keeps id j g table u t e q c (inl same) = rw same e
Completes-keeps id j g table u t e q c (inr (old, new, found, p, same, fresh, h, w)) =
    rw w (rw (select-update_ne j new (same ∙ select-id j table old found) id table other) e)
  where
    other : id ≢ j
    other here =
        let again : select_tx id table ≡ some old = rw here found in
        elim c [ inl ne ↦ ne (sym here) | inr guarded ↦ ground (arith, p guarded) ]

perform-keeps :
    (id : ℕ) (c : Call) (table : Table) (t : Transaction)
    → All IsConsistent table
    → Spares id c
    → select_tx id table ≡ some t
    → is_pending t.status ≡ false
    → select_tx id (perform c table) ≡ some t
unfolding perform
perform-keeps id (start db clock j op d file user) table t hs sp e q =
    elim (start_effect db clock j op d file user table) [
      | inl same ↦ rw same e
      | inr (_, added) ↦
          rw (added, select-append id table (new_row clock j op d file user ∷ []), e) refl
    ]
perform-keeps id (commit_tx db clock j r) table t hs sp e q =
    Completes-keeps id j true table (commit db clock j r table).0 t e q (inr refl)
      (commit-Completes db clock j table r hs)
perform-keeps id (rollback_tx db clock j m) table t hs sp e q =
    Completes-keeps id j true table (rollback db clock j m table).0 t e q (inr refl)
      (rollback-Completes db clock j table m)
perform-keeps id (mark db clock j m) table t hs sp e q =
    Completes-keeps id j false table (mark_failed db clock j m table).0 t e q (inl sp)
      (mark_failed-Completes db clock j table m)

-- A completed transaction is final: no sequence of calls changes its row, whatever the database
-- answers, as long as none of them is a `mark_failed` of this transaction.
pub run_settled :
    (id : ℕ) (cs : List Call) (table : Table) (t : Transaction)
    → All IsConsistent table
    → All (Spares id) cs
    → select_tx id table ≡ some t
    → is_pending t.status ≡ false
    → select_tx id (run cs table) ≡ some t
unfolding run
run_settled id [] table t hs sp e q = e
run_settled id (c ∷ cs) table t hs sp e q =
    run_settled id cs (perform c table) t (perform-IsConsistent c table hs) sp.1
      (perform-keeps id c table t hs sp.0 e q) q

-- With a database that answers, `mark_failed` turns any transaction of the table, a committed one
-- included, into a failed one with the given message.
pub mark_failed_overwrites :
    (db : Session) (clock : Clock) (id : ℕ) (m : String) (table : Table) (t : Transaction)
    → db.execute_ok ≡ true
    → db.commit_ok ≡ true
    → select_tx id table ≡ some t
    → ((mark_failed db clock id m table).1 ≡ ok tt)
      × (select_tx id (mark_failed db clock id m table).0
          ≡ some (let done = completed clock failed t in record done { error_message = some m }))
unfolding mark_failed
mark_failed_overwrites db clock id m table t q c e = (
  ground arith,
  ground (
    arith,
    select-update_self id
        (let done = completed clock failed t in record done { error_message = some m })
        (select-id id table t e) table t e,
  ),
)
