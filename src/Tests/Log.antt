-- ===== src/Tests/Log.antt =====
-- The write-ahead log.
use art_store.Common.{ℕ, ◌≡◌, refl, true, false, List, [], ◌∷◌, some, none, arith, Option, All}
use art_store.Common.Int.{sub_ℕ}
use art_store.Common.Json.{Dict, Json, text}
use art_store.Wal.{
  Session, Clock, Table, Transaction, committed, rolled_back, Status, file_create,
  start_transaction, commit, rollback, select_tx, new_row, completed,
}
use art_store.Wal.Effects.{IsConsistent}
use art_store.Wal.Lifecycle.{
  perform, Call, start, commit_tx, rollback_tx, mark, run, run-IsConsistent, run_settled,
}

abbrev pub up : Session
up = record { execute_ok = true; commit_ok = true; refresh_ok = true }

abbrev pub down : Session
down = record { execute_ok = true; commit_ok = false; refresh_ok = true }

abbrev pub at_ : ℕ → Clock
at_ t = record { now = t; elapsed_ms = λ a b. sub_ℕ (b) a }

abbrev row : Transaction
row = new_row (at_ 10) 1 file_create [] (some 5) none

abbrev other : Transaction
other = new_row (at_ 11) 2 file_create [] none none

abbrev table : Table
table = row ∷ other ∷ []

abbrev outcome : Dict Json
outcome = ("checksum", text "ab") ∷ []

row-IsConsistent : (t : Clock) (id : ℕ) → IsConsistent (new_row t id file_create [] none none)
row-IsConsistent t id = ground arith

abbrev calls : List Call
calls =
    start up (at_ 1) 7 file_create [] none none
    ∷ commit_tx down (at_ 2) 7 none
    ∷ rollback_tx up (at_ 3) 7 "disk full"
    ∷ commit_tx up (at_ 4) 7 none
    ∷ []

run-IsConsistent_example :
    All IsConsistent (run calls (new_row (at_ 0) 6 file_create [] none none ∷ []))
run-IsConsistent_example =
    run-IsConsistent calls (new_row (at_ 0) 6 file_create [] none none ∷ [])
      (row-IsConsistent (at_ 0) 6, tt)

abbrev status_of : Option Transaction → Option Status
status_of none = none
status_of (some t) = some t.status

-- The transaction 7 was rolled back, and the later commit did not revive it.
rolled_back_stays : status_of (select_tx 7 (run calls [])) ≡ some rolled_back
unfolding run perform start_transaction commit rollback
rolled_back_stays = refl

abbrev done_row : Transaction
done_row = completed (at_ 5) committed row

done-IsConsistent : IsConsistent done_row
done-IsConsistent = ground arith

run_settled_example :
    select_tx 1 (run (mark up (at_ 5) 2 "gone" ∷ calls) (done_row ∷ [])) ≡ some done_row
run_settled_example =
    run_settled 1 (mark up (at_ 5) 2 "gone" ∷ calls) (done_row ∷ []) done_row
      (done-IsConsistent, tt) (omega arith, (tt, (tt, (tt, (tt, tt))))) refl refl
