-- ===== src/FileService/Defs/Handlers.antt =====
-- How the steps of `delete_file` and `update_file_metadata` fail, and their handlers.
use art_store.Common.{ℕ, [], ◌∷◌, some, Result, ok, raise}
use art_store.Common.Json.{text}
use art_store.Wal
use art_store.Wal.{WalError, Table, Clock, Session, file_create, file_delete, file_update}
use art_store.FileService.Defs.Model.{World, Env, Faults, FileError}

-- How the steps of `delete_file` and `update_file_metadata` end early: by a `StorageException`, or
-- by any other exception.
pub data Failure : Type 0 where
  storage_failure : FileError → Failure
  other_failure : Failure

-- The two handlers of `delete_file` and of `update_file_metadata`, after the steps. That for
-- `StorageException` binds no `e`, so the evaluation of `str(e)` raises before `wal.rollback` is
-- called, and the `except` around it swallows that.
unfoldable pub handle :
    Faults
    → Clock
    → ℕ
    → FileError
    → World × Result Failure (Unit {0})
    → World × Result FileError (Unit {0})
handle f clock tx error (w, ok _) = (w, ok tt)
handle f clock tx error (w, raise (storage_failure e)) = (w, raise e)
handle f clock tx error (w, raise other_failure) =
    (record w { wal = (Wal.rollback f.wal_rollback clock tx f.error_text w.wal).0 }, raise error)

-- The last step of both: the commit of the transaction. A `WALException` is no `StorageException`.
unfoldable pub commit_step :
    Env → Faults → Clock → ℕ → ℕ → World → World × Result Failure (Unit {0})
commit_step env f clock file_id tx w =
    let (wal, done) =
      Wal.commit f.wal_commit clock tx (some (("file_id", text (env.uuid_text file_id)) ∷ []))
        w.wal in
    (record w { wal = wal }, elim done [ ok _ ↦ ok tt | raise _ ↦ raise other_failure ])
