-- ===== src/FileService/Defs/Delete.antt =====
-- `delete_file`, step by step.
use art_store.Common.{
  ℕ, String, Bool, not, [], ◌∷◌, none, some, is_some, if◌then◌else◌, Result, ok, raise,
}
use art_store.Common.Json.{Json, Dict, get, remove, text}
use art_store.Storage.{Blobs, Backend, local, s3, StorageError, delete_file}
use art_store.Wal
use art_store.Wal.{WalError, Table, Clock, Session, file_create, file_delete, file_update}
use art_store.FileService.Defs.Model.{
  FileAttributes, FileMetadata, World, Env, Faults, FileError, file_not_found, delete_failed,
  storage_exception, attr_exception, select_file, path_of, delete_row,
}
use art_store.FileService.Defs.Handlers.{
  Failure, storage_failure, other_failure, handle, commit_step,
}

-- The `operation_data` of a deletion.
abbrev pub delete_data : FileMetadata → Dict Json
delete_data m =
    ("original_filename", text m.original_filename)
    ∷ ("storage_filename", text m.storage_filename)
    ∷ ("relative_path", text (path_of m))
    ∷ []

-- Step 3 of `delete_file`.
unfoldable pub delete_attr :
    Backend → Bool → String → Dict FileAttributes → Dict FileAttributes × Result Failure (Unit {0})
delete_attr local io_ok path attrs =
    if not (is_some (get path attrs))
    then (attrs, ok tt)
    else if io_ok
    then (remove path attrs, ok tt)
    else (attrs, raise other_failure)
delete_attr s3 io_ok path attrs =
    if io_ok then (remove path attrs, ok tt) else (attrs, raise (storage_failure attr_exception))

module _ (env : Env) (f : Faults) (clock : Clock) (m : FileMetadata) (tx : ℕ) where
  -- Steps 4 and 5 of `delete_file`.
  unfoldable pub delete_row_step :
      World → Dict FileAttributes × Result Failure (Unit {0}) → World × Result Failure (Unit {0})
  delete_row_step w (attrs, raise e) = (record w { attrs = attrs }, raise e)
  delete_row_step w (attrs, ok _) =
      if not f.cache_ok
      then (record w { attrs = attrs }, raise other_failure)
      else commit_step env f clock m.file_id tx
          (record w { attrs = attrs; cache = delete_row m.file_id w.cache })

  -- Step 3.
  unfoldable pub delete_attr_step :
      World → Blobs × Result StorageError (Unit {0}) → World × Result Failure (Unit {0})
  unfolding delete_row_step delete_attr
  delete_attr_step w (blobs, raise e) =
      (record w { blobs = blobs }, raise (storage_failure (storage_exception e)))
  delete_attr_step w (blobs, ok _) =
      delete_row_step (record w { blobs = blobs })
        (delete_attr env.backend f.attr_ok (path_of m) w.attrs)

  -- Step 2.
  unfoldable pub delete_steps : World → World × Result Failure (Unit {0})
  unfolding delete_attr_step
  delete_steps w = delete_attr_step w (delete_file env.backend f.blob_ok (path_of m) w.blobs)

-- The rest of `delete_file` after the start of its transaction.
unfoldable pub delete_started :
    Env
    → Faults
    → Clock
    → FileMetadata
    → ℕ
    → World
    → Table × Result WalError ℕ
    → World × Result FileError (Unit {0})
unfolding delete_steps handle
delete_started env f clock m file_id w (wal, raise _) =
    (record w { wal = wal }, raise (delete_failed file_id))
delete_started env f clock m file_id w (wal, ok tx) =
    handle f clock tx (delete_failed file_id)
      (delete_steps env f clock m tx (record w { wal = wal }))

-- `delete_file`, with the UUID of its transaction.
unfoldable pub delete_file_by_id :
    Env → Faults → Clock → ℕ → ℕ → String → World → World × Result FileError (Unit {0})
unfolding delete_started
delete_file_by_id env f clock new_tx file_id user_id w =
    if not f.lookup_ok
    then (w, raise (delete_failed file_id))
    else elim (select_file file_id w.cache) [
      | none ↦ (w, raise (file_not_found file_id))
      | some m ↦ delete_started env f clock m file_id w (
          Wal.start_transaction f.wal_start clock new_tx file_delete (delete_data m) (some file_id)
            (some user_id) w.wal)
    ]
