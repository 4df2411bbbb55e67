-- ===== src/FileService/Defs/Update.antt =====
-- `update_file_metadata`, step by step: the row first, then the attribute file.
use art_store.Common.{
  ℕ, String, not, ◌&&◌, Option, none, some, List, [], ◌∷◌, ◌==◌, if◌then◌else◌, Result, ok, raise,
}
use art_store.Common.Json.{Json, Dict, get, put}
use art_store.Storage.{Backend, local, s3}
use art_store.Wal
use art_store.Wal.{Table, Clock, file_update, WalError}
use art_store.FileService.Defs.Model.{
  FileAttributes, FileMetadata, World, Env, Faults, FileError, file_not_found, update_failed,
  attr_exception, select_file, path_of, attr_fits,
}
use art_store.FileService.Defs.Handlers.{
  Failure, storage_failure, other_failure, handle, commit_step,
}

-- The arguments of `update_file_metadata`, with the two readings of the clock for `updated_at`, the
-- time `now()` of the database for the column with `onupdate`, and the JSON form of the arguments in the log.
pub record Change : Type 0 where
  pub description : Option String
  pub version : Option String
  pub metadata : Option (Dict Json)
  pub row_time : ℕ
  pub database_time : ℕ
  pub attr_time : ℕ
  pub log_data : Dict Json

-- `if x is not None: field = x`
abbrev pub set_if_given {ℓ} : {A : Type ℓ} → Option A → A → A
set_if_given none old = old
set_if_given (some new) old = new

-- The same for a field that may itself be missing.
abbrev pub override {ℓ} : {A : Type ℓ} → Option A → Option A → Option A
override none old = old
override (some new) old = some new

abbrev pub changed_row : Change → FileMetadata → FileMetadata
changed_row c m = record m {
  description = override c.description m.description;
  version = override c.version m.version;
  metadata_json = override c.metadata m.metadata_json;
  updated_at = c.row_time;
  cache_updated_at = c.database_time;
}

abbrev pub changed_attributes : Change → FileAttributes → FileAttributes
changed_attributes c a = record a {
  description = override c.description a.description;
  version = override c.version a.version;
  metadata = set_if_given c.metadata a.metadata;
  updated_at = c.attr_time;
}

-- The flush of a changed row.
abbrev pub update_row : ℕ → FileMetadata → List FileMetadata → List FileMetadata
update_row id new [] = []
update_row id new (m ∷ ms) = if m.file_id == id then new ∷ ms else m ∷ update_row id new ms

-- Reading and writing an attribute file fails as a `StorageException` in the S3 service only.
abbrev pub attr_failure : Backend → Failure
attr_failure local = other_failure
attr_failure s3 = storage_failure attr_exception

module _ (env : Env) (f : Faults) (clock : Clock) (c : Change) (m : FileMetadata) (tx : ℕ) where
  -- Steps 3 and 4: the attribute file is read, changed and written, and the transaction committed.
  unfoldable pub update_attr_step : World → World × Result Failure (Unit {0})
  update_attr_step w = elim (get (path_of m) w.attrs) [
    | none ↦ (w, raise (attr_failure env.backend))
    | some a ↦
        let b = changed_attributes c a in
        if not (attr_fits env a && attr_fits env b && f.attr_ok)
        then (w, raise (attr_failure env.backend))
        else commit_step env f clock m.file_id tx (record w { attrs = put (path_of m) b w.attrs })
  ]

  -- Step 2: the row, committed at once.
  unfoldable pub update_steps : World → World × Result Failure (Unit {0})
  unfolding update_attr_step
  update_steps w =
      if not f.cache_ok
      then (w, raise other_failure)
      else update_attr_step (record w { cache = update_row m.file_id (changed_row c m) w.cache })

-- The rest of `update_file_metadata` after the start of its transaction.
unfoldable pub update_started :
    Env
    → Faults
    → Clock
    → Change
    → FileMetadata
    → ℕ
    → World
    → Table × Result WalError ℕ
    → World × Result FileError (Unit {0})
unfolding update_steps handle
update_started env f clock c m file_id w (wal, raise _) =
    (record w { wal = wal }, raise (update_failed file_id))
update_started env f clock c m file_id w (wal, ok tx) =
    handle f clock tx (update_failed file_id)
      (update_steps env f clock c m tx (record w { wal = wal }))

-- `update_file_metadata`, with the UUID of its transaction.
unfoldable pub update_file_metadata :
    Env → Faults → Clock → Change → ℕ → ℕ → String → World → World × Result FileError (Unit {0})
unfolding update_started
update_file_metadata env f clock c new_tx file_id user_id w =
    if not f.lookup_ok
    then (w, raise (update_failed file_id))
    else elim (select_file file_id w.cache) [
      | none ↦ (w, raise (file_not_found file_id))
      | some m ↦ update_started env f clock c m file_id w (
          Wal.start_transaction f.wal_start clock new_tx file_update c.log_data (some file_id)
            (some user_id) w.wal)
    ]
