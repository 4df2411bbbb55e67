-- ===== src/Tests/Files.antt =====
-- The store and the file service.
use art_store.Common.{
  ℕ, ◌≡◌, refl, true, false, List, [], ◌∷◌, some, none, String, Result, raise, ◌≢◌, ◌<◌,
  if◌then◌else◌, str_eq,
}
use art_store.Common.Json.{get}
use art_store.Storage.{delete_file, Bytes, local, write_file, read_chunks, not_found}
use art_store.Wal
use art_store.Wal.{start_transaction, commit, Transaction, committed}
use art_store.FileService.Changes.{updated_row, updated_attributes}
use art_store.FileService.{
  commit_step, FileError, Env, Faults, Upload, Generated, World, create_at, create_steps,
  create_attributes, create_row, create_commit, FileAttributes, FileMetadata, create_failed,
  storage_exception, select_file, delete_file_by_id, update_file_metadata, Change,
}
use art_store.FileService.Creation
use art_store.FileService.Creation.{create_at_success}
use art_store.FileService.Failure.{create_at_atomic, create_at_orphan}
use art_store.FileService.Deletion.{delete_missing_stays_pending, delete_success}
use art_store.FileService.Updates.{update_success}
use art_store.Tests.Log.{up, down, at_}

-- A digest that tells contents apart by their length only, enough for the examples.
abbrev digest : Bytes → String
digest [] = "0"
digest (b ∷ []) = "1"
digest (b ∷ c ∷ bs) = "many"

abbrev pub env : Env
env = record {
  backend = local;
  sha256 = digest;
  checksum_valid = λ s. true;
  json_size = λ a. 100;
  uuid_text = λ n. "uuid";
}

abbrev pub fine : Faults
fine = record {
  lookup_ok = true;
  wal_start = up;
  blob_ok = true;
  attr_ok = true;
  cache_ok = true;
  wal_commit = up;
  wal_rollback = up;
  cleanup_blob_ok = true;
  cleanup_attr_ok = true;
  error_text = "boom";
}

abbrev two_chunks : List Bytes
two_chunks = (1 ∷ 2 ∷ []) ∷ (3 ∷ []) ∷ [] ∷ []

abbrev pub upload : Upload
upload = record {
  chunks = two_chunks;
  original_filename = "report.pdf";
  content_type = "application/pdf";
  user_id = "u1";
  username = "ann";
  user_fullname = none;
  description = some "first";
  version = none;
  metadata = none;
  file_id = none;
}

abbrev pub generated : Generated
generated = record {
  new_file_id = 42;
  transaction_id = 9;
  timestamp = 1000;
  database_time = 1001;
  storage_filename = some "report_ann.pdf";
  storage_path = "2025/01/02/03/";
  clock = at_ 5;
}

abbrev pub nothing : World
nothing = record { wal = []; blobs = []; attrs = []; cache = [] }

abbrev path : String
path = "2025/01/02/03/report_ann.pdf"

abbrev pub created : World × Result FileError ℕ
created = create_at env fine upload generated 42 "report_ann.pdf" nothing

abbrev pub the_row : FileMetadata
the_row = Creation.row env fine upload generated 42 "report_ann.pdf"

abbrev pub the_attributes : FileAttributes
the_attributes = Creation.attributes env fine upload generated 42 "report_ann.pdf"

create_at_success_example :
    (0 < 3)
    × ((j : String)
        → get j created.0.blobs ≡ (if str_eq path j then some (1 ∷ 2 ∷ 3 ∷ []) else none))
    × ((j : String) → get j created.0.attrs ≡ (if str_eq path j then some the_attributes else none))
    × (select_file 42 [] ≡ none)
    × (created.0.cache ≡ the_row ∷ [])
    × ((t : Transaction) × (Wal.select_tx 9 created.0.wal ≡ some t) × (t.status ≡ committed))
unfolding create_at create_steps create_attributes create_row create_commit write_file read_chunks
    start_transaction commit
create_at_success_example =
    create_at_success env fine upload generated 42 "report_ann.pdf" nothing refl

-- The attribute file cannot be written.
abbrev pub attr_down : Faults
attr_down = record fine { attr_ok = false }

abbrev pub failed_create : World × Result FileError ℕ
failed_create = create_at env attr_down upload generated 42 "report_ann.pdf" nothing

create_at_atomic_example :
    ((j : String) → get j failed_create.0.blobs ≡ none)
    × ((j : String) → get j failed_create.0.attrs ≡ none)
    × (failed_create.0.cache ≡ [])
unfolding create_at create_steps create_attributes create_row create_commit write_file read_chunks
    start_transaction commit
create_at_atomic_example =
    create_at_atomic env attr_down upload generated 42 "report_ann.pdf" nothing refl refl refl refl
      refl refl refl

-- The log refuses its final commit.
abbrev log_down : Faults
log_down = record fine { wal_commit = down }

abbrev orphaned : World × Result FileError ℕ
orphaned = create_at env log_down upload generated 42 "report_ann.pdf" nothing

create_at_orphan_example :
    (orphaned.1 ≡ raise (create_failed 42))
    × (orphaned.0.cache ≡ the_row ∷ [])
    × (get path orphaned.0.blobs ≡ none)
unfolding create_at create_steps create_attributes create_row create_commit write_file read_chunks
    start_transaction commit
create_at_orphan_example =
    create_at_orphan env log_down upload generated 42 "report_ann.pdf" nothing 9 refl refl refl refl
      refl refl

-- The row is there, and the data file is gone.
abbrev gone : World
gone = record nothing { cache = the_row ∷ [] }

abbrev kept : World
kept = record gone { blobs = (path, 1 ∷ []) ∷ []; attrs = (path, the_attributes) ∷ [] }

abbrev not_deleted : World × Result FileError (Unit {0})
not_deleted = delete_file_by_id env fine (at_ 6) 10 42 "u1" gone

delete_missing_stays_pending_example :
    (not_deleted.1 ≡ raise (storage_exception (not_found path)))
    × (not_deleted.0.cache ≡ the_row ∷ [])
    × ((t : Transaction) × (Wal.select_tx 10 not_deleted.0.wal ≡ some t) × (t.status ≡ Wal.pending))
unfolding start_transaction
delete_missing_stays_pending_example =
    delete_missing_stays_pending env fine (at_ 6) 10 42 "u1" gone the_row 10 refl refl refl refl
      refl

abbrev deleted : World × Result FileError (Unit {0})
deleted = delete_file_by_id env fine (at_ 6) 10 42 "u1" kept

delete_success_example :
    ((j : String) → get j deleted.0.blobs ≡ (if str_eq path j then none else get j kept.blobs))
    × ((j : String) → get j deleted.0.attrs ≡ (if str_eq path j then none else get j kept.attrs))
    × (deleted.0.cache ≡ [])
    × ((t : Transaction) × (Wal.select_tx 10 deleted.0.wal ≡ some t) × (t.status ≡ committed))
unfolding delete_file_by_id start_transaction commit delete_file commit_step
delete_success_example = delete_success env fine (at_ 6) 10 42 "u1" kept the_row refl refl

abbrev pub change : Change
change = record {
  description = some "second";
  version = none;
  metadata = none;
  row_time = 1100;
  database_time = 1102;
  attr_time = 1101;
  log_data = [];
}

abbrev torn : World × Result FileError (Unit {0})
torn = update_file_metadata env attr_down (at_ 7) change 11 42 "u1" kept

abbrev updated : World × Result FileError (Unit {0})
updated = update_file_metadata env fine (at_ 7) change 11 42 "u1" kept

update_success_example :
    (a : FileAttributes) × (get path kept.attrs ≡ some a)
    × ((j : String)
        → get j updated.0.attrs
          ≡ (if str_eq path j then some (updated_attributes change a) else get j kept.attrs))
    × (select_file 42 updated.0.cache ≡ some (updated_row change the_row))
    × ((j : ℕ) → j ≢ 42 → select_file j updated.0.cache ≡ select_file j kept.cache)
    × (updated.0.blobs ≡ kept.blobs)
    × ((t : Transaction) × (Wal.select_tx 11 updated.0.wal ≡ some t) × (t.status ≡ committed))
unfolding update_file_metadata start_transaction commit commit_step
update_success_example = update_success env fine (at_ 7) change 11 42 "u1" kept the_row refl refl
