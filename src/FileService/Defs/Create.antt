-- ===== src/FileService/Defs/Create.antt =====
-- `create_file`, step by step.
use Prim.Native.String.{◌++◌ as str_append}
use art_store.Common.{
  ℕ, String, Bool, false, not, ◌&&◌, List, [], ◌∷◌, Option, none, some, is_some, if◌then◌else◌,
  Result, is_ok, ok, raise,
}
use art_store.Common.Json.{Json, Dict, put, remove, text, integer}
use art_store.Common.Int.{pos}
use art_store.Storage.{Bytes, Blobs, StorageError, write_file, file_exists}
use art_store.Wal
use art_store.Wal.{WalError, Table, Clock, Session, file_create, file_delete, file_update}
use art_store.FileService.Defs.Model.{
  FileAttributes, FileMetadata, World, Env, Faults, FileError, database_error, invalid_name,
  file_id_duplicate, create_failed, select_file, insert_file, attr_fits, attributes_valid, or_empty,
}

-- The arguments of `create_file`, with what the calls of `generate_storage_filename` (none for its
-- `ValueError`), `generate_storage_path`, `uuid4` and the clock give, and with the
-- time `now()` of the database at the commit of the row.
pub record Upload : Type 0 where
  pub chunks : List Bytes
  pub original_filename : String
  pub content_type : String
  pub user_id : String
  pub username : String
  pub user_fullname : Option String
  pub description : Option String
  pub version : Option String
  pub metadata : Option (Dict Json)
  pub file_id : Option ℕ

pub record Generated : Type 0 where
  pub new_file_id : ℕ
  pub transaction_id : ℕ
  pub timestamp : ℕ
  pub database_time : ℕ
  pub storage_filename : Option String
  pub storage_path : String
  pub clock : Clock

abbrev pub attributes_of : ℕ → String → Upload → Generated → ℕ × String → FileAttributes
attributes_of file_id storage_filename u g (file_size, checksum) = record {
  file_id = file_id;
  original_filename = u.original_filename;
  storage_filename = storage_filename;
  file_size = file_size;
  content_type = u.content_type;
  created_at = g.timestamp;
  updated_at = g.timestamp;
  created_by_id = u.user_id;
  created_by_username = u.username;
  created_by_fullname = u.user_fullname;
  description = u.description;
  version = u.version;
  storage_path = g.storage_path;
  checksum = checksum;
  metadata = or_empty u.metadata;
}

abbrev pub row_of : ℕ → String → Upload → Generated → ℕ × String → FileMetadata
row_of file_id storage_filename u g (file_size, checksum) = record {
  file_id = file_id;
  original_filename = u.original_filename;
  storage_filename = storage_filename;
  file_size = file_size;
  content_type = u.content_type;
  created_at = g.timestamp;
  updated_at = g.timestamp;
  created_by_id = u.user_id;
  created_by_username = u.username;
  created_by_fullname = u.user_fullname;
  description = u.description;
  version = u.version;
  storage_path = g.storage_path;
  checksum = checksum;
  metadata_json = u.metadata;
  cache_updated_at = g.database_time;
}

-- The `operation_data` of the transactions, and the `result_data` of a creation.
abbrev pub create_data : Upload → Generated → String → String → Dict Json
create_data u g storage_filename path =
    ("original_filename", text u.original_filename)
    ∷ ("storage_filename", text storage_filename)
    ∷ ("storage_path", text g.storage_path)
    ∷ ("relative_path", text path)
    ∷ ("content_type", text u.content_type)
    ∷ []

abbrev pub created_data : Env → ℕ → ℕ × String → Dict Json
created_data env file_id (file_size, checksum) =
    ("file_id", text (env.uuid_text file_id))
    ∷ ("checksum", text checksum)
    ∷ ("file_size", integer (pos file_size))
    ∷ []

module _ (env : Env) (f : Faults) (u : Upload) (g : Generated) (file_id : ℕ) (name : String)
    (tx : ℕ) where
  -- Step 5 of `create_file`, the commit of the transaction. Each step gives the world reached, and
  -- whether no step raised.
  unfoldable pub create_commit : ℕ × String → World → World × Bool
  create_commit facts w =
      let (wal, done) =
        Wal.commit f.wal_commit g.clock tx (some (created_data env file_id facts)) w.wal in
      (record w { wal = wal }, is_ok done)

  -- Step 4, the row of the metadata table.
  unfoldable pub create_row : ℕ × String → World → World × Bool
  unfolding create_commit
  create_row facts w =
      let (cache, stored) = insert_file f.cache_ok (row_of file_id name u g facts) w.cache in
      if not stored then (w, false) else create_commit facts (record w { cache = cache })

  -- Step 3, the attribute file; its path is that of the data file.
  unfoldable pub create_attributes : World → Blobs × Result StorageError (ℕ × String) → World × Bool
  unfolding create_row
  create_attributes w (blobs, raise e) = (record w { blobs = blobs }, false)
  create_attributes w (blobs, ok facts) =
      let a = attributes_of file_id name u g facts in
      let w' = record w { blobs = blobs } in
      if not (attributes_valid env a && attr_fits env a && f.attr_ok)
      then (w', false)
      else create_row facts (record w' { attrs = put (str_append g.storage_path name) a w.attrs })

  -- Step 2, the data file.
  unfoldable pub create_steps : World → World × Bool
  unfolding create_attributes
  create_steps w =
      create_attributes w
        (write_file env.sha256 f.blob_ok (str_append g.storage_path name) u.chunks none w.blobs)

-- The `except Exception` of `create_file` up to its `raise`. Each part swallows its exceptions, and
-- `db.rollback()` undoes nothing that was committed.
unfoldable pub cleanup : Faults → Clock → String → Option ℕ → World → World
cleanup f clock path tx w =
    let wal : Table = elim tx [
      | none ↦ w.wal
      | some id ↦ (Wal.rollback f.wal_rollback clock id f.error_text w.wal).0
    ] in
    record {
      wal = wal;
      blobs =
          if f.cleanup_blob_ok && file_exists path w.blobs then remove path w.blobs else w.blobs;
      attrs = if f.cleanup_attr_ok then remove path w.attrs else w.attrs;
      cache = w.cache;
    }

-- The `try` of `create_file` with its handler.
unfoldable pub create_at :
    Env → Faults → Upload → Generated → ℕ → String → World → World × Result FileError ℕ
unfolding create_steps cleanup
create_at env f u g file_id storage_filename w =
    let path = str_append g.storage_path storage_filename in
    let (wal, started) =
      Wal.start_transaction f.wal_start g.clock g.transaction_id file_create
        (create_data u g storage_filename path) (some file_id) (some u.user_id) w.wal in
    elim started [
      | raise _ ↦
          (cleanup f g.clock path none (record w { wal = wal }), raise (create_failed file_id))
      | ok tx ↦
          let (w', fine) =
            create_steps env f u g file_id storage_filename tx (record w { wal = wal }) in
          if fine
          then (w', ok file_id)
          else (cleanup f g.clock path (some tx) w', raise (create_failed file_id))
    ]

-- The generation of the name, which raises outside the `try`.
unfoldable pub create_named :
    Env → Faults → Upload → Generated → World → ℕ → World × Result FileError ℕ
unfolding create_at
create_named env f u g w file_id = elim g.storage_filename [
  | none ↦ (w, raise invalid_name)
  | some storage_filename ↦ create_at env f u g file_id storage_filename w
]

-- `create_file`; a given id must be new to the metadata table.
unfoldable pub create_file : Env → Faults → Upload → Generated → World → World × Result FileError ℕ
unfolding create_named
create_file env f u g w = elim u.file_id [
  | none ↦ create_named env f u g w g.new_file_id
  | some file_id ↦
      if not f.lookup_ok
      then (w, raise database_error)
      else if is_some (select_file file_id w.cache)
      then (w, raise (file_id_duplicate file_id))
      else create_named env f u g w file_id
]
