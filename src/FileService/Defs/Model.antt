-- ===== src/FileService/Defs/Model.antt =====
-- The data of the file service: rows, attribute files, its state and its collaborators.
use Prim.Native.String.{◌++◌ as str_append}
use art_store.Common.{
  ℕ, ◌*◌, String, Bool, true, false, not, ◌&&◌, List, [], ◌∷◌, ◌++◌, Option, none, some, is_some,
  ◌==◌, ltb, leb, if◌then◌else◌, find_first, keep_if, exists_in, str_eq,
}
use art_store.Common.Json.{Json, Dict}
use art_store.Storage.{Bytes, Blobs, Backend, local, s3, StorageError}
use art_store.Wal.{Table, Session}

-- `FileAttributes` (app/utils/attr_utils.py), the content of an attribute file.
pub record FileAttributes : Type 0 where
  pub file_id : ℕ
  pub original_filename : String
  pub storage_filename : String
  pub file_size : ℕ
  pub content_type : String
  pub created_at : ℕ
  pub updated_at : ℕ
  pub created_by_id : String
  pub created_by_username : String
  pub created_by_fullname : Option String
  pub description : Option String
  pub version : Option String
  pub storage_path : String
  pub checksum : String
  pub metadata : Dict Json

-- `FileMetadata` (app/models/file_metadata.py), a row of the metadata table.
pub record FileMetadata : Type 0 where
  pub file_id : ℕ
  pub original_filename : String
  pub storage_filename : String
  pub file_size : ℕ
  pub content_type : String
  pub created_at : ℕ
  pub updated_at : ℕ
  pub created_by_id : String
  pub created_by_username : String
  pub created_by_fullname : Option String
  pub description : Option String
  pub version : Option String
  pub storage_path : String
  pub checksum : String
  pub metadata_json : Option (Dict Json)
  pub cache_updated_at : ℕ

-- What the operations read and write. An attribute file is kept under the path of its data file,
-- to which the source appends `.attr.json`.
pub record World : Type 0 where
  pub wal : Table
  pub blobs : Blobs
  pub attrs : Dict FileAttributes
  pub cache : List FileMetadata

-- What is not the service's own: the digest of `hashlib`, `int(checksum, 16)` with the length test
-- of `validate_checksum`, the size of the JSON text of an attribute file, and the text of a UUID.
pub record Env : Type 0 where
  pub backend : Backend
  pub sha256 : Bytes → String
  pub checksum_valid : String → Bool
  pub json_size : FileAttributes → ℕ
  pub uuid_text : ℕ → String

-- Which of the calls to storage and database return (true) or raise (false). A call that raises
-- leaves its target as it was. `error_text` is `str(e)` of the exception that a handler catches.
pub record Faults : Type 0 where
  pub lookup_ok : Bool
  pub wal_start : Session
  pub blob_ok : Bool
  pub attr_ok : Bool
  pub cache_ok : Bool
  pub wal_commit : Session
  pub wal_rollback : Session
  pub cleanup_blob_ok : Bool
  pub cleanup_attr_ok : Bool
  pub error_text : String

-- The exceptions that leave the service.
pub data FileError : Type 0 where
  database_error : FileError
  invalid_name : FileError
  file_id_duplicate : ℕ → FileError
  file_not_found : ℕ → FileError
  create_failed : ℕ → FileError
  delete_failed : ℕ → FileError
  update_failed : ℕ → FileError
  storage_exception : StorageError → FileError
  attr_exception : FileError

abbrev pub select_file : ℕ → List FileMetadata → Option FileMetadata
select_file id = find_first (λ m. m.file_id == id)

abbrev pub path_of : FileMetadata → String
path_of m = str_append m.storage_path m.storage_filename

-- The commit of an added row: the primary key and the unique `storage_filename` must be new.
abbrev pub insert_file : Bool → FileMetadata → List FileMetadata → List FileMetadata × Bool
insert_file commit_ok m cache =
    if commit_ok
      && not (is_some (select_file m.file_id cache))
      && not (exists_in (λ r. str_eq r.storage_filename m.storage_filename) cache)
    then (cache ++ m ∷ [], true)
    else (cache, false)

abbrev pub delete_row : ℕ → List FileMetadata → List FileMetadata
delete_row id = keep_if (λ m. not (m.file_id == id))

-- `metadata or {}`
abbrev pub or_empty : Option (Dict Json) → Dict Json
or_empty none = []
or_empty (some d) = d

-- The validators of `FileAttributes`.
abbrev pub attributes_valid : Env → FileAttributes → Bool
attributes_valid env a = ltb 0 a.file_size && env.checksum_valid a.checksum

-- `MAX_ATTR_FILE_SIZE`
abbrev pub max_attr_file_size : ℕ
max_attr_file_size = 4 * 1024

-- `write_attr_file` of attr_utils.py checks the size, and that of the S3 service does not.
abbrev pub attr_fits : Env → FileAttributes → Bool
attr_fits env a = elim env.backend [ local ↦ leb (env.json_size a) max_attr_file_size | s3 ↦ true ]
