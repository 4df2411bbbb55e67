-- ===== src/CacheRebuild/Defs/Model.antt =====
-- The rows, the attribute files and the session of the database.
use Prim.Native.String.{count}
use art_store.Common.{
  ◌^◌, ltb, leb, ℕ, String, Bool, true, false, not, ◌&&◌, ◌||◌, List, [], ◌∷◌, ◌++◌, Option, none,
  some, ◌==◌, if◌then◌else◌, exists_in, str_eq,
}
use art_store.Common.Int.{ℤ}
use art_store.Common.Json.{Json, null, boolean, integer, text, array, object, Dict, get}
use art_store.StorageMode.{StorageMode, edit, rw_mode, ro, ar}

-- A row of `FileMetadata` with the columns that the service writes.
pub record Entry : Type 0 where
  pub file_id : ℕ
  pub original_filename : String
  pub storage_filename : String
  pub file_size : ℤ
  pub content_type : String
  pub created_at : ℕ
  pub updated_at : ℕ
  pub created_by_id : String
  pub created_by_username : String
  pub created_by_fullname : Option String
  pub description : Option String
  pub version : String
  pub storage_path : String
  pub checksum : String
  pub metadata_json : Dict Json
  pub cache_updated_at : ℕ
  pub cache_ttl_hours : ℕ

-- `AttrFileInfo`: a listed file, with the UUID that its name shows, or its path where it shows none.
pub record AttrFileInfo : Type 0 where
  pub relative_path : String
  pub file_id : String

-- What is not the service's own: `UUID` and `str` of UUIDs, `datetime.fromisoformat` of a text whose Z is
-- replaced, `str` of the values that are no text, the mode of the element and the time.
pub record Env : Type 0 where
  pub parse_uuid : String → Option ℕ
  pub uuid_text : ℕ → String
  pub parse_time : String → Option ℕ
  pub repr : Json → String
  pub mode : StorageMode
  pub now : ℕ

infixl 5 ◌>>=◌
abbrev pub ◌>>=◌ {ℓ κ} : {A : Type ℓ} {B : Type κ} → Option A → (A → Option B) → Option B
none >>= f = none
some a >>= f = f a

abbrev pub or_else {ℓ} : {A : Type ℓ} → A → Option A → A
or_else d none = d
or_else d (some a) = a

-- The value of a text column: any other value is refused when the row is written.
abbrev pub as_text : Json → Option String
as_text (text s) = some s
as_text null = none
as_text (boolean b) = none
as_text (integer n) = none
as_text (array xs) = none
as_text (object fs) = none

-- The value of a text column that may be null.
abbrev pub as_nullable : Json → Option (Option String)
as_nullable null = some none
as_nullable (text s) = some (some s)
as_nullable (boolean b) = none
as_nullable (integer n) = none
as_nullable (array xs) = none
as_nullable (object fs) = none

abbrev pub as_integer : Json → Option ℤ
as_integer (integer n) = some n
as_integer null = none
as_integer (text s) = none
as_integer (boolean b) = none
as_integer (array xs) = none
as_integer (object fs) = none

-- `str(value)`
abbrev pub str_of : Env → Json → String
str_of env null = "None"
str_of env (text s) = s
str_of env (boolean b) = env.repr (boolean b)
str_of env (integer n) = env.repr (integer n)
str_of env (array xs) = env.repr (array xs)
str_of env (object fs) = env.repr (object fs)

abbrev pub ttl_hours : StorageMode → ℕ
ttl_hours edit = 24
ttl_hours rw_mode = 24
ttl_hours ro = 168
ttl_hours ar = 168

-- The limits of the columns of `FileMetadata`: PostgreSQL refuses a longer text and a number that is not of
-- 64 bits.
abbrev pub at_most : ℕ → String → Bool
at_most limit s = leb (count s) limit

abbrev pub in_64_bits : ℤ → Bool
in_64_bits (ℤ.pos n) = ltb n (2 ^ 63)
in_64_bits (ℤ.negsuc n) = ltb n (2 ^ 63)

abbrev pub nullable_at_most : ℕ → Option String → Bool
nullable_at_most limit none = true
nullable_at_most limit (some s) = at_most limit s

abbrev pub fits_columns : Entry → Bool
fits_columns e =
    at_most 500 e.original_filename
    && at_most 500 e.storage_filename
    && in_64_bits e.file_size
    && at_most 255 e.content_type
    && at_most 255 e.created_by_id
    && at_most 255 e.created_by_username
    && nullable_at_most 500 e.created_by_fullname
    && at_most 50 e.version
    && at_most 1000 e.storage_path
    && at_most 64 e.checksum

abbrev pub in_columns : Entry → Option Entry
in_columns e = if fits_columns e then some e else none

-- The values of the row that the database takes as they are.
unfoldable pub row_of : Env → ℕ → ℕ → ℕ → Json → Json → Json → Json → Dict Json → Option Entry
row_of env id created updated name stored size path d = do
  original_filename ← as_text name
  storage_filename ← as_text stored
  file_size ← as_integer size
  content_type ← as_text (or_else (text "application/octet-stream") (get "mime_type" d))
  uploaded_by ← as_text (or_else (text "unknown") (get "uploaded_by" d))
  fullname ← as_nullable (or_else null (get "uploader_full_name" d))
  description ← as_nullable (or_else null (get "description" d))
  storage_path ← as_text path
  checksum ← as_text (or_else (text "") (get "sha256" d))
  in_columns (record {
    file_id = id;
    original_filename = original_filename;
    storage_filename = storage_filename;
    file_size = file_size;
    content_type = content_type;
    created_at = created;
    updated_at = updated;
    created_by_id = uploaded_by;
    created_by_username = uploaded_by;
    created_by_fullname = fullname;
    description = description;
    version = str_of env (or_else (integer (ℤ.pos 1)) (get "version" d));
    storage_path = storage_path;
    checksum = checksum;
    metadata_json = d;
    cache_updated_at = env.now;
    cache_ttl_hours = ttl_hours env.mode;
  })

-- `_create_metadata_from_attr`: `none` where it raises, `some none` where a column refuses a value of the
-- row later on.
unfoldable pub create_metadata_from_attr : Env → Dict Json → Option (Option Entry)
unfolding row_of
create_metadata_from_attr env d = do
  created ← get "created_at" d
  created_text ← as_text created
  created_at ← env.parse_time created_text
  updated ← get "updated_at" d
  updated_text ← as_text updated
  updated_at ← env.parse_time updated_text
  id ← get "file_id" d
  id_text ← as_text id
  file_id ← env.parse_uuid id_text
  name ← get "original_filename" d
  stored ← get "storage_filename" d
  size ← get "file_size" d
  path ← get "storage_path" d
  some (row_of env file_id created_at updated_at name stored size path d)

-- The session: the rows that are committed, those that were added since, and whether a commit that failed
-- has left it inactive.
pub record Db : Type 0 where
  pub table : List Entry
  pub pending : List (Option Entry)
  pub broken : Bool

-- The primary key and the unique `storage_filename` must be new.
abbrev pub is_taken : Entry → List Entry → Bool
is_taken e = exists_in (λ r. r.file_id == e.file_id || str_eq r.storage_filename e.storage_filename)

unfoldable pub insert_all : List (Option Entry) → List Entry → Option (List Entry)
insert_all [] table = some table
insert_all (none ∷ rest) table = none
insert_all (some e ∷ rest) table =
    let inserted = insert_all rest (table ++ e ∷ []) in if is_taken e table then none else inserted

unfoldable pub written : Db → Option (List Entry) → Db × Bool
written db none = (record db { pending = []; broken = true }, false)
written db (some table) = (record db { table = table; pending = [] }, true)

-- `commit`: it raises in an inactive session, and where a row is refused or the database does not answer.
unfoldable pub commit : Bool → Db → Db × Bool
unfolding insert_all written
commit answered db =
    if answered && not db.broken
    then written db (insert_all db.pending db.table)
    else (record db { pending = []; broken = true }, false)

unfoldable pub add : Option Entry → Db → Db
add e db = record db { pending = db.pending ++ e ∷ [] }
