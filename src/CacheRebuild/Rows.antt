-- ===== src/CacheRebuild/Rows.antt =====
-- What a rebuild makes of the attribute files that the file service writes.
use art_store.Common.{
  Bool-cases, inl, inr, All, ℕ, ◌≡◌, refl, String, List, [], ◌∷◌, Option, none, some, map, ok, Memᴰ,
}
use art_store.Common.Int.{ℤ}
use art_store.Common.Json.{Json, null, text, integer, object, Dict, to_fields}
use art_store.FileService.{FileAttributes}
use art_store.CacheLock.{Redis}
use art_store.CacheRebuild.Defs.Model.{
  Entry, AttrFileInfo, Env, row_of, fits_columns, in_columns, str_of, ttl_hours,
  create_metadata_from_attr, Db,
}
use art_store.CacheRebuild.Defs.Scan.{made}
use art_store.CacheRebuild.Defs.Run.{RebuildResult, World, rebuild_cache_full}
use art_store.CacheRebuild.Scans.{made_rows, with_row}
use art_store.CacheRebuild.Outcomes.{rebuild_cache_full-Rebuilt}

-- `model_dump_json` of `FileAttributes`, with the texts of UUIDs and times.
abbrev pub nullable : Option String → Json
nullable none = null
nullable (some s) = text s

unfoldable pub dump : (ℕ → String) → (ℕ → String) → FileAttributes → Dict Json
dump uuid_text iso a =
    ("file_id", text (uuid_text a.file_id))
    ∷ ("original_filename", text a.original_filename)
    ∷ ("storage_filename", text a.storage_filename)
    ∷ ("file_size", integer (ℤ.pos a.file_size))
    ∷ ("content_type", text a.content_type)
    ∷ ("created_at", text (iso a.created_at))
    ∷ ("updated_at", text (iso a.updated_at))
    ∷ ("created_by_id", text a.created_by_id)
    ∷ ("created_by_username", text a.created_by_username)
    ∷ ("created_by_fullname", nullable a.created_by_fullname)
    ∷ ("description", nullable a.description)
    ∷ ("version", nullable a.version)
    ∷ ("storage_path", text a.storage_path)
    ∷ ("checksum", text a.checksum)
    ∷ ("metadata", object (to_fields a.metadata))
    ∷ []

-- The row keeps neither the digest nor the type of the content nor who created the file.
pub record IsStripped (e : Entry) : Type 0 where
  pub no_checksum : e.checksum ≡ ""
  pub no_type : e.content_type ≡ "application/octet-stream"
  pub no_id : e.created_by_id ≡ "unknown"
  pub no_username : e.created_by_username ≡ "unknown"
  pub no_fullname : e.created_by_fullname ≡ none

-- The same of a row that may have been refused, and of a file whose row may not have been made.
abbrev pub StrippedRow : Option Entry → Type 0
StrippedRow none = Unit
StrippedRow (some e) = IsStripped e

abbrev StrippedMade : Option (Option Entry) → Type 0
StrippedMade none = Unit
StrippedMade (some m) = StrippedRow m

in_columns-StrippedRow : (e : Entry) → IsStripped e → StrippedRow (in_columns e)
in_columns-StrippedRow e h = elim (Bool-cases (fits_columns e)) [
  | inl fits ↦ rw fits h
  | inr refused ↦ rw refused tt
]

module _ (env : Env) (uuid_text iso : ℕ → String) where
  -- The row before the limits of the columns.
  abbrev stripped_row : FileAttributes → ℕ → ℕ → ℕ → Option String → Entry
  stripped_row a id created updated description = record {
    file_id = id;
    original_filename = a.original_filename;
    storage_filename = a.storage_filename;
    file_size = ℤ.pos a.file_size;
    content_type = "application/octet-stream";
    created_at = created;
    updated_at = updated;
    created_by_id = "unknown";
    created_by_username = "unknown";
    created_by_fullname = none;
    description = description;
    version = str_of env (nullable a.version);
    storage_path = a.storage_path;
    checksum = "";
    metadata_json = dump uuid_text iso (record a { description = description });
    cache_updated_at = env.now;
    cache_ttl_hours = ttl_hours env.mode;
  }

  row_of-StrippedRow :
      (a : FileAttributes) (id created updated : ℕ) (description : Option String)
      → a.description ≡ description
      → StrippedRow (
          row_of env id created updated
            (text a.original_filename)
            (text a.storage_filename)
            (integer (ℤ.pos a.file_size))
            (text a.storage_path)
            (dump uuid_text iso a))
  unfolding row_of dump
  row_of-StrippedRow a id created updated none e =
      rw (e, row_of)
        (in_columns-StrippedRow (stripped_row a id created updated none) (record {
          no_checksum = refl;
          no_type = refl;
          no_id = refl;
          no_username = refl;
          no_fullname = refl;
        }))
  row_of-StrippedRow a id created updated (some d) e =
      rw (e, row_of)
        (in_columns-StrippedRow (stripped_row a id created updated (some d)) (record {
          no_checksum = refl;
          no_type = refl;
          no_id = refl;
          no_username = refl;
          no_fullname = refl;
        }))

  dump-StrippedMade :
      (a : FileAttributes) (created updated id : Option ℕ)
      → env.parse_time (iso a.created_at) ≡ created
      → env.parse_time (iso a.updated_at) ≡ updated
      → env.parse_uuid (uuid_text a.file_id) ≡ id
      → StrippedMade (create_metadata_from_attr env (dump uuid_text iso a))
  unfolding create_metadata_from_attr dump
  dump-StrippedMade a none updated id c u i = rw (c, create_metadata_from_attr) tt
  dump-StrippedMade a (some created) none id c u i = rw (c, u, create_metadata_from_attr) tt
  dump-StrippedMade a (some created) (some updated) none c u i =
      rw (c, u, i, create_metadata_from_attr) tt
  dump-StrippedMade a (some created) (some updated) (some id) c u i =
      rw (c, u, i, create_metadata_from_attr)
        (row_of-StrippedRow a id created updated a.description refl)

  with_row-Stripped :
      (m : Option (Option Entry)) (rows : List (Option Entry))
      → StrippedMade m
      → All StrippedRow rows
      → All StrippedRow (with_row m rows)
  with_row-Stripped none rows h all = all
  with_row-Stripped (some e) rows h all = (h, all)

  made_rows-Stripped :
      (read : String → Option (Dict Json)) (infos : List AttrFileInfo)
      → ((i : AttrFileInfo)
          → Memᴰ i infos
          → (a : FileAttributes) × (read i.relative_path ≡ some (dump uuid_text iso a)))
      → All StrippedRow (made_rows env read [] infos)
  made_rows-Stripped read [] h = tt
  made_rows-Stripped read (i ∷ rest) h =
      let (a, e) = h i (Memᴰ.head refl) in
      with_row-Stripped (made env read i) (made_rows env read [] rest)
        (rw e (dump-StrippedMade a _ _ _ refl refl refl))
        (made_rows-Stripped read rest (λ j m. h j (Memᴰ.tail m)))

all_some : (table : List Entry) → All StrippedRow (map some table) → All IsStripped table
all_some [] h = tt
all_some (e ∷ rest) h = (h.0, all_some rest h.1)

-- Where every listed attribute file is one that the file service wrote, a full rebuild that returns leaves
-- no row with a digest, with the type of the content or with the user who created the file.
pub rebuild_cache_full-Stripped :
    (r : Redis) (prefix : String) (env : Env) (w : World) (uuid_text iso : ℕ → String) (s : r.Store)
    (db : Db) (result : RebuildResult)
    → ((i : AttrFileInfo)
        → Memᴰ i w.listed
        → (a : FileAttributes) × (w.read i.relative_path ≡ some (dump uuid_text iso a)))
    → db.pending ≡ []
    → (rebuild_cache_full r prefix env w s db).2 ≡ ok result
    → All IsStripped (rebuild_cache_full r prefix env w s db).1.table
rebuild_cache_full-Stripped r prefix env w uuid_text iso s db result written e h =
    all_some (rebuild_cache_full r prefix env w s db).1.table (
      rw ((rebuild_cache_full-Rebuilt r prefix env w s db result e h).rows)
        (made_rows-Stripped env uuid_text iso w.read w.listed written))
