-- ===== src/Tests/Rebuilds.antt =====
-- The rebuild of a table from two attribute files, one of which is damaged.
use art_store.Common.{
  All, ◌≡◌, refl, String, true, false, List, [], ◌∷◌, Option, none, some, ok, str_eq, if◌then◌else◌,
  ◌==◌, Memᴰ,
}
use art_store.Common.Int.{ℤ}
use art_store.Common.Json.{Json, Dict}
use art_store.FileService.{FileAttributes}
use art_store.StorageMode.{edit}
use art_store.CacheLock.{manual_rebuild, Redis, acquire_lock, release_lock}
use art_store.CacheRebuild.Defs.Model.{
  Entry, AttrFileInfo, Env, Db, create_metadata_from_attr, commit, add,
}
use art_store.CacheRebuild.Defs.Scan.{scan}
use art_store.CacheRebuild.Defs.Run.{
  RebuildResult, ConsistencyReport, World, rebuild_cache_full, check_consistency,
}
use art_store.CacheRebuild.Rows.{dump, IsStripped, rebuild_cache_full-Stripped}
use art_store.CacheRebuild.Outcomes.{Rebuilt, rebuild_cache_full-Rebuilt}
use art_store.CacheRebuild.Returns.{Leaves, rebuild_cache_full-Leaves}
use art_store.CacheRebuild.Reports.{Named, IsClean, check_consistency-IsClean}

-- A server on which every lock is free.
abbrev free : Redis
free = record {
  Store = Unit {0};
  set_nx = λ key ex s. (s, ok true);
  delete = λ key s. (s, ok true);
  exists = λ key s. ok false;
  others = λ s. s;
}

abbrev env : Env
env = record {
  parse_uuid = λ t. if str_eq t "id-1" then some 1 else none;
  uuid_text = λ n. if n == 1 then "id-1" else "id-2";
  parse_time = λ t. some 100;
  repr = λ j. "value";
  mode = edit;
  now = 500;
}

abbrev attributes : FileAttributes
attributes = record {
  file_id = 1;
  original_filename = "report.pdf";
  storage_filename = "report_ann_1.pdf";
  file_size = 3;
  content_type = "application/pdf";
  created_at = 100;
  updated_at = 100;
  created_by_id = "7";
  created_by_username = "ann";
  created_by_fullname = none;
  description = none;
  version = none;
  storage_path = "2025/";
  checksum = "digest";
  metadata = [];
}

abbrev file : AttrFileInfo
file = record { relative_path = "report_ann_1.pdf.attr.json"; file_id = "id-1" }

abbrev damaged : AttrFileInfo
damaged = record { relative_path = "damaged.attr.json"; file_id = "damaged.attr.json" }

abbrev content : String → Option (Dict Json)
content path =
    if str_eq path "report_ann_1.pdf.attr.json"
    then some (dump env.uuid_text (λ n. "2025-11-25T00:00:00+00:00") attributes)
    else none

abbrev world : List AttrFileInfo → World
world infos = record {
  listed = infos;
  list_raises = false;
  read = content;
  answers = λ n. true;
  first_ok = true;
  last_ok = true;
}

abbrev empty_db : Db
empty_db = record { table = []; pending = []; broken = false }

abbrev counted_both : RebuildResult
counted_both = record {
  attr_files_scanned = 2;
  cache_entries_before = 0;
  cache_entries_after = 1;
  entries_created = 1;
  entries_deleted = 0;
  errors = "damaged.attr.json" ∷ [];
}

abbrev counted_one : RebuildResult
counted_one = record counted_both { attr_files_scanned = 1; errors = [] }

rebuild_cache_full-Rebuilt_example :
    Rebuilt env content
      (file ∷ damaged ∷ [])
      []
      []
      0
      (rebuild_cache_full free "lock" env (world (file ∷ damaged ∷ [])) tt empty_db).1
      counted_both
unfolding rebuild_cache_full acquire_lock scan commit create_metadata_from_attr dump add
rebuild_cache_full-Rebuilt_example =
    rebuild_cache_full-Rebuilt free "lock" env (world (file ∷ damaged ∷ [])) tt empty_db
      counted_both refl refl

only_file :
    (i : AttrFileInfo)
    → Memᴰ i (file ∷ [])
    → (a : FileAttributes) × (content i.relative_path
        ≡ some (dump env.uuid_text (λ n. "2025-11-25T00:00:00+00:00") a))
only_file i (Memᴰ.head e) = rw e (attributes, refl)
only_file i (Memᴰ.tail m) = elim m [ ]

rebuild_cache_full-Stripped_example :
    All IsStripped (rebuild_cache_full free "lock" env (world (file ∷ [])) tt empty_db).1.table
unfolding rebuild_cache_full acquire_lock scan commit create_metadata_from_attr dump add
rebuild_cache_full-Stripped_example =
    rebuild_cache_full-Stripped free "lock" env (world (file ∷ [])) env.uuid_text
      (λ n. "2025-11-25T00:00:00+00:00") tt empty_db counted_one only_file refl refl

abbrev rebuilt_entry : Entry
rebuilt_entry = record {
  file_id = 1;
  original_filename = "report.pdf";
  storage_filename = "report_ann_1.pdf";
  file_size = ℤ.pos 3;
  content_type = "application/octet-stream";
  created_at = 100;
  updated_at = 100;
  created_by_id = "unknown";
  created_by_username = "unknown";
  created_by_fullname = none;
  description = none;
  version = "None";
  storage_path = "2025/";
  checksum = "";
  metadata_json = dump env.uuid_text (λ n. "2025-11-25T00:00:00+00:00") attributes;
  cache_updated_at = 500;
  cache_ttl_hours = 24;
}

-- The version of a file without one is the text of `None`.
rebuilt :
    (rebuild_cache_full free "lock" env (world (file ∷ [])) tt empty_db).1.table
    ≡ rebuilt_entry ∷ []
unfolding rebuild_cache_full acquire_lock scan commit create_metadata_from_attr dump add
rebuilt = refl

rebuild_cache_full-Leaves_example :
    Leaves
      (
        (rebuild_cache_full free "lock" env (world (file ∷ [])) tt empty_db).1,
        (rebuild_cache_full free "lock" env (world (file ∷ [])) tt empty_db).2,
      )
      (rebuilt_entry ∷ [])
    × ◌≡◌ {0}
        (rebuild_cache_full free "lock" env (world (file ∷ [])) tt empty_db).0
        (release_lock free "lock" manual_rebuild tt).0
unfolding rebuild_cache_full acquire_lock scan commit create_metadata_from_attr dump add
rebuild_cache_full-Leaves_example =
    rebuild_cache_full-Leaves free "lock" env (world (file ∷ [])) tt tt empty_db
      (rebuilt_entry ∷ []) refl refl refl refl refl (λ n. refl) refl refl (tt, tt)

file-Named : Named env (world (file ∷ []))
unfolding create_metadata_from_attr dump
file-Named i (Memᴰ.head e) = rw e (rebuilt_entry, refl, refl)
file-Named i (Memᴰ.tail m) = elim m [ ]

abbrev clean : ConsistencyReport
clean = record {
  total_attr_files = 1;
  total_cache_entries = 1;
  orphan_cache_entries = [];
  orphan_attr_files = [];
  expired_cache_entries = [];
  is_consistent = true;
}

check_consistency-IsClean_example : IsClean clean
unfolding check_consistency rebuild_cache_full acquire_lock scan commit create_metadata_from_attr
    dump add
check_consistency-IsClean_example =
    check_consistency-IsClean env (world (file ∷ [])) free "lock" tt tt empty_db counted_one clean
      file-Named refl refl refl
