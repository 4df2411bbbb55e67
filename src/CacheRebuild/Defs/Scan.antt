-- ===== src/CacheRebuild/Defs/Scan.antt =====
-- The scan of the attribute files that both rebuilds make.
use art_store.Common.{
  ℕ, suc, ◌%◌, String, Bool, List, [], ◌∷◌, ◌++◌, Option, none, some, contains, ◌==◌, if◌then◌else◌,
}
use art_store.Common.Json.{Json, Dict}
use art_store.CacheRebuild.Defs.Model.{
  Entry, AttrFileInfo, Env, create_metadata_from_attr, Db, commit, add,
}

-- What a scan has done: the session and the fields of `RebuildResult` that it counts. Of an error only the
-- path is kept.
pub record Progress : Type 0 where
  pub db : Db
  pub attr_files_scanned : ℕ
  pub entries_created : ℕ
  pub errors : List String

abbrev pub with_error : String → Progress → Progress
with_error path p = record p { errors = p.errors ++ path ∷ [] }

abbrev pub counted : Progress → Progress
counted p = record p { attr_files_scanned = suc p.attr_files_scanned }

-- The row of a listed file, where both steps of the loop that can raise return.
abbrev pub from_read : Env → Option (Dict Json) → Option (Option Entry)
from_read env none = none
from_read env (some d) = create_metadata_from_attr env d

abbrev pub made : Env → (String → Option (Dict Json)) → AttrFileInfo → Option (Option Entry)
made env read info = from_read env (read info.relative_path)

-- `read` is the storage backend's `read_attr_file`, with `none` where it raises, and `answers` says of the
-- commit after that many entries whether the database answers it.
module _ (env : Env) (read : String → Option (Dict Json)) (answers : ℕ → Bool) where
  -- The commit after each hundredth entry.
  unfoldable pub commit_some : String → Progress → Progress
  commit_some path p =
      if p.entries_created % 100 == 0
      then (let (db, committed) = commit (answers p.entries_created) p.db in
          if committed then record p { db = db } else with_error path (record p { db = db }))
      else p

  -- The `try` of the loop.
  unfoldable pub add_entry : String → Option (Option Entry) → Progress → Progress
  unfolding commit_some
  add_entry path none p = with_error path p
  add_entry path (some e) p =
      commit_some path (record p { db = add e p.db; entries_created = suc p.entries_created })

  -- The body of the loop. The incremental rebuild skips the files that are known, and the full one, which has
  -- no such test, knows none.
  unfoldable pub scan_file : List String → AttrFileInfo → Progress → Progress
  unfolding add_entry
  scan_file known info p =
      if contains info.file_id known
      then counted p
      else add_entry info.relative_path (made env read info) (counted p)

  unfoldable pub scan : List String → List AttrFileInfo → Progress → Progress
  unfolding scan_file
  scan known [] p = p
  scan known (info ∷ rest) p = scan known rest (scan_file known info p)
