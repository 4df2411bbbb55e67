-- ===== src/CacheRebuild/Defs/Run.antt =====
-- The operations of the service, each under its lock.
use art_store.Common.{
  ℕ, ◌+◌, ◌*◌, String, Bool, true, false, not, ◌&&◌, List, [], ◌∷◌, Option, contains, ltb, ◌==◌,
  if◌then◌else◌, Result, ok, raise, length, keep_if, map,
}
use art_store.Common.Json.{Json, Dict}
use art_store.CacheLock.{
  LockType, manual_rebuild, manual_check, background_cleanup, Redis, LockError, acquire_lock,
  release_lock,
}
use art_store.CacheRebuild.Defs.Model.{Entry, AttrFileInfo, Env, Db, commit}
use art_store.CacheRebuild.Defs.Scan.{Progress, scan}

pub data RebuildError : Type 0 where
  lock_error : LockError → RebuildError
  cannot_acquire_lock database_error list_error : RebuildError

-- `RebuildResult` without its times.
pub record RebuildResult : Type 0 where
  pub attr_files_scanned : ℕ
  pub cache_entries_before : ℕ
  pub cache_entries_after : ℕ
  pub entries_created : ℕ
  pub entries_deleted : ℕ
  pub errors : List String

-- `ConsistencyReport`
pub record ConsistencyReport : Type 0 where
  pub total_attr_files : ℕ
  pub total_cache_entries : ℕ
  pub orphan_cache_entries : List String
  pub orphan_attr_files : List String
  pub expired_cache_entries : List String
  pub is_consistent : Bool

-- The storage backend: the files that `list_attr_files` yields, whether it raises after them, and the
-- content of each file. `answers` is for the commits of a scan, and the Booleans say whether the database
-- answers the first queries and the last commit; a row that it refuses for a key or for the limits of a
-- column is refused whatever they say.
pub record World : Type 0 where
  pub listed : List AttrFileInfo
  pub list_raises : Bool
  pub read : String → Option (Dict Json)
  pub answers : ℕ → Bool
  pub first_ok : Bool
  pub last_ok : Bool

-- A set of texts, as the list without its repetitions.
abbrev pub distinct : List String → List String
distinct [] = []
distinct (x ∷ xs) = let rest = distinct xs in if contains x rest then rest else x ∷ rest

abbrev pub without : List String → List String → List String
without xs ys = keep_if (λ x. not (contains x ys)) xs

-- `now() > cache_updated_at + make_interval(hours)`, in seconds.
abbrev pub is_expired : ℕ → Entry → Bool
is_expired now e = ltb (e.cache_updated_at + 3600 * e.cache_ttl_hours) now

-- The report on the ids that the attribute files show and those of the table.
abbrev pub report_of : ℕ → List String → List String → List String → ConsistencyReport
report_of total attr_ids ids expired = record {
  total_attr_files = total;
  total_cache_entries = length ids;
  orphan_cache_entries = without ids attr_ids;
  orphan_attr_files = without attr_ids ids;
  expired_cache_entries = expired;
  is_consistent = (length (without ids attr_ids) == 0) && (length (without attr_ids ids) == 0);
}

module _ (env : Env) (w : World) where
  abbrev pub cache_ids : Db → List String
  cache_ids db = map (λ e. env.uuid_text e.file_id) db.table

  abbrev pub result_of : ℕ → Progress → Db → RebuildResult
  result_of before p db = record {
    attr_files_scanned = p.attr_files_scanned;
    cache_entries_before = before;
    cache_entries_after = length db.table;
    entries_created = p.entries_created;
    entries_deleted = 0;
    errors = p.errors;
  }

  -- The end of both rebuilds, after the scan: the last commit and the result.
  unfoldable pub finish : ℕ → Progress → Db × Result RebuildError RebuildResult
  finish before p =
      if w.list_raises
      then (p.db, raise list_error)
      else (let (db, committed) = commit w.last_ok p.db in
          if committed then (db, ok (result_of before p db)) else (db, raise database_error))

  abbrev pub start : Db → Progress
  start db = record { db = db; attr_files_scanned = 0; entries_created = 0; errors = [] }

  -- `rebuild_cache_full` under its lock: TRUNCATE is committed before the scan.
  unfoldable pub truncate_and_scan : Db → Db × Result RebuildError RebuildResult
  unfolding finish
  truncate_and_scan db =
      if w.first_ok
      then finish (length db.table)
          (scan env w.read w.answers [] w.listed (start (record db { table = [] })))
      else (db, raise database_error)

  -- `rebuild_cache_incremental` under its lock.
  unfoldable pub scan_missing : Db → Db × Result RebuildError RebuildResult
  unfolding finish
  scan_missing db =
      if w.first_ok
      then finish (length db.table) (scan env w.read w.answers (cache_ids db) w.listed (start db))
      else (db, raise database_error)

  -- `cleanup_expired_entries` under its lock.
  unfoldable pub delete_expired : Db → Db × Result RebuildError RebuildResult
  delete_expired db =
      if w.first_ok && w.last_ok
      then (
        record db { table = keep_if (λ e. not (is_expired env.now e)) db.table },
        ok (record {
          attr_files_scanned = 0;
          cache_entries_before = 0;
          cache_entries_after = 0;
          entries_created = 0;
          entries_deleted = length (keep_if (is_expired env.now) db.table);
          errors = [];
        }),
      )
      else (db, raise database_error)

  -- `check_consistency` under its lock.
  unfoldable pub report : Db → Db × Result RebuildError ConsistencyReport
  report db =
      if w.list_raises
      then (db, raise list_error)
      else if w.first_ok
      then (
        db,
        ok (
            report_of (length w.listed) (distinct (map (λ i. i.file_id) w.listed))
              (distinct (cache_ids db))
              (map (λ e. env.uuid_text e.file_id) (keep_if (is_expired env.now) db.table))),
      )
      else (db, raise database_error)

-- An operation under a lock that it does not wait for, and that it releases whatever it gives.
module _ (r : Redis) (prefix : String) (t : LockType) (timeout : ℕ) where
  unfoldable pub locked :
      {A : Type 0}
      → (Db → Db × Result RebuildError A)
      → r.Store
      → Db
      → r.Store × Db × Result RebuildError A
  locked op s db =
      let (after, acquired) = acquire_lock r prefix t timeout false 0 s in
      elim acquired [
        | raise e ↦ (after, db, raise (lock_error e))
        | ok false ↦ (after, db, raise cannot_acquire_lock)
        | ok true ↦
            let (db', result) = op db in ((release_lock r prefix t (r.others after)).0, db', result)
      ]

module _ (r : Redis) (prefix : String) (env : Env) (w : World) where
  unfoldable pub rebuild_cache_full :
      r.Store → Db → r.Store × Db × Result RebuildError RebuildResult
  unfolding locked truncate_and_scan
  rebuild_cache_full = locked r prefix manual_rebuild 1800 (truncate_and_scan env w)

  unfoldable pub rebuild_cache_incremental :
      r.Store → Db → r.Store × Db × Result RebuildError RebuildResult
  unfolding locked scan_missing
  rebuild_cache_incremental = locked r prefix manual_rebuild 1800 (scan_missing env w)

  unfoldable pub cleanup_expired_entries :
      r.Store → Db → r.Store × Db × Result RebuildError RebuildResult
  unfolding locked delete_expired
  cleanup_expired_entries = locked r prefix background_cleanup 300 (delete_expired env w)

  unfoldable pub check_consistency :
      r.Store → Db → r.Store × Db × Result RebuildError ConsistencyReport
  unfolding locked report
  check_consistency = locked r prefix manual_check 600 (report env w)
