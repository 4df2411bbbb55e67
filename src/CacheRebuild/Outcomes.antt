-- ===== src/CacheRebuild/Outcomes.antt =====
-- What a rebuild that returns has made of the table.
use art_store.Common.{
  subst, ℕ, suc, ◌+◌, ◌≡◌, refl, ap, ◌∙◌, String, Bool, true, false, List, [], ◌∷◌, ◌++◌, Option,
  some, arith, Bool-cases, inl, inr, map, length, length-append, Result, ok, raise,
}
use art_store.Common.Json.{Json, Dict}
use art_store.CacheLock.{LockType, manual_rebuild, Redis, LockError, acquire_lock}
use art_store.CacheRebuild.Defs.Model.{Entry, AttrFileInfo, Env, Db, commit}
use art_store.CacheRebuild.Defs.Scan.{Progress, scan}
use art_store.CacheRebuild.Defs.Run.{
  RebuildError, RebuildResult, World, cache_ids, result_of, finish, start, truncate_and_scan,
  scan_missing, locked, rebuild_cache_full, rebuild_cache_incremental,
}
use art_store.CacheRebuild.Commits.{commit-IsCommitted}
use art_store.CacheRebuild.Scans.{made_rows, unreadable, Tracks, scan-Tracks, scan-scanned}

module _ (r : Redis) (prefix : String) (t : LockType) (timeout : ℕ) where
  pub gave :
      {A : Type 0} (op : Db → Db × Result RebuildError A) (s : r.Store) (db : Db) (after : r.Store)
      (acquired : Result LockError Bool) (result : A)
      → acquire_lock r prefix t timeout false 0 s ≡ (after, acquired)
      → (locked r prefix t timeout op s db).2 ≡ ok result
      → ((op db).1 ≡ ok result) × ((locked r prefix t timeout op s db).1 ≡ (op db).0)
  unfolding locked
  gave op s db after (ok true) result e h = rw (e, locked) (rw (e, locked) at h, refl)
  gave op s db after (ok false) result e h = absurd (cc (rw (e, locked) at h))
  gave op s db after (raise x) result e h = absurd (cc (rw (e, locked) at h))

length-map-some : (xs : List Entry) → length (map some xs) ≡ length xs
length-map-some [] = refl
length-map-some (x ∷ xs) = ap suc (length-map-some xs)

module _ (env : Env) (read : String → Option (Dict Json)) (listed : List AttrFileInfo) where
  -- The table holds the rows of `base` and then one row for each file whose row could be made, the result
  -- counts them, and its errors are the paths of all other files that were not known.
  pub record Rebuilt (known : List String) (base : List Entry) (before : ℕ) (db : Db)
      (result : RebuildResult) : Type 0 where
    pub rows : map some db.table ≡ map some base ++ made_rows env read known listed
    pub created : result.entries_created ≡ length (made_rows env read known listed)
    pub after : result.cache_entries_after ≡ length base + result.entries_created
    pub errors : result.errors ≡ unreadable env read known listed
    pub scanned : result.attr_files_scanned ≡ length listed
    pub counted_before : result.cache_entries_before ≡ before

module _ (env : Env) (w : World) where
  result-Rebuilt :
      (known : List String) (base : List Entry) (before : ℕ) (p : Progress)
      → Tracks base p (made_rows env w.read known w.listed) (unreadable env w.read known w.listed)
      → p.attr_files_scanned ≡ length w.listed
      → (commit w.last_ok p.db).1 ≡ true
      → Rebuilt env w.read w.listed known base before
          (commit w.last_ok p.db).0
          (result_of env w before p (commit w.last_ok p.db).0)
  result-Rebuilt known base before p t scanned committed =
      let (whole, _, none_left, wrote) = (commit-IsCommitted w.last_ok p.db).wrote committed in
      let rows_ = made_rows env w.read known w.listed in
      let all : map some (commit w.last_ok p.db).0.table ≡ map some base ++ rows_ =
        wrote ∙ t.whole_rows whole in
      record {
        rows = all;
        created = t.created;
        after = omega (
          arith,
          length-map-some (commit w.last_ok p.db).0.table,
          length-map-some base,
          ap length all,
          length-append (map some base) rows_,
          t.created,
        );
        errors = t.whole_errors whole;
        scanned = scanned;
        counted_before = refl;
      }

  finish-Rebuilt :
      (known : List String) (base : List Entry) (before : ℕ) (p : Progress) (result : RebuildResult)
      → Tracks base p (made_rows env w.read known w.listed) (unreadable env w.read known w.listed)
      → p.attr_files_scanned ≡ length w.listed
      → (finish env w before p).1 ≡ ok result
      → Rebuilt env w.read w.listed known base before (finish env w before p).0 result
  unfolding finish
  finish-Rebuilt known base before p result t scanned h = elim (Bool-cases w.list_raises) [
    | inl raises ↦ absurd (cc (rw (raises, finish) at h))
    | inr ends ↦ elim (Bool-cases (commit w.last_ok p.db).1) [
      | inr failed ↦ absurd (cc (rw (ends, failed, finish) at h))
      | inl committed ↦
          let same : result_of env w before p (commit w.last_ok p.db).0 ≡ result =
            cc (rw (ends, committed, finish) at h) in
          rw (ends, committed, finish)
            (subst (Rebuilt env w.read w.listed known base before (commit w.last_ok p.db).0) same
              (result-Rebuilt known base before p t scanned committed))
    ]
  ]

  start-Tracks : (db : Db) → db.pending ≡ [] → Tracks db.table (start env w db) [] []
  start-Tracks db e = record {
    created = refl;
    whole_rows = λ h. ap (λ (xs : List (Option Entry)). map some db.table ++ xs) e;
    whole_errors = λ h. refl;
  }

  scan-Rebuilt :
      (known : List String) (before : ℕ) (db : Db) (result : RebuildResult)
      → db.pending ≡ []
      → (finish env w before (scan env w.read w.answers known w.listed (start env w db))).1
        ≡ ok result
      → Rebuilt env w.read w.listed known db.table before
          (finish env w before (scan env w.read w.answers known w.listed (start env w db))).0
          result
  scan-Rebuilt known before db result e h =
      finish-Rebuilt known db.table before
        (scan env w.read w.answers known w.listed (start env w db)) result
        (scan-Tracks env w.read w.answers known w.listed db.table (start env w db) [] []
          (start-Tracks db e))
        (omega (arith, scan-scanned env w.read w.answers known w.listed (start env w db))) h

  truncate_and_scan-Rebuilt :
      (db : Db) (result : RebuildResult)
      → db.pending ≡ []
      → (truncate_and_scan env w db).1 ≡ ok result
      → Rebuilt env w.read w.listed [] [] (length db.table) (truncate_and_scan env w db).0 result
  unfolding truncate_and_scan
  truncate_and_scan-Rebuilt db result e h = elim (Bool-cases w.first_ok) [
    | inr fails ↦ absurd (cc (rw (fails, truncate_and_scan) at h))
    | inl works ↦
        rw (works, truncate_and_scan)
          (scan-Rebuilt [] (length db.table) (record db { table = [] }) result e
            (rw (works, truncate_and_scan) at h))
  ]

  scan_missing-Rebuilt :
      (db : Db) (result : RebuildResult)
      → db.pending ≡ []
      → (scan_missing env w db).1 ≡ ok result
      → Rebuilt env w.read w.listed
          (cache_ids env w db)
          db.table
          (length db.table)
          (scan_missing env w db).0
          result
  unfolding scan_missing
  scan_missing-Rebuilt db result e h = elim (Bool-cases w.first_ok) [
    | inr fails ↦ absurd (cc (rw (fails, scan_missing) at h))
    | inl works ↦
        rw (works, scan_missing)
          (scan-Rebuilt (cache_ids env w db) (length db.table) db result e
            (rw (works, scan_missing) at h))
  ]

module _ (r : Redis) (prefix : String) (env : Env) (w : World) where
  -- A full rebuild that returns leaves in the table, whatever it held, one row for each attribute file
  -- whose row could be made, in the order of the listing, and nothing else: no commit on the way has
  -- failed. The result counts the rows and the files and names all the other files.
  pub rebuild_cache_full-Rebuilt :
      (s : r.Store) (db : Db) (result : RebuildResult)
      → db.pending ≡ []
      → (rebuild_cache_full r prefix env w s db).2 ≡ ok result
      → Rebuilt env w.read w.listed [] []
          (length db.table)
          (rebuild_cache_full r prefix env w s db).1
          result
  unfolding rebuild_cache_full
  rebuild_cache_full-Rebuilt s db result e h =
      let call = acquire_lock r prefix manual_rebuild 1800 false 0 s in
      let (same, there) =
        gave r prefix manual_rebuild 1800 (truncate_and_scan env w) s db call.0 call.1 result refl
          h in
      rw there (truncate_and_scan-Rebuilt env w db result e same)

  -- An incremental rebuild that returns keeps every row of the table and adds one row after them for each
  -- attribute file whose row could be made and whose name shows no id of the table.
  pub rebuild_cache_incremental-Rebuilt :
      (s : r.Store) (db : Db) (result : RebuildResult)
      → db.pending ≡ []
      → (rebuild_cache_incremental r prefix env w s db).2 ≡ ok result
      → Rebuilt env w.read w.listed
          (cache_ids env w db)
          db.table
          (length db.table)
          (rebuild_cache_incremental r prefix env w s db).1
          result
  unfolding rebuild_cache_incremental
  rebuild_cache_incremental-Rebuilt s db result e h =
      let call = acquire_lock r prefix manual_rebuild 1800 false 0 s in
      let (same, there) =
        gave r prefix manual_rebuild 1800 (scan_missing env w) s db call.0 call.1 result refl h in
      rw there (scan_missing-Rebuilt env w db result e same)
