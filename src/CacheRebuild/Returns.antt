-- ===== src/CacheRebuild/Returns.antt =====
-- When a full rebuild returns, and what it then leaves in the table.
use art_store.Common.{
  ℕ, suc, ◌%◌, ◌≡◌, refl, ap, String, Bool, true, false, List, [], ◌∷◌, ◌++◌, Option, none, some,
  contains, ◌==◌, Bool-cases, inl, inr, map, append-nil, append_assoc, Result, ok, length,
}
use art_store.Common.Json.{Json, Dict}
use art_store.CacheRebuild.Defs.Model.{
  Entry, AttrFileInfo, Env, Db, insert_all, written, commit, add,
}
use art_store.CacheRebuild.Defs.Scan.{
  Progress, counted, made, commit_some, add_entry, scan_file, scan,
}
use art_store.CacheRebuild.Defs.Run.{
  RebuildError, RebuildResult, World, start, finish, truncate_and_scan, locked, rebuild_cache_full,
}
use art_store.CacheLock.{LockType, manual_rebuild, Redis, LockError, acquire_lock, release_lock}
use art_store.CacheRebuild.Scans.{made_rows, with_row}
use art_store.CacheRebuild.Inserts.{AreApart, AreFree-nil, insert_all-apart, insert_all-append}

-- A session that works and in which the pending rows and those to come, `rows`, make the table `whole`.
record Works (p : Progress) (rows : List (Option Entry)) (whole : List Entry) : Type 0 where
  works : p.db.broken ≡ false
  makes : insert_all (p.db.pending ++ rows) p.db.table ≡ some whole

commit-works :
    (db : Db) (part : List Entry)
    → db.broken ≡ false
    → insert_all db.pending db.table ≡ some part
    → commit true db ≡ (record db { table = part; pending = [] }, true)
unfolding commit written
commit-works db part works h = rw (works, h) refl

module _ (env : Env) (read : String → Option (Dict Json)) (answers : ℕ → Bool)
    (answered : (n : ℕ) → answers n ≡ true) where
  commit_some-Works :
      (path : String) (p : Progress) (rows : List (Option Entry)) (whole : List Entry)
      → Works p rows whole
      → Works (commit_some env read answers path p) rows whole
  unfolding commit_some
  commit_some-Works path p rows whole w = elim (Bool-cases (p.entries_created % 100 == 0)) [
    | inr later ↦ rw later w
    | inl now ↦
        let (part, first, rest) = insert_all-append p.db.pending rows p.db.table whole w.makes in
        rw (now, answered p.entries_created, commit-works p.db part w.works first)
          (record { works = w.works; makes = rest })
  ]

  add_entry-Works :
      (path : String) (m : Option (Option Entry)) (p : Progress) (rows : List (Option Entry))
      (whole : List Entry)
      → Works p (with_row m rows) whole
      → Works (add_entry env read answers path m p) rows whole
  unfolding add_entry add
  add_entry-Works path none p rows whole w = record { works = w.works; makes = w.makes }
  add_entry-Works path (some e) p rows whole w =
      let added = record p { db = add e p.db; entries_created = suc p.entries_created } in
      commit_some-Works path added rows whole
        (record { works = w.works; makes = rw (append_assoc p.db.pending (e ∷ []) rows) w.makes })

  scan-Works :
      (known : List String) (infos : List AttrFileInfo) (p : Progress) (whole : List Entry)
      → Works p (made_rows env read known infos) whole
      → Works (scan env read answers known infos p) [] whole
  unfolding scan scan_file
  scan-Works known [] p whole w = w
  scan-Works known (i ∷ rest) p whole w = elim (Bool-cases (contains i.file_id known)) [
    | inl skip ↦ rw skip (
        scan-Works known rest (counted p) whole
          (let h = w.makes in record { works = w.works; makes = rw skip at h }))
    | inr fresh ↦ rw fresh (
        scan-Works known rest
          (add_entry env read answers i.relative_path (made env read i) (counted p)) whole
          (add_entry-Works i.relative_path (made env read i) (counted p)
            (made_rows env read known rest) whole
            (let h = w.makes in record { works = w.works; makes = rw fresh at h })))
  ]

-- An operation gives a result and leaves the table `whole`.
abbrev pub Leaves : Db × Result RebuildError RebuildResult → List Entry → Type 0
Leaves after whole = (after.0.table ≡ whole) × (result : RebuildResult) × (after.1 ≡ ok result)

module _ (env : Env) (w : World) where
  finish-Leaves :
      (before : ℕ) (p : Progress) (whole : List Entry)
      → Works p [] whole
      → w.last_ok ≡ true
      → w.list_raises ≡ false
      → Leaves (finish env w before p) whole
  unfolding finish
  finish-Leaves before p whole works last ends =
      let made_ : insert_all p.db.pending p.db.table ≡ some whole =
        rw (append-nil p.db.pending) at works.makes in
      rw (ends, last, commit-works p.db whole works.works made_) (refl, _, refl)

  truncate_and_scan-Leaves :
      (db : Db) (rows : List Entry)
      → db.pending ≡ []
      → db.broken ≡ false
      → w.first_ok ≡ true
      → w.last_ok ≡ true
      → ((n : ℕ) → w.answers n ≡ true)
      → w.list_raises ≡ false
      → made_rows env w.read [] w.listed ≡ map some rows
      → AreApart rows
      → Leaves (truncate_and_scan env w db) rows
  unfolding truncate_and_scan
  truncate_and_scan-Leaves db rows none_left whole first last answered ends made_ apart = rw first (
      finish-Leaves (length db.table)
        (scan env w.read w.answers [] w.listed (start env w (record db { table = [] }))) rows
        (scan-Works env w.read w.answers answered [] w.listed
          (start env w (record db { table = [] })) rows
          (record {
            works = whole;
            makes = rw (none_left, made_) (insert_all-apart rows [] (AreFree-nil rows) apart);
          }))
        last ends)

module _ (r : Redis) (prefix : String) (t : LockType) (timeout : ℕ) where
  locked-granted :
      {A : Type 0} (op : Db → Db × Result RebuildError A) (s after : r.Store) (db : Db)
      → acquire_lock r prefix t timeout false 0 s ≡ (after, ok true)
      → locked r prefix t timeout op s db
        ≡ ((release_lock r prefix t (r.others after)).0, (op db).0, (op db).1)
  unfolding locked
  locked-granted op s after db granted =
      rw (granted, ap (λ (x : r.Store × Result LockError Bool). x.0) granted, locked) refl

module _ (r : Redis) (prefix : String) (env : Env) (w : World) where
  -- A full rebuild that gets its lock returns, where the database answers every call, the listing does not
  -- raise, and the rows that are made are `rows`, no two of which share their id or the name of their
  -- content: the table is `rows`, whatever it held before, and the lock is released.
  pub rebuild_cache_full-Leaves :
      (s after : r.Store) (db : Db) (rows : List Entry)
      → acquire_lock r prefix manual_rebuild 1800 false 0 s ≡ (after, ok true)
      → db.pending ≡ []
      → db.broken ≡ false
      → w.first_ok ≡ true
      → w.last_ok ≡ true
      → ((n : ℕ) → w.answers n ≡ true)
      → w.list_raises ≡ false
      → made_rows env w.read [] w.listed ≡ map some rows
      → AreApart rows
      → Leaves
          ((rebuild_cache_full r prefix env w s db).1, (rebuild_cache_full r prefix env w s db).2)
          rows
        × ((rebuild_cache_full r prefix env w s db).0
            ≡ (release_lock r prefix manual_rebuild (r.others after)).0)
  unfolding rebuild_cache_full
  rebuild_cache_full-Leaves s after db rows granted none_left whole first last answered ends made_
        apart =
      rw (locked-granted r prefix manual_rebuild 1800 (truncate_and_scan env w) s after db granted)
        (
          truncate_and_scan-Leaves env w db rows none_left whole first last answered ends made_
              apart,
          refl,
        )
