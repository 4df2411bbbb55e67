-- ===== src/FileService/Deletion.antt =====
-- `delete_file`: success, and what its two handlers do with the transaction.
use art_store.Wal.{new_row, Transaction, file_delete, WalError, Table, Clock}
use art_store.Common.{
  ap, Result-cases, false, ◌∙◌, inr, str_eq_iff, Bool-cases, inl, Option-cases, arith, str_eq,
  if◌then◌else◌, is_ok, raise, none, ok, some, true, Result, ℕ, ◌≡◌, refl, String, Bool,
}
use art_store.Common.Json.{get, remove, get-remove, Dict}
use art_store.Storage.{StorageError, Backend, Blobs, local, s3, delete_file, not_found}
use art_store.Wal
use art_store.FileService.Steps.{commit_step_done, handle_done, select_file-id}
use art_store.FileService.Defs.{
  Failure, delete_row, FileAttributes, delete_row_step, delete_attr, delete_attr_step, commit_step,
  storage_failure, storage_exception, delete_failed, delete_started, path_of, delete_data,
  select_file, FileError, FileMetadata, World, Env, Faults, delete_file_by_id, delete_steps, handle,
}

delete_file_gone :
    (io_ok : Bool) (path : String) (blobs : Blobs) (b : Backend)
    → b ≡ local
    → get path blobs ≡ none
    → delete_file b io_ok path blobs ≡ (blobs, raise (not_found path))
unfolding delete_file
delete_file_gone io_ok path blobs local be gone = rw gone refl
delete_file_gone io_ok path blobs s3 be gone = cc

steps_missing :
    (env : Env) (f : Faults) (clock : Clock) (m : FileMetadata) (tx : ℕ) (w : World)
    → env.backend ≡ local
    → get (path_of m) w.blobs ≡ none
    → delete_steps env f clock m tx w
      ≡ (w, raise (storage_failure (storage_exception (not_found (path_of m)))))
unfolding delete_steps
steps_missing env f clock m tx w be gone =
    rw (delete_file_gone f.blob_ok (path_of m) w.blobs env.backend be gone, delete_steps) refl

delete_file_done :
    (b : Backend) (io_ok : Bool) (path : String) (blobs : Blobs)
    → is_ok (delete_file b io_ok path blobs).1 ≡ true
    → (delete_file b io_ok path blobs).0 ≡ remove path blobs
unfolding delete_file
delete_file_done local io_ok path blobs h = ground arith
delete_file_done s3 io_ok path blobs h = ground arith

-- Whatever the backend, an attribute file that was there before is gone, and the others are not.
delete_attr_done :
    (b : Backend) (io_ok : Bool) (path : String) (attrs : Dict FileAttributes)
    → is_ok (delete_attr b io_ok path attrs).1 ≡ true
    → (j : String)
    → get j (delete_attr b io_ok path attrs).0 ≡ (if str_eq path j then none else get j attrs)
unfolding delete_attr
delete_attr_done local io_ok path attrs h j = elim (Option-cases (get path attrs)) [
  | inl absent ↦
      rw (absent, delete_attr)
        (elim (Bool-cases (str_eq path j)) [
          | inl here ↦ rw here (rw (← (str_eq_iff path j).0 here) absent)
          | inr other ↦ rw other refl
        ])
  | inr (a, there) ↦ ground (arith, get-remove j path attrs)
]
delete_attr_done s3 io_ok path attrs h j = ground (arith, get-remove j path attrs)

module _ (env : Env) (f : Faults) (clock : Clock) (m : FileMetadata) (tx : ℕ) (w : World) where
  -- The world after all the steps of a deletion.
  abbrev Deleted : World → Type 0
  Deleted w' =
      (w'.blobs ≡ remove (path_of m) w.blobs)
      × ((j : String) → get j w'.attrs ≡ (if str_eq (path_of m) j then none else get j w.attrs))
      × (w'.cache ≡ delete_row m.file_id w.cache)
      × ((t : Transaction) × (Wal.select_tx tx w'.wal ≡ some t) × (t.status ≡ Wal.committed))

  row_step_done :
      (v : World) (r : Dict FileAttributes × Result Failure (Unit {0}))
      → is_ok (delete_row_step env f clock m tx v r).1 ≡ true
      → let v' = (delete_row_step env f clock m tx v r).0 in
        (is_ok r.1 ≡ true)
        × (v'.blobs ≡ v.blobs)
        × (v'.attrs ≡ r.0)
        × (v'.cache ≡ delete_row m.file_id v.cache)
        × ((t : Transaction) × (Wal.select_tx tx v'.wal ≡ some t) × (t.status ≡ Wal.committed))
  unfolding delete_row_step commit_step
  row_step_done v (attrs, raise e) h = absurd (cc h)
  row_step_done v (attrs, ok _) h = elim (Bool-cases f.cache_ok) [
    | inr down ↦ absurd (cc (rw (down, delete_row_step) at h))
    | inl up ↦
        let x = record v { attrs = attrs; cache = delete_row m.file_id v.cache } in
        let (sb, sa, sc, sw) =
          commit_step_done env f clock m.file_id tx x (rw (up, delete_row_step) at h) in
        rw (up, delete_row_step) (refl, sb, sa, sc, sw)
  ]

  Deleted-at :
      (r : Blobs × Result StorageError (Unit {0}))
      → delete_file env.backend f.blob_ok (path_of m) w.blobs ≡ r
      → is_ok (delete_attr_step env f clock m tx w r).1 ≡ true
      → Deleted (delete_attr_step env f clock m tx w r).0
  unfolding delete_attr_step
  Deleted-at (blobs, raise e) eq h = absurd (cc h)
  Deleted-at (blobs, ok _) eq h =
      let (fine, sb, sa, sc, sw) =
        row_step_done (record w { blobs = blobs })
          (delete_attr env.backend f.attr_ok (path_of m) w.attrs) h in
      (
        sb ∙ (rw eq at (delete_file_done env.backend f.blob_ok (path_of m) w.blobs (rw eq refl))),
        λ j. rw sa (delete_attr_done env.backend f.attr_ok (path_of m) w.attrs fine j),
        sc,
        sw,
      )

  Deleted-all :
      is_ok (delete_steps env f clock m tx w).1 ≡ true → Deleted (delete_steps env f clock m tx w).0
  unfolding delete_steps
  Deleted-all h = Deleted-at (delete_file env.backend f.blob_ok (path_of m) w.blobs) refl h

module _ (env : Env) (f : Faults) (clock : Clock) (new_tx file_id : ℕ) (user : String)
    (w : World) where
  abbrev result : World × Result FileError (Unit {0})
  result = delete_file_by_id env f clock new_tx file_id user w

  -- The start of the transaction for the row `m`.
  abbrev pub begun : FileMetadata → Table × Result WalError ℕ
  begun m =
      Wal.start_transaction f.wal_start clock new_tx file_delete (delete_data m) (some file_id)
        (some user) w.wal

  delete_value :
      (m : FileMetadata) (tx : ℕ)
      → f.lookup_ok ≡ true
      → select_file file_id w.cache ≡ some m
      → (begun m).1 ≡ ok tx
      → result
        ≡ handle f clock tx
            (delete_failed file_id)
            (delete_steps env f clock m tx (record w { wal = (begun m).0 }))
  unfolding delete_file_by_id delete_started commit_step
  delete_value m tx lo found b =
      rw (lo, delete_file_by_id) (rw (found, delete_file_by_id) (rw (b, delete_started) refl))

  -- Where the database answers and a local element's table names a file that is gone from the
  -- store, the deletion raises that the file was not found, the row stays, and the transaction
  -- that was started stays pending.
  pub delete_missing_stays_pending :
      (m : FileMetadata) (tx : ℕ)
      → env.backend ≡ local
      → f.lookup_ok ≡ true
      → select_file file_id w.cache ≡ some m
      → (begun m).1 ≡ ok tx
      → get (path_of m) w.blobs ≡ none
      → (result.1 ≡ raise (storage_exception (not_found (path_of m))))
        × (result.0.cache ≡ w.cache)
        × ((t : Transaction) × (Wal.select_tx tx result.0.wal ≡ some t) × (t.status ≡ Wal.pending))
  delete_missing_stays_pending m tx be lo found b gone =
      let same =
        (Wal.Records.start_returns f.wal_start clock new_tx file_delete (delete_data m)
          (some file_id) (some user) w.wal b).0 in
      let row = new_row clock new_tx file_delete (delete_data m) (some file_id) (some user) in
      rw
        (
          delete_value m tx lo found b,
          steps_missing env f clock m tx (record w { wal = (begun m).0 }) be gone,
        )
        (unfold handle in
          (
            refl,
            refl,
            (
              row,
              rw same (
                  Wal.Records.start_pending f.wal_start clock new_tx file_delete (delete_data m)
                    (some file_id) (some user) w.wal b),
              refl,
            ),
          ))

  -- Such a deletion leaves store, attribute files and table as they were.
  pub delete_missing_keeps :
      (m : FileMetadata) (tx : ℕ)
      → env.backend ≡ local
      → f.lookup_ok ≡ true
      → select_file file_id w.cache ≡ some m
      → (begun m).1 ≡ ok tx
      → get (path_of m) w.blobs ≡ none
      → (result.0.blobs ≡ w.blobs) × (result.0.attrs ≡ w.attrs) × (result.0.cache ≡ w.cache)
  delete_missing_keeps m tx be lo found b gone =
      rw
        (
          delete_value m tx lo found b,
          steps_missing env f clock m tx (record w { wal = (begun m).0 }) be gone,
        )
        (unfold handle in (refl, refl, refl))

  down_raises : f.lookup_ok ≡ false → is_ok result.1 ≡ true → ⊥
  unfolding delete_file_by_id
  down_raises down h = ground arith

  not_begun :
      (m : FileMetadata)
      → f.lookup_ok ≡ true
      → select_file file_id w.cache ≡ some m
      → (e : WalError) → (begun m).1 ≡ raise e
      → is_ok result.1 ≡ true
      → ⊥
  unfolding delete_file_by_id delete_started commit_step
  not_begun m lo found e b h =
      let value : result.1 ≡ raise (delete_failed file_id) =
        rw (lo, delete_file_by_id) (rw (found, delete_file_by_id) (rw (b, delete_started) refl)) in
      cc (rw value at h)

  -- A deletion that returns has removed the data file, its attribute file and the rows of its id,
  -- has touched no other path, and has committed its transaction.
  pub delete_success :
      (m : FileMetadata)
      → select_file file_id w.cache ≡ some m
      → is_ok result.1 ≡ true
      → ((j : String)
          → get j result.0.blobs ≡ (if str_eq (path_of m) j then none else get j w.blobs))
        × ((j : String)
            → get j result.0.attrs ≡ (if str_eq (path_of m) j then none else get j w.attrs))
        × (result.0.cache ≡ delete_row file_id w.cache)
        × ((t : Transaction) × (Wal.select_tx new_tx result.0.wal ≡ some t)
            × (t.status ≡ Wal.committed))
  delete_success m found h = elim (Bool-cases f.lookup_ok) [
    | inr down ↦ absurd (down_raises down h)
    | inl lo ↦ elim (Result-cases (begun m).1) [
      | inr (e, b) ↦ absurd (not_begun m lo found e b h)
      | inl (tx, b) ↦
          let b' : (begun m).1 ≡ ok new_tx = rw b (
            ap ok
              (Wal.Records.start_returns f.wal_start clock new_tx file_delete (delete_data m)
                (some file_id) (some user) w.wal b).0) in
          let v = record w { wal = (begun m).0 } in
          let value = delete_value m new_tx lo found b' in
          let (same, fine) =
            handle_done f clock new_tx (delete_failed file_id) (delete_steps env f clock m new_tx v)
              (rw value at h) in
          let (sb, sa, sc, sw) = Deleted-all env f clock m new_tx v fine in
          rw (value, same)
            (
              λ j. rw sb (get-remove j (path_of m) w.blobs),
              sa,
              rw sc (ap (λ k. delete_row k w.cache) (select_file-id file_id w.cache m found)),
              sw,
            )
    ]
  ]
