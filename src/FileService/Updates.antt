-- ===== src/FileService/Updates.antt =====
-- `update_file_metadata`: success, and the failure that lets the row and the attribute file differ.
use art_store.Common.{
  ◌∙◌, ap, Result-cases, str_eq, if◌then◌else◌, Result, ok, arith, ◌==◌, Bool-cases, raise,
  Option-cases, false, true, ◌≢◌, ◌⊎◌, List, String, is_ok, none, some, ℕ, ◌≡◌, refl, [], ◌∷◌, inl,
  inr,
}
use art_store.Common.Json.{get, put, get-put}
use art_store.Wal
use art_store.Wal.{file_update, WalError, Transaction, Clock, Table}
use art_store.FileService.Steps.{handle_raises, commit_step_done, handle_done, select_file-id}
use art_store.FileService.Changes.{
  updated_row, updated_attributes, changed_attributes-updated, changed_row-updated,
}
use art_store.FileService.Defs.{
  FileError, update_failed, changed_row, commit_step, attr_failure, update_row, changed_attributes,
  path_of, select_file, World, Env, Faults, Change, FileMetadata, FileAttributes,
  update_file_metadata, update_steps, update_attr_step, update_started, handle,
}

select-update_row :
    (id : ℕ) (new : FileMetadata) (cache : List FileMetadata) (m : FileMetadata)
    → new.file_id ≡ id
    → select_file id cache ≡ some m
    → select_file id (update_row id new cache) ≡ some new
select-update_row id new [] m same e = cc
select-update_row id new (x ∷ xs) m same e = elim (Bool-cases (x.file_id == id)) [
  | inl here ↦ rw here (ground arith)
  | inr other ↦ rw other (ground (arith, select-update_row id new xs m same))
]

select-update_row_ne :
    (id : ℕ) (new : FileMetadata) (cache : List FileMetadata) (j : ℕ)
    → new.file_id ≡ id
    → j ≢ id
    → select_file j (update_row id new cache) ≡ select_file j cache
select-update_row_ne id new [] j same ne = refl
select-update_row_ne id new (x ∷ xs) j same ne = elim (Bool-cases (x.file_id == id)) [
  | inl here ↦ rw here (ground arith)
  | inr other ↦ rw other (ground (arith, select-update_row_ne id new xs j same ne))
]

-- The same with the key under another name.
select-update_at :
    (id k : ℕ)
    → k ≡ id
    → (new : FileMetadata) (cache : List FileMetadata) (m : FileMetadata) → new.file_id ≡ id
    → select_file id cache ≡ some m
    → select_file id (update_row k new cache) ≡ some new
select-update_at id k e new cache m same found = rw e (select-update_row id new cache m same found)

select-update_at_ne :
    (id k : ℕ)
    → k ≡ id
    → (new : FileMetadata) (cache : List FileMetadata) (j : ℕ) → new.file_id ≡ id
    → j ≢ id
    → select_file j (update_row k new cache) ≡ select_file j cache
select-update_at_ne id k e new cache j same ne = rw e (select-update_row_ne id new cache j same ne)

module _ (env : Env) (f : Faults) (clock : Clock) (c : Change) (m : FileMetadata) (tx : ℕ)
    (w : World) where
  abbrev path : String
  path = path_of m

  -- The attribute step ends early, or writes the changed attributes and commits.
  abbrev Written : World → Type 0
  Written w' =
      (a : FileAttributes) × (get path w.attrs ≡ some a)
      × (w'.attrs ≡ put path (changed_attributes c a) w.attrs)
      × (w'.blobs ≡ w.blobs)
      × (w'.cache ≡ w.cache)
      × ((t : Transaction) × (Wal.select_tx tx w'.wal ≡ some t) × (t.status ≡ Wal.committed))

  attr_step_done :
      is_ok (update_attr_step env f clock c m tx w).1 ≡ true
      → Written (update_attr_step env f clock c m tx w).0
  unfolding update_attr_step
  attr_step_done h = elim (Option-cases (get path w.attrs)) [
    | inl missing ↦ absurd (cc (rw (missing, update_attr_step) at h))
    | inr (a, found) ↦
        let b = changed_attributes c a in
        let x = record w { attrs = put path b w.attrs } in
        let value : update_attr_step env f clock c m tx w ≡ commit_step env f clock m.file_id tx x =
          ground arith in
        let (sb, sa, sc, sw) = commit_step_done env f clock m.file_id tx x (rw value at h) in
        rw value (a, found, sa, sb, sc, sw)
  ]

  -- Whatever stops the attribute step before its commit, it has changed nothing.
  attr_step_refused :
      (get path w.attrs ≡ none) ⊎ (f.attr_ok ≡ false)
      → (update_attr_step env f clock c m tx w) ≡ (w, raise (attr_failure env.backend))
  unfolding update_attr_step
  attr_step_refused h = ground arith

module _ (env : Env) (f : Faults) (clock : Clock) (c : Change) (new_tx file_id : ℕ) (user : String)
    (w : World) (m : FileMetadata) (found : select_file file_id w.cache ≡ some m) where
  abbrev result : World × Result FileError (Unit {0})
  result = update_file_metadata env f clock c new_tx file_id user w

  -- The start of the transaction, and the world after the row has been changed.
  abbrev pub begun : Table × Result WalError ℕ
  begun =
      Wal.start_transaction f.wal_start clock new_tx file_update c.log_data (some file_id)
        (some user) w.wal

  abbrev row_changed : World
  row_changed = record w { wal = begun.0; cache = update_row m.file_id (changed_row c m) w.cache }

  row_written :
      (select_file file_id row_changed.cache ≡ some (changed_row c m))
      × ((j : ℕ) → j ≢ file_id → select_file j row_changed.cache ≡ select_file j w.cache)
  row_written =
      let same = select_file-id file_id w.cache m found in
      (
        select-update_at file_id m.file_id same (changed_row c m) w.cache m same found,
        λ j. select-update_at_ne file_id m.file_id same (changed_row c m) w.cache j same,
      )

  update_value :
      (tx : ℕ)
      → f.lookup_ok ≡ true
      → begun.1 ≡ ok tx
      → f.cache_ok ≡ true
      → result
        ≡ handle f clock tx
            (update_failed file_id)
            (update_attr_step env f clock c m tx row_changed)
  unfolding update_file_metadata update_started update_attr_step commit_step
  update_value tx lo b up =
      rw (lo, update_file_metadata)
        (rw (found, update_file_metadata) (rw (b, update_started) (rw (up, update_steps) refl)))

  -- Where the database answers, the transaction starts and the row can be written, but the
  -- attribute file is missing or cannot be written, the update raises, and yet the row holds the
  -- new values while no attribute file has changed.
  pub update_diverges :
      (tx : ℕ)
      → f.lookup_ok ≡ true
      → begun.1 ≡ ok tx
      → f.cache_ok ≡ true
      → (get (path_of m) w.attrs ≡ none) ⊎ (f.attr_ok ≡ false)
      → (is_ok result.1 ≡ false)
        × (result.0.attrs ≡ w.attrs)
        × (select_file file_id result.0.cache ≡ some (changed_row c m))
  update_diverges tx lo b up stop =
      let (raised, sb, sa, sc) =
        handle_raises f clock tx (update_failed file_id) row_changed (attr_failure env.backend) in
      rw (update_value tx lo b up, attr_step_refused env f clock c m tx row_changed stop)
        (raised, sa, rw sc row_written.0)

  -- The same with what the update leaves as it was.
  pub update_stopped :
      (tx : ℕ)
      → f.lookup_ok ≡ true
      → begun.1 ≡ ok tx
      → f.cache_ok ≡ true
      → (get (path_of m) w.attrs ≡ none) ⊎ (f.attr_ok ≡ false)
      → (result.0.blobs ≡ w.blobs)
        × (result.0.attrs ≡ w.attrs)
        × (select_file file_id result.0.cache ≡ some (updated_row c m))
        × ((j : ℕ) → j ≢ file_id → select_file j result.0.cache ≡ select_file j w.cache)
  update_stopped tx lo b up stop =
      let (raised, sb, sa, sc) =
        handle_raises f clock tx (update_failed file_id) row_changed (attr_failure env.backend) in
      rw (update_value tx lo b up, attr_step_refused env f clock c m tx row_changed stop)
        (
          sb,
          sa,
          rw sc row_written.0 ∙ ap some (changed_row-updated c m),
          λ j. rw sc (row_written.1 j),
        )

  -- The ways to fail before the attribute step.
  not_looked : f.lookup_ok ≡ false → is_ok result.1 ≡ true → ⊥
  unfolding update_file_metadata
  not_looked down h = ground arith

  not_begun : (e : WalError) → f.lookup_ok ≡ true → begun.1 ≡ raise e → is_ok result.1 ≡ true → ⊥
  unfolding update_file_metadata update_started update_attr_step commit_step
  not_begun e lo b h =
      let value : result.1 ≡ raise (update_failed file_id) =
        rw (lo, update_file_metadata)
          (rw (found, update_file_metadata) (rw (b, update_started) refl)) in
      cc (rw value at h)

  not_stored :
      (tx : ℕ)
      → f.lookup_ok ≡ true
      → begun.1 ≡ ok tx
      → f.cache_ok ≡ false
      → is_ok result.1 ≡ true
      → ⊥
  unfolding update_file_metadata update_started update_attr_step commit_step handle
  not_stored tx lo b down h =
      let value : result.1 ≡ raise (update_failed file_id) =
        rw (lo, update_file_metadata)
          (rw (found, update_file_metadata)
            (rw (b, update_started) (rw (down, update_steps) refl))) in
      cc (rw value at h)

  -- An update that returns found the attribute file, wrote the given values and the times of the
  -- change to both the row and the attribute file and nothing else, left the other rows, the other attribute files and the
  -- store as they were, and committed its transaction.
  pub update_success :
      is_ok result.1 ≡ true
      → (a : FileAttributes) × (get (path_of m) w.attrs ≡ some a)
        × ((j : String)
            → get j result.0.attrs
              ≡ (if str_eq (path_of m) j then some (updated_attributes c a) else get j w.attrs))
        × (select_file file_id result.0.cache ≡ some (updated_row c m))
        × ((j : ℕ) → j ≢ file_id → select_file j result.0.cache ≡ select_file j w.cache)
        × (result.0.blobs ≡ w.blobs)
        × ((t : Transaction) × (Wal.select_tx new_tx result.0.wal ≡ some t)
            × (t.status ≡ Wal.committed))
  update_success h = elim (Bool-cases f.lookup_ok) [
    | inr down ↦ absurd (not_looked down h)
    | inl lo ↦ elim (Result-cases begun.1) [
      | inr (e, b) ↦ absurd (not_begun e lo b h)
      | inl (tx, b) ↦ elim (Bool-cases f.cache_ok) [
        | inr down ↦ absurd (not_stored tx lo b down h)
        | inl up ↦
            let b' : begun.1 ≡ ok new_tx = rw b (
              ap ok
                (Wal.Records.start_returns f.wal_start clock new_tx file_update c.log_data
                  (some file_id) (some user) w.wal b).0) in
            let value = update_value new_tx lo b' up in
            let (same, fine) =
              handle_done f clock new_tx (update_failed file_id)
                (update_attr_step env f clock c m new_tx row_changed) (rw value at h) in
            let (a, there, sa, sb, sc, sw) =
              attr_step_done env f clock c m new_tx row_changed fine in
            rw (value, same)
              (
                a,
                there,
                λ j. rw sa (
                    get-put j (path_of m) (changed_attributes c a) w.attrs
                    ∙ ap (λ b. if str_eq (path_of m) j then some b else get j w.attrs)
                        (changed_attributes-updated c a)),
                rw sc row_written.0 ∙ ap some (changed_row-updated c m),
                λ j. rw sc (row_written.1 j),
                sb,
                sw,
              )
      ]
    ]
  ]
