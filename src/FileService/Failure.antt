-- ===== src/FileService/Failure.antt =====
-- `create_file` when it fails: the clean-up, and the one step after which it leaves a row behind.
use art_store.Wal.{file_create, WalError, new_row, Table, Transaction}
use art_store.Common.{
  ◌++◌, raise, refl, [], [], ◌∷◌, arith, sym, ◌∙◌, inr, is_some, some, str_eq_iff, Result-cases,
  if◌then◌else◌, inl, ok, Bool-cases, false, str_eq, true, Option, Result, is_ok, none, ℕ, ◌≡◌,
  String, Bool,
}
use art_store.Common.Json.{Json, get, put, remove, get-remove, get-put_self, get-remove_self, Dict}
use art_store.Wal
use art_store.FileService.Defs.{
  create_failed, create_data, created_data, FileError, World, Env, Faults, Upload, Generated,
  create_at, cleanup,
}
use art_store.FileService.Creation

remove_elsewhere {ℓ} :
    {V : Type ℓ} (path j : String) (before after : Dict V)
    → get path before ≡ none
    → (str_eq path j ≡ false → get j after ≡ get j before)
    → get j (remove path after) ≡ get j before
remove_elsewhere path j before after fresh same = elim (Bool-cases (str_eq path j)) [
  | inl here ↦ rw (get-remove j path after, here) (rw (← (str_eq_iff path j).0 here) (sym fresh))
  | inr other ↦ rw (get-remove j path after, other) (same other)
]

remove_if_there {ℓ} :
    {V : Type ℓ} (path j : String) (before after : Dict V)
    → get path before ≡ none
    → (str_eq path j ≡ false → get j after ≡ get j before)
    → get j (if is_some (get path after) then remove path after else after) ≡ get j before
remove_if_there path j before after fresh same = elim (Bool-cases (is_some (get path after))) [
  | inl there ↦ rw there (remove_elsewhere path j before after fresh same)
  | inr absent ↦ rw absent (elim (Bool-cases (str_eq path j)) [
    | inl here ↦ rw (← (str_eq_iff path j).0 here) (ground arith)
    | inr other ↦ same other
  ])
]

module _ (env : Env) (f : Faults) (u : Upload) (g : Generated) (file_id : ℕ) (name : String)
    (w : World) where
  abbrev path : String
  path = Creation.path env f u g file_id name

  abbrev result : World × Result FileError ℕ
  result = create_at env f u g file_id name w

  abbrev reached : World × Bool
  reached = Creation.reached env f u g file_id name w

  cleanup_restores :
      (tx : Option ℕ) (v : World)
      → f.cleanup_blob_ok ≡ true
      → f.cleanup_attr_ok ≡ true
      → get path w.blobs ≡ none
      → get path w.attrs ≡ none
      → ((j : String) → str_eq path j ≡ false → get j v.blobs ≡ get j w.blobs)
      → ((j : String) → str_eq path j ≡ false → get j v.attrs ≡ get j w.attrs)
      → ((j : String) → get j (cleanup f g.clock path tx v).blobs ≡ get j w.blobs)
        × ((j : String) → get j (cleanup f g.clock path tx v).attrs ≡ get j w.attrs)
        × ((cleanup f g.clock path tx v).cache ≡ v.cache)
  unfolding cleanup
  cleanup_restores tx v ob oa fb fa sb sa = (
    λ j. rw ob (remove_if_there path j w.blobs v.blobs fb (sb j)),
    λ j. rw oa (remove_elsewhere path j w.attrs v.attrs fa (sa j)),
    refl,
  )

  abbrev begun : Table × Result WalError ℕ
  begun = Creation.begun env f u g file_id name w

  abbrev first_row : Transaction
  first_row =
      new_row g.clock g.transaction_id file_create (create_data u g name path) (some file_id)
        (some u.user_id)

  begun_pending :
      (tx : ℕ) → begun.1 ≡ ok tx → Wal.select_tx g.transaction_id begun.0 ≡ some first_row
  begun_pending tx h =
      Wal.Records.start_pending f.wal_start g.clock g.transaction_id file_create
        (create_data u g name path) (some file_id) (some u.user_id) w.wal h

  commit_accepted :
      (tx : ℕ)
      → begun.1 ≡ ok tx
      → f.wal_commit.execute_ok ≡ true
      → f.wal_commit.commit_ok ≡ true
      → (r : Option (Dict Json))
      → is_ok (Wal.commit f.wal_commit g.clock g.transaction_id r begun.0).1 ≡ true
  commit_accepted tx h q c r =
      rw
        (Wal.Records.commit_pending f.wal_commit g.clock g.transaction_id r begun.0 first_row q c
          (begun_pending tx h) refl).0

  -- A creation that fails leaves no trace in the store, the attribute files and the metadata table,
  -- if the path was free, the clean-up's deletions work, and the log takes the final commit.
  pub create_at_atomic :
      is_ok result.1 ≡ false
      → get path w.blobs ≡ none
      → get path w.attrs ≡ none
      → f.cleanup_blob_ok ≡ true
      → f.cleanup_attr_ok ≡ true
      → f.wal_commit.execute_ok ≡ true
      → f.wal_commit.commit_ok ≡ true
      → ((j : String) → get j result.0.blobs ≡ get j w.blobs)
        × ((j : String) → get j result.0.attrs ≡ get j w.attrs)
        × (result.0.cache ≡ w.cache)
  create_at_atomic h fb fa ob oa q c = elim (Result-cases begun.1) [
    | inr (e, b) ↦ rw (Creation.create_at_not_started env f u g file_id name w e b) (
        cleanup_restores none (Creation.started_world env f u g file_id name w) ob oa fb fa
          (λ j ne. refl) (λ j ne. refl))
    | inl (tx, b) ↦
        let b' = Creation.begun_id env f u g file_id name w tx b in
        let value = Creation.create_at_started env f u g file_id name w b' in
        elim (Bool-cases reached.1) [
          | inl go ↦ absurd (cc (rw (value, go) at h))
          | inr stop ↦
              let (sb, sa, _, sc) =
                Creation.steps-Stopped env f u g file_id name g.transaction_id
                  (Creation.started_world env f u g file_id name w) stop in
              let (cb, ca, cs) =
                cleanup_restores (some g.transaction_id) reached.0 ob oa fb fa sb sa in
              rw (value, stop)
                (
                  cb,
                  ca,
                  cs ∙ elim sc [
                    | inl same ↦ same
                    | inr (refused, _) ↦ absurd (
                        cc (
                          refused,
                          commit_accepted tx b q c (
                              some
                                (created_data env file_id (Creation.facts env f u g file_id name))),
                        ))
                  ],
                )
        ]
  ]

  -- Where the transaction starts, the files and the row are written, only the log's final commit
  -- is refused, and the clean-up's deletion of the data file works, the creation fails, and
  -- afterwards the row stands in the metadata table and its path holds no file.
  pub create_at_orphan :
      (tx : ℕ)
      → begun.1 ≡ ok tx
      → f.blob_ok ≡ true
      → Creation.writable env f u g file_id name ≡ true
      → Creation.insertable env f u g file_id name w ≡ true
      → f.wal_commit.commit_ok ≡ false
      → f.cleanup_blob_ok ≡ true
      → (result.1 ≡ raise (create_failed file_id))
        × (result.0.cache ≡ w.cache ++ Creation.row env f u g file_id name ∷ [])
        × (get path result.0.blobs ≡ none)
  unfolding cleanup
  create_at_orphan tx b up fit new refused ob =
      let b' = Creation.begun_id env f u g file_id name w tx b in
      let v = Creation.started_world env f u g file_id name w in
      let no : is_ok
            (Wal.commit f.wal_commit g.clock g.transaction_id
              (some (created_data env file_id (Creation.facts env f u g file_id name))) v.wal).1
          ≡ false =
        Wal.Records.commit_refused f.wal_commit g.clock g.transaction_id
          (some (created_data env file_id (Creation.facts env f u g file_id name))) v.wal refused in
      rw
        (
          Creation.create_at_started env f u g file_id name w b',
          Creation.create_steps_value env f u g file_id name g.transaction_id v,
          up,
          fit,
          new,
          no,
        )
        (
          refl,
          refl,
          rw (ob, get-put_self path (Creation.content env f u g file_id name) w.blobs)
              (get-remove_self path (put path (Creation.content env f u g file_id name) w.blobs)),
        )
