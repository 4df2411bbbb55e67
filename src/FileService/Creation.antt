-- ===== src/FileService/Creation.antt =====
-- `create_file`: what it leaves on success and on failure.
use Prim.Native.String.{◌++◌ as str_append}
use art_store.Common.{
  ◌<◌, ap, ℕ, ◌≡◌, refl, ◌⊎◌, inl, inr, String, Bool, true, false, not, ◌&&◌, [], ◌∷◌, ◌++◌, none,
  some, is_some, length, arith, if◌then◌else◌, Result, ok, raise, is_ok, exists_in, str_eq,
  Bool-cases, Result-cases,
}
use art_store.Common.Json.{Dict, get, put, get-put}
use art_store.Storage.{Bytes}
use art_store.Storage.Writes.{stream, write_file_value}
use art_store.Wal
use art_store.Wal.{committed, Transaction, file_create, WalError, Clock, Session, Table}
use art_store.FileService.Defs.{
  create_data, create_failed, cleanup, create_at, World, Env, Faults, Upload, Generated,
  FileAttributes, FileMetadata, attributes_valid, attr_fits, created_data, create_steps,
  select_file,
}

module _ (env : Env) (f : Faults) (u : Upload) (g : Generated) (file_id : ℕ) (name : String) where
  abbrev pub path : String
  path = str_append g.storage_path name

  -- The bytes that the upload delivers, and their size and digest.
  abbrev pub content : Bytes
  content = stream u.chunks

  abbrev pub facts : ℕ × String
  facts = (length content, env.sha256 content)

  -- The attribute file and the row that describe them.
  abbrev pub attributes : FileAttributes
  attributes = record {
    file_id = file_id;
    original_filename = u.original_filename;
    storage_filename = name;
    file_size = length content;
    content_type = u.content_type;
    created_at = g.timestamp;
    updated_at = g.timestamp;
    created_by_id = u.user_id;
    created_by_username = u.username;
    created_by_fullname = u.user_fullname;
    description = u.description;
    version = u.version;
    storage_path = g.storage_path;
    checksum = env.sha256 content;
    metadata = elim u.metadata [ none ↦ [] | some d ↦ d ];
  }

  abbrev pub row : FileMetadata
  row = record {
    file_id = file_id;
    original_filename = u.original_filename;
    storage_filename = name;
    file_size = length content;
    content_type = u.content_type;
    created_at = g.timestamp;
    updated_at = g.timestamp;
    created_by_id = u.user_id;
    created_by_username = u.username;
    created_by_fullname = u.user_fullname;
    description = u.description;
    version = u.version;
    storage_path = g.storage_path;
    checksum = env.sha256 content;
    metadata_json = u.metadata;
    cache_updated_at = g.database_time;
  }

  -- The tests that the steps pass through, in order.
  abbrev pub writable : Bool
  writable = attributes_valid env attributes && attr_fits env attributes && f.attr_ok

  abbrev pub insertable : World → Bool
  insertable w =
      f.cache_ok
      && not (is_some (select_file file_id w.cache))
      && not (exists_in (λ r. str_eq r.storage_filename name) w.cache)

  pub create_steps_value :
      (tx : ℕ) (w : World)
      → create_steps env f u g file_id name tx w ≡ (
          if not f.blob_ok
          then (w, false)
          else if not writable
          then (record w { blobs = put path content w.blobs }, false)
          else if not (insertable w)
          then (
            record w { blobs = put path content w.blobs; attrs = put path attributes w.attrs },
            false,
          )
          else let (wal, done) =
              Wal.commit f.wal_commit g.clock tx (some (created_data env file_id facts)) w.wal in
            (
              record {
                wal = wal;
                blobs = put path content w.blobs;
                attrs = put path attributes w.attrs;
                cache = w.cache ++ row ∷ [];
              },
              is_ok done,
            ))
  unfolding create_steps
  create_steps_value tx w =
      rw (write_file_value env.sha256 f.blob_ok path u.chunks w.blobs, create_steps)
        (elim (Bool-cases f.blob_ok) [
          | inr down ↦ rw down refl
          | inl up ↦ rw up (elim (Bool-cases writable) [
            | inr unfit ↦ rw unfit refl
            | inl fit ↦ rw fit (elim (Bool-cases (insertable w)) [
              | inr clash ↦ rw clash refl
              | inl new ↦ rw new refl
            ])
          ])
        ])

  steps_done :
      (tx : ℕ) (w : World)
      → (create_steps env f u g file_id name tx w).1 ≡ true
      → (writable ≡ true)
        × (insertable w ≡ true)
        × (is_ok
              (Wal.commit f.wal_commit g.clock tx (some (created_data env file_id facts)) w.wal).1
            ≡ true)
        × ((create_steps env f u g file_id name tx w).0 ≡ record {
          wal =
              (Wal.commit f.wal_commit g.clock tx (some (created_data env file_id facts)) w.wal).0;
          blobs = put path content w.blobs;
          attrs = put path attributes w.attrs;
          cache = w.cache ++ row ∷ [];
        })
  steps_done tx w = rw (create_steps_value tx w) (elim (Bool-cases f.blob_ok) [
    | inr down ↦ rw down (λ h. cc)
    | inl up ↦ rw up (elim (Bool-cases writable) [
      | inr unfit ↦ rw unfit (λ h. cc)
      | inl fit ↦ rw fit (elim (Bool-cases (insertable w)) [
        | inr clash ↦ rw clash (λ h. cc)
        | inl new ↦ rw new (λ h. (refl, refl, h, refl))
      ])
    ])
  ])

  -- What the steps have done when one of them raises: at most the two files are written, the log is
  -- as it was, and the row is stored only if it is the last step that raised.
  abbrev pub Stopped : ℕ → World → World → Type 0
  Stopped tx w w' =
      ((j : String) → str_eq path j ≡ false → get j w'.blobs ≡ get j w.blobs)
      × ((j : String) → str_eq path j ≡ false → get j w'.attrs ≡ get j w.attrs)
      × (w'.wal ≡ w.wal)
      × ((w'.cache ≡ w.cache)
          ⊎ ((is_ok
                  (Wal.commit f.wal_commit g.clock tx (some (created_data env file_id facts))
                    w.wal).1
                ≡ false)
              × (w'.cache ≡ w.cache ++ row ∷ [])))

  put_elsewhere {ℓ} :
      {V : Type ℓ} (v : V) (d : Dict V) (j : String)
      → str_eq path j ≡ false
      → get j (put path v d) ≡ get j d
  put_elsewhere v d j ne = rw (get-put j path v d, ne) refl

  pub steps-Stopped :
      (tx : ℕ) (w : World)
      → (create_steps env f u g file_id name tx w).1 ≡ false
      → Stopped tx w (create_steps env f u g file_id name tx w).0
  steps-Stopped tx w = rw (create_steps_value tx w) (elim (Bool-cases f.blob_ok) [
    | inr down ↦ rw down (λ h. (λ j ne. refl, λ j ne. refl, refl, inl refl))
    | inl up ↦ rw up (elim (Bool-cases writable) [
      | inr unfit ↦ rw unfit (λ h. (put_elsewhere content w.blobs, λ j ne. refl, refl, inl refl))
      | inl fit ↦ rw fit (elim (Bool-cases (insertable w)) [
        | inr clash ↦
            rw clash (λ h.
              (put_elsewhere content w.blobs, put_elsewhere attributes w.attrs, refl, inl refl))
        | inl new ↦ rw new (λ h. (
          put_elsewhere content w.blobs,
          put_elsewhere attributes w.attrs,
          Wal.Records.commit_raises f.wal_commit g.clock tx (some (created_data env file_id facts))
              w.wal h,
          inr (h, refl),
        ))
      ])
    ])
  ])

  -- The start of the transaction, the world that the steps begin in, and what they reach.
  abbrev pub begun : World → Table × Result WalError ℕ
  begun w =
      Wal.start_transaction f.wal_start g.clock g.transaction_id file_create
        (create_data u g name path) (some file_id) (some u.user_id) w.wal

  abbrev pub started_world : World → World
  started_world w = record w { wal = (begun w).0 }

  abbrev pub reached : World → World × Bool
  reached w = create_steps env f u g file_id name g.transaction_id (started_world w)

  pub create_at_started :
      (w : World)
      → (begun w).1 ≡ ok g.transaction_id
      → create_at env f u g file_id name w ≡ (
          if (reached w).1 then ((reached w).0, ok file_id) else (
            cleanup f g.clock path (some g.transaction_id) (reached w).0,
            raise (create_failed file_id),
          ))
  unfolding create_at
  create_at_started w h = rw (h, create_at) refl

  pub create_at_not_started :
      (w : World) (e : WalError)
      → (begun w).1 ≡ raise e
      → create_at env f u g file_id name w
        ≡ (cleanup f g.clock path none (started_world w), raise (create_failed file_id))
  unfolding create_at
  create_at_not_started w e h = rw (h, create_at) refl

  pub begun_id : (w : World) (tx : ℕ) → (begun w).1 ≡ ok tx → (begun w).1 ≡ ok g.transaction_id
  begun_id w tx h = rw h (
      ap ok
        (Wal.Records.start_returns f.wal_start g.clock g.transaction_id file_create
          (create_data u g name path) (some file_id) (some u.user_id) w.wal h).0)

  -- When the creation returns, the data file holds exactly the delivered bytes, which are not
  -- empty, the attribute file and the new row of the metadata table describe them by the same size
  -- and digest, the row's id was new, no other path and no other row has changed, and the
  -- transaction is committed.
  pub create_at_success :
      (w : World)
      → is_ok (create_at env f u g file_id name w).1 ≡ true
      → let w' = (create_at env f u g file_id name w).0 in
        (0 < length content)
        × ((j : String) → get j w'.blobs ≡ (if str_eq path j then some content else get j w.blobs))
        × ((j : String)
            → get j w'.attrs ≡ (if str_eq path j then some attributes else get j w.attrs))
        × (select_file file_id w.cache ≡ none)
        × (w'.cache ≡ w.cache ++ row ∷ [])
        × ((t : Transaction) × (Wal.select_tx g.transaction_id w'.wal ≡ some t)
            × (t.status ≡ committed))
  create_at_success w = elim (Result-cases (begun w).1) [
    | inr (e, h) ↦ rw (create_at_not_started w e h) (λ k. absurd (ground arith))
    | inl (tx, h) ↦
        let b = begun_id w tx h in
        elim (Bool-cases (reached w).1) [
          | inr stop ↦ rw (create_at_started w b, stop) (λ k. absurd (ground arith))
          | inl go ↦
              let (fit, new, done, final) = steps_done g.transaction_id (started_world w) go in
              rw (create_at_started w b, go)
                (rw final (λ k. (
                  ground arith,
                  λ j. get-put j path content w.blobs,
                  λ j. get-put j path attributes w.attrs,
                  ground arith,
                  refl,
                  Wal.Records.commit_returns f.wal_commit g.clock g.transaction_id
                      (some (created_data env file_id facts)) (begun w).0 done,
                )))
        ]
  ]
