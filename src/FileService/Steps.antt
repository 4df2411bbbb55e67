-- ===== src/FileService/Steps.antt =====
-- Lemmas that the proofs about deletion and update share.
use art_store.Common.Json.{text}
use art_store.Common.{false, []}
use art_store.Common.{raise, ok, arith, ◌∷◌, Result, true, is_ok, some, List, ℕ, ◌≡◌, refl}
use art_store.Wal
use art_store.Wal.{Transaction, Clock}
use art_store.FileService.Defs.{
  Failure, storage_failure, select_file, FileError, FileMetadata, commit_step, handle, World, Env,
  Faults,
}

module _ (env : Env) (f : Faults) (clock : Clock) (file_id tx : ℕ) (w : World) where
  abbrev pub Advanced : World → Type 0
  Advanced w' =
      (w'.blobs ≡ w.blobs)
      × (w'.attrs ≡ w.attrs)
      × (w'.cache ≡ w.cache)
      × ((t : Transaction) × (Wal.select_tx tx w'.wal ≡ some t) × (t.status ≡ Wal.committed))

  -- A commit that returns changes the log only, where the transaction is committed.
  pub commit_step_done :
      is_ok (commit_step env f clock file_id tx w).1 ≡ true
      → Advanced (commit_step env f clock file_id tx w).0
  unfolding commit_step
  commit_step_done h = (
    refl,
    refl,
    refl,
    Wal.Records.commit_returns f.wal_commit clock tx
        (some (("file_id", text (env.uuid_text file_id)) ∷ [])) w.wal (ground arith),
  )

pub handle_done :
    (f : Faults) (clock : Clock) (tx : ℕ) (e : FileError) (p : World × Result Failure (Unit {0}))
    → is_ok (handle f clock tx e p).1 ≡ true
    → (handle f clock tx e p ≡ (p.0, ok tt)) × (is_ok p.1 ≡ true)
unfolding handle
handle_done f clock tx e (w, ok _) h = (refl, refl)
handle_done f clock tx e (w, raise (storage_failure _)) h = absurd (cc h)
handle_done f clock tx e (w, raise Failure.other_failure) h = absurd (cc h)

pub select_file-id :
    (id : ℕ) (cache : List FileMetadata) (m : FileMetadata)
    → select_file id cache ≡ some m
    → m.file_id ≡ id
select_file-id id [] m e = cc
select_file-id id (x ∷ xs) m e = ground (arith, select_file-id id xs m)

-- The handlers raise, and touch nothing but the log.
pub handle_raises :
    (f : Faults) (clock : Clock) (tx : ℕ) (e : FileError) (w : World) (x : Failure)
    → let (w', r) = handle f clock tx e (w, raise x) in
      (is_ok r ≡ false) × (w'.blobs ≡ w.blobs) × (w'.attrs ≡ w.attrs) × (w'.cache ≡ w.cache)
unfolding handle
handle_raises f clock tx e w (storage_failure _) = (refl, refl, refl, refl)
handle_raises f clock tx e w Failure.other_failure = (refl, refl, refl, refl)
