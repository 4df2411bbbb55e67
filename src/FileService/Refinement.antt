-- ===== src/FileService/Refinement.antt =====
-- The file service as an implementation of a store of files by their ids: what a client sees of it after
-- any sequence of calls.
mod Abstract
pub use Abstract.*
mod Views
pub use Views.*
use art_store.Storage.{local}
use art_store.Common.{
  ◌⊎◌, ok, ℕ, ◌≡◌, String, Bool, true, false, List, [], ◌∷◌, ◌++◌, none, some, is_ok, str_eq,
  if◌then◌else◌,
}
use art_store.Common.Json.{get}
use art_store.Wal.{Clock}
use art_store.FileService.Defs.{
  World, Env, Faults, Upload, Generated, FileMetadata, Change, create_at, delete_file_by_id,
  update_file_metadata, select_file, path_of,
}
use art_store.FileService.Creation
use art_store.FileService.Failure
use art_store.FileService.Deletion
use art_store.FileService.Updates

module _ (env : Env) where
  -- A call that returns, a creation that fails where its clean-up works and the log takes commits, an
  -- update that fails since the attribute file is missing or cannot be written, or a deletion from a local
  -- element that fails since the data file is gone. The name that was generated for a new file is of no row.
  pub data Step (w : World) : World → Operation → Type 0 where
    creates :
        (f : Faults) (u : Upload) (g : Generated) (file_id : ℕ) (name : String)
        → IsFree (Creation.path env f u g file_id name) w
        → is_ok (create_at env f u g file_id name w).1 ≡ true
        → Step w (create_at env f u g file_id name w).0 (
            put_file file_id
              (Creation.content env f u g file_id name, Creation.attributes env f u g file_id name))
    fails_to_create :
        (f : Faults) (u : Upload) (g : Generated) (file_id : ℕ) (name : String)
        → is_ok (create_at env f u g file_id name w).1 ≡ false
        → get (Creation.path env f u g file_id name) w.blobs ≡ none
        → get (Creation.path env f u g file_id name) w.attrs ≡ none
        → f.cleanup_blob_ok ≡ true
        → f.cleanup_attr_ok ≡ true
        → f.wal_commit.execute_ok ≡ true
        → f.wal_commit.commit_ok ≡ true
        → Step w (create_at env f u g file_id name w).0 do_nothing
    updates :
        (f : Faults) (clock : Clock) (c : Change) (tx file_id : ℕ) (user : String)
        (m : FileMetadata)
        → select_file file_id w.cache ≡ some m
        → is_ok (update_file_metadata env f clock c tx file_id user w).1 ≡ true
        → Step w (update_file_metadata env f clock c tx file_id user w).0 (change_file file_id c)
    fails_to_update :
        (f : Faults) (clock : Clock) (c : Change) (tx file_id : ℕ) (user : String)
        (m : FileMetadata) (started : ℕ)
        → (found : select_file file_id w.cache ≡ some m) → f.lookup_ok ≡ true
        → (Updates.begun env f clock c tx file_id user w m found).1 ≡ ok started
        → f.cache_ok ≡ true
        → (get (path_of m) w.attrs ≡ none) ⊎ (f.attr_ok ≡ false)
        → Step w (update_file_metadata env f clock c tx file_id user w).0 do_nothing
    deletes :
        (f : Faults) (clock : Clock) (tx file_id : ℕ) (user : String) (m : FileMetadata)
        → select_file file_id w.cache ≡ some m
        → is_ok (delete_file_by_id env f clock tx file_id user w).1 ≡ true
        → Step w (delete_file_by_id env f clock tx file_id user w).0 (remove_file file_id)
    fails_to_delete :
        (f : Faults) (clock : Clock) (tx file_id : ℕ) (user : String) (m : FileMetadata)
        (started : ℕ)
        → env.backend ≡ local
        → f.lookup_ok ≡ true
        → select_file file_id w.cache ≡ some m
        → (Deletion.begun env f clock tx file_id user w m).1 ≡ ok started
        → get (path_of m) w.blobs ≡ none
        → Step w (delete_file_by_id env f clock tx file_id user w).0 do_nothing

  pub data Run : World → World → List Operation → Type 0 where
    done : {w : World} → Run w w []
    next :
        {w v z : World} {o : Operation} {os : List Operation}
        → Step w v o
        → Run v z os
        → Run w z (o ∷ os)

  abbrev pub Implements : World → World → Operation → Type 0
  Implements w v o = Separate v × ((j : ℕ) → view v j ≡ apply o (view w) j)
