-- ===== src/Storage/Writes.antt =====
-- What `write_file` and `delete_file` do to the store.
use art_store.Common.{
  ℕ, ◌≡◌, refl, String, Bool, false, List, [], ◌∷◌, ◌++◌, Option, none, some, arith, length,
  length-append, not, Bool-cases, inl, inr, is_ok, ◌≢◌, append-nil, append_assoc, if◌then◌else◌, ok,
  raise, Result, str_eq,
}
use art_store.Common.Json.{get, put, get-put}
use art_store.Storage.{Bytes, Blobs, StorageError, read_chunks, write_file, mismatch, write_failed}

-- The chunks up to the first empty one, joined.
abbrev pub stream : List Bytes → Bytes
stream [] = []
stream ([] ∷ chunks) = []
stream ((b ∷ bs) ∷ chunks) = (b ∷ bs) ++ stream chunks

read_chunks-stream :
    (chunks : List Bytes) (content : Bytes)
    → read_chunks chunks (content, length content)
      ≡ (content ++ stream chunks, length (content ++ stream chunks))
unfolding read_chunks
read_chunks-stream [] content = rw append-nil
read_chunks-stream ([] ∷ chunks) content = rw append-nil
read_chunks-stream ((b ∷ bs) ∷ chunks) content = rw (← length-append content (b ∷ bs)) (
    rw (← append_assoc content (b ∷ bs) (stream chunks))
      (read_chunks-stream chunks (content ++ b ∷ bs)))

pub read_chunks_start :
    (chunks : List Bytes) → read_chunks chunks ([], 0) ≡ (stream chunks, length (stream chunks))
read_chunks_start chunks = read_chunks-stream chunks []

module _ (sha256 : Bytes → String) (path : String) (content : Bytes) (before : Blobs) where
  -- What a write of the content has done, by how it ended.
  abbrev pub Wrote : Blobs × Result StorageError (ℕ × String) → Type 0
  Wrote (after, ok (size, digest)) =
      (size ≡ length content)
      × (digest ≡ sha256 content)
      × ((j : String) → get j after ≡ (if str_eq path j then some content else get j before))
  Wrote (after, raise e) = after ≡ before

-- A write that returns reports the size and the digest of the bytes that it read, has put exactly
-- these at its path, and has changed no other path; a write that raises has changed nothing.
pub write_file_lem :
    (sha256 : Bytes → String) (io_ok : Bool) (path : String) (chunks : List Bytes)
    (expected : Option ℕ) (blobs : Blobs)
    → Wrote sha256 path (stream chunks) blobs (write_file sha256 io_ok path chunks expected blobs)
unfolding write_file
write_file_lem sha256 io_ok path chunks expected blobs =
    rw (read_chunks_start chunks) (elim (Bool-cases io_ok) [
      | inl up ↦ elim (Bool-cases (mismatch expected (length (stream chunks)))) [
        | inl wrong ↦ rw (up, wrong) refl
        | inr fits ↦ rw (up, fits) (refl, refl, λ j. get-put j path (stream chunks) blobs)
      ]
      | inr down ↦ rw down refl
    ])

-- A write with no expected size, computed.
pub write_file_value :
    (sha256 : Bytes → String) (io_ok : Bool) (path : String) (chunks : List Bytes) (blobs : Blobs)
    → let content = stream chunks in
      write_file sha256 io_ok path chunks none blobs ≡ (
        if not io_ok
        then (blobs, raise write_failed)
        else (put path content blobs, ok (length content, sha256 content)))
unfolding write_file
write_file_value sha256 io_ok path chunks blobs = rw (read_chunks_start chunks)

-- With the expected size given, a file of any other size is refused and the store is unchanged.
pub write_file_refuses :
    (sha256 : Bytes → String) (io_ok : Bool) (path : String) (chunks : List Bytes) (n : ℕ)
    (blobs : Blobs)
    → length (stream chunks) ≢ n
    → let (after, r) = write_file sha256 io_ok path chunks (some n) blobs in
      (after ≡ blobs) × (is_ok r ≡ false)
unfolding write_file
write_file_refuses sha256 io_ok path chunks n blobs ne =
    rw (read_chunks_start chunks) (ground arith)
