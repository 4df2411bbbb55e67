-- ===== src/Storage.antt =====
-- storage-element/app/services/storage_service.py: the physical store of a storage element, as a map
-- from relative paths to contents. Temporary files are not paths of the map: a write replaces the
-- file at its target, or leaves the map alone.
pub mod Writes
use art_store.Common.{
  ℕ, ◌+◌, String, Bool, true, false, not, List, [], ◌∷◌, ◌++◌, Option, none, some, is_some, length,
  ◌==◌, if◌then◌else◌, Result, ok, raise,
}
use art_store.Common.Json.{Dict, get, put, remove}

abbrev pub Bytes : Type 0
Bytes = List ℕ

abbrev pub Blobs : Type 0
Blobs = Dict Bytes

-- `LocalStorageService` and `S3StorageService`
pub data Backend : Type 0 where
  local s3 : Backend

-- `StorageException`, by its error code.
pub data StorageError : Type 0 where
  size_mismatch : ℕ → ℕ → StorageError
  write_failed : StorageError
  not_found : String → StorageError
  delete_failed : StorageError

-- The loop of `write_file` over what the reads return: it ends at the first empty chunk. The state
-- is the content so far, with its size.
unfoldable pub read_chunks : List Bytes → Bytes × ℕ → Bytes × ℕ
read_chunks [] acc = acc
read_chunks ([] ∷ chunks) acc = acc
read_chunks ((b ∷ bs) ∷ chunks) (content, total_size) =
    read_chunks chunks (content ++ (b ∷ bs), total_size + length (b ∷ bs))

abbrev pub mismatch : Option ℕ → ℕ → Bool
mismatch none total = false
mismatch (some n) total = not (total == n)

abbrev pub expected_or_zero : Option ℕ → ℕ
expected_or_zero none = 0
expected_or_zero (some n) = n

-- `write_file`; `io_ok` says that the calls of the file system or of S3 return, and `sha256` is
-- `hashlib`'s hex digest.
unfoldable pub write_file :
    (Bytes → String)
    → Bool
    → String
    → List Bytes
    → Option ℕ
    → Blobs
    → Blobs × Result StorageError (ℕ × String)
unfolding read_chunks
write_file sha256 io_ok path chunks expected_size blobs =
    let (content, total_size) = read_chunks chunks ([], 0) in
    if not io_ok
    then (blobs, raise write_failed)
    else if mismatch expected_size total_size
    then (blobs, raise (size_mismatch (expected_or_zero expected_size) total_size))
    else (put path content blobs, ok (total_size, sha256 content))

abbrev pub file_exists : String → Blobs → Bool
file_exists path blobs = is_some (get path blobs)

-- `delete_file`: a local file must exist, and S3 deletes an absent object without complaint.
unfoldable pub delete_file :
    Backend → Bool → String → Blobs → Blobs × Result StorageError (Unit {0})
delete_file local io_ok path blobs =
    if not (file_exists path blobs)
    then (blobs, raise (not_found path))
    else if io_ok
    then (remove path blobs, ok tt)
    else (blobs, raise delete_failed)
delete_file s3 io_ok path blobs =
    if io_ok then (remove path blobs, ok tt) else (blobs, raise delete_failed)

-- `get_file_size` of the local store.
unfoldable pub get_file_size : String → Blobs → Result StorageError ℕ
get_file_size path blobs = elim (get path blobs) [
  | none ↦ raise (not_found path)
  | some content ↦ ok (length content)
]
