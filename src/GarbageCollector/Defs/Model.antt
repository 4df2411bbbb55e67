-- ===== src/GarbageCollector/Defs/Model.antt =====
-- The tables of app/models/cleanup_queue.py and what the collector keeps in a run.
use art_store.Common.{
  sort_where, ℕ, String, Bool, List, [], ◌∷◌, Option, some, ltb, leb, ◌==◌, if◌then◌else◌, str_eq,
}

-- `CleanupReason`
pub data CleanupReason : Type 0 where
  ttl_expired finalized orphaned manual : CleanupReason

-- `StorageStatus`, of which only `ONLINE` counts here.
pub data ElementStatus : Type 0 where
  online unavailable : ElementStatus

pub data CleanupError : Type 0 where
  element_missing element_unavailable timeout connection_failed unexpected mark_failed :
      CleanupError
  http_error : ℕ → CleanupError

-- `FileCleanupQueue`
pub record Item : Type 0 where
  pub id : ℕ
  pub file_id : ℕ
  pub storage_element_id : String
  pub storage_path : Option String
  pub scheduled_at : ℕ
  pub priority : ℕ
  pub cleanup_reason : CleanupReason
  pub processed_at : Option ℕ
  pub success : Option Bool
  pub error_message : Option CleanupError
  pub retry_count : ℕ

-- The columns of `File` that the collector reads and writes.
pub record File : Type 0 where
  pub file_id : ℕ
  pub storage_element_id : String
  pub storage_path : String
  pub is_temporary : Bool
  pub ttl_expires_at : Option ℕ
  pub deleted_at : Option ℕ
  pub deletion_reason : Option CleanupReason

-- The columns of `FileFinalizeTransaction` that it reads.
pub record FinalizeRow : Type 0 where
  pub file_id : ℕ
  pub source_se : String
  pub is_completed : Bool
  pub completed_at : Option ℕ

pub record Element : Type 0 where
  pub name : String
  pub api_url : String
  pub status : ElementStatus

-- How a DELETE is answered.
pub data Answer : Type 0 where
  status_code : ℕ → Answer
  timed_out not_connected raised : Answer

-- A DELETE that was sent.
pub record Request : Type 0 where
  pub api_url : String
  pub file_id : ℕ

-- The settings, with the tables that a run does not change, and what is not the collector's own: the
-- answer to each DELETE, by the number of those sent before it, and whether the update of the row of a
-- file works.
pub record Setting : Type 0 where
  pub batch_size : ℕ
  pub safety_margin_hours : ℕ
  pub orphan_grace_days : ℕ
  pub max_retry_count : ℕ
  pub elements : List Element
  pub transactions : List FinalizeRow
  pub answer : ℕ → Answer
  pub mark_ok : ℕ → Bool

-- The tables that a run changes, the requests that it has sent, and its counts.
pub record State : Type 0 where
  pub queue : List Item
  pub files : List File
  pub next_id : ℕ
  pub sent : List Request
  pub done : ℕ
  pub failed : ℕ

-- The flush of an item, `UPDATE file_cleanup_queue … WHERE id = …`.
abbrev pub update_item : Item → List Item → List Item
update_item new [] = []
update_item new (x ∷ xs) =
    let rest = update_item new xs in if x.id == new.id then new ∷ rest else x ∷ rest

-- `UPDATE files … WHERE file_id = …`
abbrev pub mark_deleted : ℕ → ℕ → CleanupReason → List File → List File
mark_deleted now file_id reason [] = []
mark_deleted now file_id reason (f ∷ fs) =
    let rest = mark_deleted now file_id reason fs in
    if f.file_id == file_id
    then record f { deleted_at = some now; deletion_reason = some reason } ∷ rest
    else f ∷ rest

-- `ORDER BY priority DESC, scheduled_at ASC`, ties in the order of the table.
abbrev pub goes_first : Item → Item → Bool
goes_first a b =
    if a.priority == b.priority
    then leb a.scheduled_at b.scheduled_at
    else ltb b.priority a.priority

unfoldable pub order_items : List Item → List Item
order_items items = sort_where goes_first items

abbrev pub is_element : String → Element → Bool
is_element name e = str_eq e.name name

-- How the processing of an item ends: deleted, deleted with its file's row not updated (counted as both),
-- not deleted, or left for a later run.
pub data Outcome : Type 0 where
  gone unmarked : Outcome
  refused : CleanupError → Outcome
  retried : CleanupError → Outcome
