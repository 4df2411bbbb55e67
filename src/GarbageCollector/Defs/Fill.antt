-- ===== src/GarbageCollector/Defs/Fill.antt =====
-- What fills the queue: the expired, the moved and the orphaned files.
use art_store.Common.{
  ℕ, ◌+◌, ◌*◌, String, Bool, false, not, ◌&&◌, List, [], ◌∷◌, ◌++◌, Option, none, some, is_some,
  take, keep_if, exists_in, leb, ◌==◌, if◌then◌else◌, str_eq,
}
use art_store.GarbageCollector.Defs.Model.{
  CleanupReason, ttl_expired, finalized, orphaned, Item, File, FinalizeRow, Setting, State,
}

-- `session.add` of an item.
unfoldable pub add_item : ℕ → String → Option String → ℕ → ℕ → CleanupReason → State → State
add_item file_id element path scheduled_at priority reason s = record s {
  queue =
      s.queue
      ++ record {
        id = s.next_id;
        file_id = file_id;
        storage_element_id = element;
        storage_path = path;
        scheduled_at = scheduled_at;
        priority = priority;
        cleanup_reason = reason;
        processed_at = none;
        success = none;
        error_message = none;
        retry_count = 0;
      }
        ∷ [];
  next_id = s.next_id + 1;
  done = s.done + 1;
}

abbrev pub is_pending_of : ℕ → Item → Bool
is_pending_of file_id i = i.file_id == file_id && not (is_some i.processed_at)

abbrev pub is_pending_at : ℕ → String → Item → Bool
is_pending_at file_id element i = is_pending_of file_id i && str_eq i.storage_element_id element

-- `scalar_one_or_none` of the pending items: none, one, or an exception for more, which is counted.
unfoldable pub unless_queued : List Item → State → State → State
unless_queued [] s added = added
unless_queued (i ∷ []) s added = s
unless_queued (i ∷ j ∷ is) s added = record s { failed = s.failed + 1 }

abbrev pub path_in : ℕ → List File → Option String
path_in file_id [] = none
path_in file_id (f ∷ fs) = if f.file_id == file_id then some f.storage_path else path_in file_id fs

abbrev pub is_unknown : List File → ℕ → Bool
is_unknown files id = not (exists_in (λ f. f.file_id == id) files)

-- The `set` of the files on an element.
abbrev pub distinct : List ℕ → List ℕ
distinct [] = []
distinct (x ∷ xs) =
    let rest = distinct xs in if exists_in (λ y. y == x) rest then rest else x ∷ rest

module _ (c : Setting) (now : ℕ) where
  abbrev pub reached : Option ℕ → Bool
  reached none = false
  reached (some t) = leb t now

  -- The sessions do not flush before a query, so that the queries for pending items see the queue that
  -- was stored before the run.

  -- The query and the loop of `_cleanup_expired_ttl`.
  abbrev pub is_expired : File → Bool
  is_expired f = f.is_temporary && (reached f.ttl_expires_at && not (is_some f.deleted_at))

  unfoldable pub queue_expired : List Item → List File → State → State
  unfolding add_item unless_queued
  queue_expired stored [] s = s
  queue_expired stored (f ∷ fs) s = queue_expired stored fs (
      unless_queued (keep_if (is_pending_of f.file_id) stored) s
        (add_item f.file_id f.storage_element_id (some f.storage_path) now 10 ttl_expired s))

  unfoldable pub cleanup_expired_ttl : List Item → State → State
  unfolding queue_expired
  cleanup_expired_ttl stored s =
      queue_expired stored (take c.batch_size (keep_if is_expired s.files)) s

  -- The query and the loop of `_cleanup_finalized_files`.
  abbrev pub after_margin : Option ℕ → Bool
  after_margin none = false
  after_margin (some t) = leb (t + c.safety_margin_hours * 3600) now

  abbrev pub is_ready : FinalizeRow → Bool
  is_ready t = t.is_completed && after_margin t.completed_at

  unfoldable pub queue_finalized : List Item → List FinalizeRow → State → State
  unfolding add_item unless_queued
  queue_finalized stored [] s = s
  queue_finalized stored (t ∷ ts) s = queue_finalized stored ts (
      unless_queued (keep_if (is_pending_at t.file_id t.source_se) stored) s
        (add_item t.file_id t.source_se (path_in t.file_id s.files) now 10 finalized s))

  unfoldable pub cleanup_finalized_files : List Item → State → State
  unfolding queue_finalized
  cleanup_finalized_files stored s =
      queue_finalized stored (take c.batch_size (keep_if is_ready c.transactions)) s

  -- The loop of `cleanup_orphaned_files`, over the files of an element that the table does not know.
  unfoldable pub queue_orphaned : List Item → String → List ℕ → State → State
  unfolding add_item unless_queued
  queue_orphaned stored element [] s = s
  queue_orphaned stored element (file_id ∷ ids) s = queue_orphaned stored element ids (
      unless_queued (keep_if (is_pending_at file_id element) stored) s
        (add_item file_id element none (now + c.orphan_grace_days * 86400) 0 orphaned s))

  unfoldable pub cleanup_orphaned_files : String → List ℕ → State → State
  unfolding queue_orphaned
  cleanup_orphaned_files element on_storage s =
      queue_orphaned s.queue element (keep_if (is_unknown s.files) (distinct on_storage)) s
