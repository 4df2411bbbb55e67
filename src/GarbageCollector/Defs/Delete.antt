-- ===== src/GarbageCollector/Defs/Delete.antt =====
-- The processing of the queue: `_process_cleanup_queue` and `_delete_file_from_storage`.
use art_store.Common.{
  ℕ, ◌+◌, Bool, true, false, not, ◌&&◌, ◌||◌, List, [], ◌∷◌, ◌++◌, Option, none, some, is_some,
  take, keep_if, find_first, length, ltb, leb, ◌==◌, if◌then◌else◌,
}
use art_store.GarbageCollector.Defs.Model.{
  ElementStatus, online, unavailable, CleanupError, element_missing, element_unavailable, timeout,
  connection_failed, unexpected, mark_failed, http_error, Item, Element, Answer, status_code,
  timed_out, not_connected, raised, Setting, State, update_item, mark_deleted, order_items,
  is_element, Outcome, gone, unmarked, refused, retried,
}

-- What each outcome writes to the item. Only an element that is not online leaves it pending.
unfoldable pub settle_item : ℕ → Item → Outcome → Item
settle_item now i gone = record i { processed_at = some now; success = some true }
settle_item now i unmarked = record i {
  processed_at = some now;
  success = some false;
  error_message = some mark_failed;
  retry_count = i.retry_count + 1;
}
settle_item now i (refused e) = record i {
  processed_at = some now;
  success = some false;
  error_message = some e;
  retry_count = i.retry_count + 1;
}
settle_item now i (retried e) = record i { error_message = some e; retry_count = i.retry_count + 1 }

-- `_delete_file_from_storage`: none for success; a 404 counts as one.
unfoldable pub delete_error : Answer → Option CleanupError
delete_error (status_code code) =
    if code == 200 || (code == 204 || code == 404) then none else some (http_error code)
delete_error timed_out = some timeout
delete_error not_connected = some connection_failed
delete_error raised = some unexpected

module _ (c : Setting) (now : ℕ) where
  -- The query of `_process_cleanup_queue`.
  abbrev pub is_due : Item → Bool
  is_due i =
      not (is_some i.processed_at)
      && (leb i.scheduled_at now && ltb i.retry_count c.max_retry_count)

  abbrev pub due_items : List Item → List Item
  due_items queue = take c.batch_size (order_items (keep_if is_due queue))

  -- The tables and counts after an item has ended.
  unfoldable pub finish_item : Item → State → Outcome → State
  unfolding settle_item
  finish_item i s gone = record s {
    queue = update_item (settle_item now i gone) s.queue;
    files = mark_deleted now i.file_id i.cleanup_reason s.files;
    done = s.done + 1;
  }
  finish_item i s unmarked = record s {
    queue = update_item (settle_item now i unmarked) s.queue;
    done = s.done + 1;
    failed = s.failed + 1;
  }
  finish_item i s (refused e) = record s {
    queue = update_item (settle_item now i (refused e)) s.queue;
    failed = s.failed + 1;
  }
  finish_item i s (retried e) = record s {
    queue = update_item (settle_item now i (retried e)) s.queue;
    failed = s.failed + 1;
  }

  -- What the answer to the DELETE, and the update of the file's row after it, make of an item.
  abbrev pub outcome_of : Item → Option CleanupError → Outcome
  outcome_of i none = if c.mark_ok i.file_id then gone else unmarked
  outcome_of i (some e) = refused e

  -- The DELETE of an item at its element.
  unfoldable pub delete_item : Item → State → Element → State
  unfolding finish_item delete_error
  delete_item i s e =
      finish_item i
        (record s { sent = s.sent ++ record { api_url = e.api_url; file_id = i.file_id } ∷ [] })
        (outcome_of i (delete_error (c.answer (length s.sent))))

  -- An element that is not online is tried again later.
  unfoldable pub try_element : Item → State → Element → ElementStatus → State
  unfolding delete_item
  try_element i s e online = delete_item i s e
  try_element i s e unavailable = finish_item i s (retried element_unavailable)

  unfoldable pub find_element : Item → State → Option Element → State
  unfolding try_element
  find_element i s none = finish_item i s (refused element_missing)
  find_element i s (some e) = try_element i s e e.status

  -- The body of the loop of `_process_cleanup_queue`.
  unfoldable pub process_item : Item → State → State
  unfolding find_element
  process_item i s = find_element i s (find_first (is_element i.storage_element_id) c.elements)

  unfoldable pub process_items : List Item → State → State
  unfolding process_item
  process_items [] s = s
  process_items (i ∷ is) s = process_items is (process_item i s)

  unfoldable pub process_cleanup_queue : State → State
  unfolding process_items order_items
  process_cleanup_queue s = process_items (due_items s.queue) s
