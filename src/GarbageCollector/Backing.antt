-- ===== src/GarbageCollector/Backing.antt =====
-- What holds of the items of the queue, and the processing of the queue keeps it.
use art_store.Common.{
  mem-sort_where, length, mem-All, ℕ, ◌+◌, ◌*◌, ◌≤◌, ◌≡◌, refl, inl, inr, String, Bool, true, false,
  ◌&&◌, List, [], ◌∷◌, ◌++◌, Option, none, some, is_some, keep_if, exists_in, find_first, leb, ◌==◌,
  str_eq, arith, All, All-append, Memᴰ, mem-take, mem-keep_if, All-mem, Bool-cases,
}
use art_store.GarbageCollector.Defs.{
  unmarked, online, unavailable, element_unavailable, delete_error, outcome_of, ElementStatus,
  delete_item, process_cleanup_queue, try_element, element_missing, is_element, Element,
  process_item, find_element, process_items, Item, Setting, State, FinalizeRow, CleanupReason,
  finalized, Outcome, gone, refused, retried, settle_item, update_item, order_items, goes_first,
  is_due, due_items, finish_item,
}

mem-order_items : (x : Item) (ys : List Item) → Memᴰ x (order_items ys) → Memᴰ x ys
unfolding order_items
mem-order_items x ys h = mem-sort_where goes_first x ys h

-- An item that the query gives stands in the queue and is due.
pub due_items-mem :
    (c : Setting) (now : ℕ) (queue : List Item) (x : Item)
    → Memᴰ x (due_items c now queue)
    → Memᴰ x queue × (is_due c now x ≡ true)
due_items-mem c now queue x h = mem-keep_if (is_due c now) x queue (
    mem-order_items x (keep_if (is_due c now) queue)
      (mem-take c.batch_size x (order_items (keep_if (is_due c now) queue)) h))

-- The transaction moved the item's file away from the item's element, and was completed at least the
-- safety margin before the item's time.
abbrev pub before_margin : ℕ → Option ℕ → ℕ → Bool
before_margin margin none at_time = false
before_margin margin (some t) at_time = leb (t + margin) at_time

abbrev pub backs : ℕ → ℕ → String → ℕ → FinalizeRow → Bool
backs margin file_id element at_time t =
    t.file_id == file_id
    && (str_eq t.source_se element
        && (t.is_completed && before_margin margin t.completed_at at_time))

module _ (c : Setting) where
  abbrev pub margin : ℕ
  margin = c.safety_margin_hours * 3600

  abbrev pub Backed : CleanupReason → ℕ → String → ℕ → Type 0
  Backed finalized file_id element at_time =
      exists_in (backs margin file_id element at_time) c.transactions ≡ true
  Backed _ file_id element at_time = Unit

  -- An item for a moved file is backed by a completed transaction, it has been tried no more often than
  -- is allowed, and it has a result exactly if it was processed.
  pub record IsSound (i : Item) : Type 0 where
    pub backed : Backed i.cleanup_reason i.file_id i.storage_element_id i.scheduled_at
    pub tried : i.retry_count ≤ c.max_retry_count
    pub ended : is_some i.processed_at ≡ is_some i.success

  All-update_item :
      (new : Item) (queue : List Item)
      → IsSound new
      → All IsSound queue
      → All IsSound (update_item new queue)
  All-update_item new [] h hs = tt
  All-update_item new (x ∷ xs) h hs = elim (Bool-cases (x.id == new.id)) [
    | inl here ↦ rw here (h, All-update_item new xs h hs.1)
    | inr other ↦ rw other (hs.0, All-update_item new xs h hs.1)
  ]

  settle_item-IsSound :
      (now : ℕ) (i : Item) (o : Outcome)
      → is_due c now i ≡ true
      → IsSound i
      → IsSound (settle_item now i o)
  unfolding settle_item
  settle_item-IsSound now i gone due h = record { backed = h.backed; tried = h.tried; ended = refl }
  settle_item-IsSound now i unmarked due h = record {
    backed = h.backed;
    tried = ground arith;
    ended = refl;
  }
  settle_item-IsSound now i (refused e) due h = record {
    backed = h.backed;
    tried = ground arith;
    ended = refl;
  }
  settle_item-IsSound now i (retried e) due h = record {
    backed = h.backed;
    tried = ground arith;
    ended = h.ended;
  }

  pub All-append_one :
      (xs : List Item) (x : Item) → All IsSound xs → IsSound x → All IsSound (xs ++ x ∷ [])
  All-append_one xs x hs h = All-append IsSound xs (x ∷ []) hs (h, tt)

  module _ (now : ℕ) where
    finish_item-IsSound :
        (i : Item) (s : State) (o : Outcome)
        → is_due c now i ≡ true
        → IsSound i
        → All IsSound s.queue
        → All IsSound (finish_item c now i s o).queue
    unfolding finish_item
    finish_item-IsSound i s gone due h hs =
        All-update_item (settle_item now i gone) s.queue (settle_item-IsSound now i gone due h) hs
    finish_item-IsSound i s unmarked due h hs =
        All-update_item (settle_item now i unmarked) s.queue
          (settle_item-IsSound now i unmarked due h) hs
    finish_item-IsSound i s (refused e) due h hs =
        All-update_item (settle_item now i (refused e)) s.queue
          (settle_item-IsSound now i (refused e) due h) hs
    finish_item-IsSound i s (retried e) due h hs =
        All-update_item (settle_item now i (retried e)) s.queue
          (settle_item-IsSound now i (retried e) due h) hs

    try_element-IsSound :
        (i : Item) (s : State) (e : Element) (status : ElementStatus)
        → is_due c now i ≡ true
        → IsSound i
        → All IsSound s.queue
        → All IsSound (try_element c now i s e status).queue
    unfolding try_element delete_item
    try_element-IsSound i s e online due h hs =
        finish_item-IsSound i
          (record s { sent = s.sent ++ record { api_url = e.api_url; file_id = i.file_id } ∷ [] })
          (outcome_of c now i (delete_error (c.answer (length s.sent)))) due h hs
    try_element-IsSound i s e unavailable due h hs =
        finish_item-IsSound i s (retried element_unavailable) due h hs

    find_element-IsSound :
        (i : Item) (s : State) (found : Option Element)
        → is_due c now i ≡ true
        → IsSound i
        → All IsSound s.queue
        → All IsSound (find_element c now i s found).queue
    unfolding find_element
    find_element-IsSound i s none due h hs =
        finish_item-IsSound i s (refused element_missing) due h hs
    find_element-IsSound i s (some e) due h hs = try_element-IsSound i s e e.status due h hs

    process_items-IsSound :
        (is : List Item) (s : State)
        → ((x : Item) → Memᴰ x is → is_due c now x ≡ true)
        → All IsSound is
        → All IsSound s.queue
        → All IsSound (process_items c now is s).queue
    unfolding process_items process_item
    process_items-IsSound [] s due his hs = hs
    process_items-IsSound (i ∷ is) s due his hs =
        process_items-IsSound is (process_item c now i s) (λ x m. due x (Memᴰ.tail m)) his.1
          (find_element-IsSound i s (find_first (is_element i.storage_element_id) c.elements)
            (due i (Memᴰ.head refl)) his.0 hs)

    pub process_cleanup_queue-IsSound :
        (s : State) → All IsSound s.queue → All IsSound (process_cleanup_queue c now s).queue
    unfolding process_cleanup_queue
    process_cleanup_queue-IsSound s hs =
        process_items-IsSound (due_items c now s.queue) s
          (λ x m. (due_items-mem c now s.queue x m).1)
          (mem-All IsSound (due_items c now s.queue)
            (λ x m. All-mem IsSound x s.queue hs (due_items-mem c now s.queue x m).0))
          hs
