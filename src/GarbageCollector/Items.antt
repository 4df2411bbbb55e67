-- ===== src/GarbageCollector/Items.antt =====
-- What fills the queue keeps its items sound, and so does every run.
use art_store.Common.{
  ==_refl, str_eq_refl, exists_in-mem, ℕ, ◌+◌, ◌*◌, ◌≡◌, refl, String, Bool, true, false, List, [],
  ◌∷◌, Option, none, some, take, keep_if, arith, All, Memᴰ, mem-take, mem-keep_if,
}
use art_store.GarbageCollector.Defs.{
  distinct, is_unknown, cleanup_orphaned_files, is_expired, queue_orphaned, cleanup_expired_ttl,
  is_pending_of, path_in, File, is_pending_at, run_steps, after_margin, cleanup_finalized_files,
  is_ready, process_cleanup_queue, queue_expired, queue_finalized, run_garbage_collection, Item,
  Setting, State, FinalizeRow, CleanupReason, finalized, ttl_expired, orphaned, add_item,
  unless_queued,
}
use art_store.GarbageCollector.Backing.{
  before_margin, backs, margin, Backed, IsSound, All-append_one, process_cleanup_queue-IsSound,
}

module _ (c : Setting) where
  module _ (now : ℕ) where
    unless_queued-IsSound :
        (pending : List Item) (s added : State)
        → All (IsSound c) s.queue
        → All (IsSound c) added.queue
        → All (IsSound c) (unless_queued pending s added).queue
    unfolding unless_queued
    unless_queued-IsSound [] s added hs ha = ha
    unless_queued-IsSound (i ∷ []) s added hs ha = hs
    unless_queued-IsSound (i ∷ j ∷ is) s added hs ha = hs

    add_item-IsSound :
        (file_id : ℕ) (element : String) (path : Option String) (at_time priority : ℕ)
        (reason : CleanupReason) (s : State)
        → Backed c reason file_id element at_time
        → All (IsSound c) s.queue
        → All (IsSound c) (add_item file_id element path at_time priority reason s).queue
    unfolding add_item
    add_item-IsSound file_id element path at_time priority reason s h hs =
        All-append_one c s.queue _ hs (record { backed = h; tried = omega arith; ended = refl })

    queue_expired-IsSound :
        (stored : List Item) (fs : List File) (s : State)
        → All (IsSound c) s.queue
        → All (IsSound c) (queue_expired c now stored fs s).queue
    unfolding queue_expired
    queue_expired-IsSound stored [] s hs = hs
    queue_expired-IsSound stored (f ∷ fs) s hs = queue_expired-IsSound stored fs _ (
        unless_queued-IsSound (keep_if (is_pending_of f.file_id) stored) s _ hs (
          add_item-IsSound f.file_id f.storage_element_id (some f.storage_path) now 10 ttl_expired s
            tt hs))

    queue_finalized-IsSound :
        (stored : List Item) (ts : List FinalizeRow) (s : State)
        → ((t : FinalizeRow) → Memᴰ t ts → Backed c finalized t.file_id t.source_se now)
        → All (IsSound c) s.queue
        → All (IsSound c) (queue_finalized c now stored ts s).queue
    unfolding queue_finalized
    queue_finalized-IsSound stored [] s ready hs = hs
    queue_finalized-IsSound stored (t ∷ ts) s ready hs =
        queue_finalized-IsSound stored ts _ (λ x m. ready x (Memᴰ.tail m))
          (unless_queued-IsSound (keep_if (is_pending_at t.file_id t.source_se) stored) s _ hs (
            add_item-IsSound t.file_id t.source_se (path_in t.file_id s.files) now 10 finalized s
              (ready t (Memᴰ.head refl)) hs))

    before-after_margin :
        (done : Option ℕ)
        → after_margin c now done ≡ true
        → before_margin (margin c) done now ≡ true
    before-after_margin none h = h
    before-after_margin (some t) h = h

    backs-is_ready :
        (t : FinalizeRow)
        → is_ready c now t ≡ true
        → backs (margin c) t.file_id t.source_se now t ≡ true
    backs-is_ready t h =
        let held : t.is_completed ≡ true = ground arith in
        let late : after_margin c now t.completed_at ≡ true = ground arith in
        rw
          (
            str_eq_refl t.source_se,
            held,
            before-after_margin t.completed_at late,
            ==_refl t.file_id,
          )
          refl

    cleanup_finalized_files-IsSound :
        (stored : List Item) (s : State)
        → All (IsSound c) s.queue
        → All (IsSound c) (cleanup_finalized_files c now stored s).queue
    unfolding cleanup_finalized_files
    cleanup_finalized_files-IsSound stored s hs =
        queue_finalized-IsSound stored (take c.batch_size (keep_if (is_ready c now) c.transactions))
          s
          (λ t m.
            let (there, ready) =
              mem-keep_if (is_ready c now) t c.transactions
                (mem-take c.batch_size t (keep_if (is_ready c now) c.transactions) m) in
            exists_in-mem (backs (margin c) t.file_id t.source_se now) t c.transactions there
              (backs-is_ready t ready))
          hs

    cleanup_expired_ttl-IsSound :
        (stored : List Item) (s : State)
        → All (IsSound c) s.queue
        → All (IsSound c) (cleanup_expired_ttl c now stored s).queue
    unfolding cleanup_expired_ttl
    cleanup_expired_ttl-IsSound stored s hs =
        queue_expired-IsSound stored (take c.batch_size (keep_if (is_expired c now) s.files)) s hs

    queue_orphaned-IsSound :
        (stored : List Item) (element : String) (ids : List ℕ) (s : State)
        → All (IsSound c) s.queue
        → All (IsSound c) (queue_orphaned c now stored element ids s).queue
    unfolding queue_orphaned
    queue_orphaned-IsSound stored element [] s hs = hs
    queue_orphaned-IsSound stored element (f ∷ fs) s hs =
        queue_orphaned-IsSound stored element fs _ (
          unless_queued-IsSound (keep_if (is_pending_at f element) stored) s _ hs (
            add_item-IsSound f element none (now + c.orphan_grace_days * 86400) 0 orphaned s tt hs))

    -- A run of the collector, committed or rolled back, and a cleanup of an element's orphaned files keep
    -- every queue item sound: an item for a moved file is backed by a completed transaction away from
    -- its element that ended the safety margin before the item's time, no item was tried more often than
    -- is allowed, and an item has a result exactly if it was processed.
    pub run_garbage_collection-IsSound :
        (commit_ok : Bool) (element : String) (on_storage : List ℕ) (s : State)
        → All (IsSound c) s.queue
        → All (IsSound c) (run_garbage_collection c now commit_ok s).queue
          × All (IsSound c) (cleanup_orphaned_files c now element on_storage s).queue
    unfolding run_garbage_collection run_steps cleanup_orphaned_files
    run_garbage_collection-IsSound true element ids s hs = (
      cleanup_finalized_files-IsSound s.queue
          (cleanup_expired_ttl c now s.queue (process_cleanup_queue c now s))
          (cleanup_expired_ttl-IsSound s.queue (process_cleanup_queue c now s)
            (process_cleanup_queue-IsSound c now s hs)),
      queue_orphaned-IsSound s.queue element (keep_if (is_unknown s.files) (distinct ids)) s hs,
    )
    run_garbage_collection-IsSound false element ids s hs = (
      hs,
      queue_orphaned-IsSound s.queue element (keep_if (is_unknown s.files) (distinct ids)) s hs,
    )
