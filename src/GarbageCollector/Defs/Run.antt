-- ===== src/GarbageCollector/Defs/Run.antt =====
-- One run of the collector.
use art_store.Common.{ℕ, Bool, if◌then◌else◌}
use art_store.GarbageCollector.Defs.Model.{Setting, State}
use art_store.GarbageCollector.Defs.Delete.{process_cleanup_queue}
use art_store.GarbageCollector.Defs.Fill.{cleanup_expired_ttl, cleanup_finalized_files}

module _ (c : Setting) (now : ℕ) where
  -- The `try` of `run_garbage_collection` before its commit.
  unfoldable pub run_steps : State → State
  unfolding process_cleanup_queue cleanup_expired_ttl cleanup_finalized_files
  run_steps s =
      cleanup_finalized_files c now s.queue
        (cleanup_expired_ttl c now s.queue (process_cleanup_queue c now s))

  -- `run_garbage_collection`: a commit that fails rolls the tables back, and the requests stay sent.
  unfoldable pub run_garbage_collection : Bool → State → State
  unfolding run_steps
  run_garbage_collection commit_ok s =
      let ran = run_steps s in if commit_ok then ran else record s { sent = ran.sent }
