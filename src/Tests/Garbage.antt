-- ===== src/Tests/Garbage.antt =====
-- The garbage collector on concrete tables.
use art_store.Common.{ℕ, ◌≡◌, refl, true, false, [], ◌∷◌, none, some, All, arith}
use art_store.GarbageCollector.{
  Item, File, Element, Setting, State, finalized, online, unavailable, status_code,
  run_garbage_collection, cleanup_orphaned_files,
}
use art_store.GarbageCollector.Backing.{IsSound}
use art_store.GarbageCollector.Items.{run_garbage_collection-IsSound}

abbrev edit_se : Element
edit_se = record { name = "se-edit"; api_url = "http://edit"; status = online }

abbrev moved : Item
moved = record {
  id = 0;
  file_id = 7;
  storage_element_id = "se-edit";
  storage_path = none;
  scheduled_at = 3600;
  priority = 10;
  cleanup_reason = finalized;
  processed_at = none;
  success = none;
  error_message = none;
  retry_count = 0;
}

-- The file stands on the target element.
abbrev row : File
row = record {
  file_id = 7;
  storage_element_id = "se-rw";
  storage_path = "/data/7";
  is_temporary = false;
  ttl_expires_at = none;
  deleted_at = none;
  deletion_reason = none;
}

abbrev setting : ℕ → Setting
setting code = record {
  batch_size = 100;
  safety_margin_hours = 1;
  orphan_grace_days = 7;
  max_retry_count = 3;
  elements =
      edit_se ∷ record { name = "se-off"; api_url = "http://off"; status = unavailable } ∷ [];
  transactions =
      record { file_id = 7; source_se = "se-edit"; is_completed = true; completed_at = some 0 }
      ∷ [];
  answer = λ n. status_code code;
  mark_ok = λ n. true;
}

abbrev state : State
state = record {
  queue = moved ∷ [];
  files = row ∷ [];
  next_id = 1;
  sent = [];
  done = 0;
  failed = 0;
}

state-IsSound : (code : ℕ) → All (IsSound (setting code)) state.queue
state-IsSound code = (record { backed = refl; tried = omega arith; ended = refl }, tt)

sent_one :
    (run_garbage_collection (setting 200) 5000 true state).sent
    ≡ record { api_url = "http://edit"; file_id = 7 } ∷ []
unfolding run_garbage_collection
sent_one = refl

run_garbage_collection-IsSound_example :
    All (IsSound (setting 500)) (run_garbage_collection (setting 500) 5000 true state).queue
    × All
        (IsSound (setting 500))
        (cleanup_orphaned_files (setting 500) 5000 "se-off" (1 ∷ 7 ∷ []) state).queue
run_garbage_collection-IsSound_example =
    run_garbage_collection-IsSound (setting 500) 5000 true "se-off" (1 ∷ 7 ∷ []) state
      (state-IsSound 500)
