-- ===== src/StorageMode/Permissions.antt =====
-- What each mode permits, and how the permissions shrink along the life of an element.
use art_store.Common.{
  ◌≡◌, ◌↔◌, ◌≢◌, String, true, false, List, [], ◌∷◌, arith, str_eq_iff, Option-cases, inl, inr,
}
use art_store.StorageMode.{
  StorageMode, edit, Machine, can_perform_operation, transition_to, TransitionRecord, run, Request,
  get_mode_info,
}
use art_store.StorageMode.Transitions.{
  Edge, freeze, archive, transition_to-Edge_iff, transition_to_error_unchanged,
  transition_to_accepted,
}

-- `delete` is permitted in the edit mode and in no other.
pub can_delete_iff_edit :
    (m : Machine) → (can_perform_operation m "delete" ≡ true) ↔ (m.current_mode ≡ edit)
unfolding can_perform_operation
can_delete_iff_edit m = ground arith

-- The operations that change files.
abbrev pub write_operations : List String
write_operations = "create" ∷ "update" ∷ "delete" ∷ []

-- `get_mode_info` reports an element read-only exactly when its mode permits none of create, update
-- and delete.
pub read_only_iff :
    (m : Machine)
    → ((get_mode_info m).read_only ≡ true) ↔ (
        (can_perform_operation m "create" ≡ false)
        × (can_perform_operation m "update" ≡ false)
        × (can_perform_operation m "delete" ≡ false))
unfolding get_mode_info
read_only_iff m = ground arith

Edge-shrinks :
    (m n : StorageMode) (h k : List TransitionRecord) (op : String)
    → Edge m n
    → op ≢ "metadata"
    → can_perform_operation (record { current_mode = n; transition_history = k }) op ≡ true
    → can_perform_operation (record { current_mode = m; transition_history = h }) op ≡ true
unfolding can_perform_operation
Edge-shrinks m n h k op freeze ne p = ground arith
Edge-shrinks m n h k op archive ne p = ground (arith, str_eq_iff op "metadata")

transition_shrinks :
    (m : Machine) (q : Request) (op : String)
    → op ≢ "metadata"
    → can_perform_operation (transition_to m q.target q.reason q.at_time).0 op ≡ true
    → can_perform_operation m op ≡ true
transition_shrinks m q op ne p =
    elim (Option-cases (transition_to m q.target q.reason q.at_time).1) [
      | inl fine ↦
          Edge-shrinks m.current_mode q.target m.transition_history
            (transition_to m q.target q.reason q.at_time).0.transition_history op
            ((transition_to-Edge_iff m q.target q.reason q.at_time).0 fine) ne
            (ground (arith, transition_to_accepted m q.target q.reason q.at_time))
      | inr (e, raised) ↦
          rw (transition_to_error_unchanged m q.target q.reason q.at_time raised) at p
    ]

-- Mode changes never grant anything but `metadata`: an operation that is permitted after any
-- sequence of requests was permitted before it.
pub run_shrinks :
    (m : Machine) (qs : List Request) (op : String)
    → op ≢ "metadata"
    → can_perform_operation (run m qs) op ≡ true
    → can_perform_operation m op ≡ true
unfolding run
run_shrinks m [] op ne p = p
run_shrinks m (q ∷ qs) op ne p =
    transition_shrinks m q op ne
      (run_shrinks (transition_to m q.target q.reason q.at_time).0 qs op ne p)
