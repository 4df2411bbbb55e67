-- ===== src/StorageMode.antt =====
-- storage-element/app/core/storage_mode.py: the mode state machine of a storage element.
-- A set is a list of its members; `timestamp` is the clock's reading, passed in.
pub mod Transitions
pub mod Permissions
use art_store.Common.{
  ℕ, String, Bool, true, false, not, List, [], ◌∷◌, ◌++◌, Option, none, some, contains, map,
  if◌then◌else◌,
}

pub data StorageMode : Type 0 where
  edit rw_mode ro ar : StorageMode

abbrev pub value : StorageMode → String
value edit = "edit"
value rw_mode = "rw"
value ro = "ro"
value ar = "ar"

abbrev pub mode_eq : StorageMode → StorageMode → Bool
mode_eq edit edit = true
mode_eq rw_mode rw_mode = true
mode_eq ro ro = true
mode_eq ar ar = true
mode_eq _ _ = false

abbrev pub has_mode : StorageMode → List StorageMode → Bool
has_mode m [] = false
has_mode m (n ∷ ns) = if mode_eq m n then true else has_mode m ns

-- `VALID_TRANSITIONS`
unfoldable pub valid_transitions : StorageMode → List StorageMode
valid_transitions edit = []
valid_transitions rw_mode = ro ∷ []
valid_transitions ro = ar ∷ []
valid_transitions ar = []

-- `OPERATIONS`
unfoldable pub operations : StorageMode → List String
operations edit = "create" ∷ "read" ∷ "update" ∷ "delete" ∷ []
operations rw_mode = "create" ∷ "read" ∷ "update" ∷ []
operations ro = "read" ∷ []
operations ar = "metadata" ∷ []

pub record TransitionRecord : Type 0 where
  pub from_mode : String
  pub to_mode : String
  pub timestamp : ℕ
  pub reason : Option String

-- `StorageModeStateMachine`
pub record Machine : Type 0 where
  pub current_mode : StorageMode
  pub transition_history : List TransitionRecord

pub data ModeError : Type 0 where
  already_in : StorageMode → ModeError
  cannot_transition : StorageMode → StorageMode → List String → ModeError
  permission_error : String → StorageMode → List String → ModeError

-- `__init__`
unfoldable pub init : StorageMode → Machine
init m = record { current_mode = m; transition_history = [] }

unfoldable pub can_transition_to : Machine → StorageMode → Bool
unfolding valid_transitions
can_transition_to m target = has_mode target (valid_transitions m.current_mode)

-- `validate_transition`: the exception that it raises, if any.
unfoldable pub validate_transition : Machine → StorageMode → Option ModeError
unfolding can_transition_to
validate_transition m target =
    if mode_eq m.current_mode target
    then some (already_in target)
    else if not (can_transition_to m target)
    then some
        (cannot_transition m.current_mode target (map value (valid_transitions m.current_mode)))
    else none

-- `transition_to`: the machine afterwards, and the exception if one is raised.
unfoldable pub transition_to :
    Machine → StorageMode → Option String → ℕ → Machine × Option ModeError
unfolding validate_transition
transition_to m target reason now = elim (validate_transition m target) [
  | some e ↦ (m, some e)
  | none ↦ (
    record {
      current_mode = target;
      transition_history =
          m.transition_history
          ++ record {
            from_mode = value m.current_mode;
            to_mode = value target;
            timestamp = now;
            reason = reason;
          }
            ∷ [];
    },
    none,
  )
]

unfoldable pub can_perform_operation : Machine → String → Bool
unfolding operations
can_perform_operation m operation = contains operation (operations m.current_mode)

-- `validate_operation`: the `PermissionError` that it raises, if any.
unfoldable pub validate_operation : Machine → String → Option ModeError
unfolding can_perform_operation
validate_operation m operation =
    if not (can_perform_operation m operation)
    then some (permission_error operation m.current_mode (operations m.current_mode))
    else none

-- `get_mode_info`
pub record ModeInfo : Type 0 where
  pub current_mode : String
  pub allowed_operations : List String
  pub possible_transitions : List String
  pub can_delete : Bool
  pub can_create : Bool
  pub can_update : Bool
  pub read_only : Bool
  pub is_archived : Bool

unfoldable pub get_mode_info : Machine → ModeInfo
unfolding can_perform_operation valid_transitions operations
get_mode_info m = record {
  current_mode = value m.current_mode;
  allowed_operations = operations m.current_mode;
  possible_transitions = map value (valid_transitions m.current_mode);
  can_delete = can_perform_operation m "delete";
  can_create = can_perform_operation m "create";
  can_update = can_perform_operation m "update";
  read_only = has_mode m.current_mode (ro ∷ ar ∷ []);
  is_archived = mode_eq m.current_mode ar;
}

-- A request to change the mode, and the machine after a sequence of requests, refused or not.
pub record Request : Type 0 where
  pub target : StorageMode
  pub reason : Option String
  pub at_time : ℕ

unfoldable pub run : Machine → List Request → Machine
run m [] = m
run m (q ∷ qs) = run (transition_to m q.target q.reason q.at_time).0 qs
