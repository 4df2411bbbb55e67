-- ===== src/StorageMode/Transitions.antt =====
-- The mode state machine follows the diagram rw → ro → ar, and its history records the path.
use art_store.Common.{
  ℕ, ◌+◌, ◌≤◌, String, ◌≡◌, refl, ◌↔◌, ◌⊎◌, inl, inr, List, [], ◌∷◌, ◌++◌, Option, none, some,
  arith, length, length-append, Option-cases,
}
use art_store.StorageMode.{
  StorageMode, edit, rw_mode, ro, ar, value, TransitionRecord, Machine, init, transition_to,
  Request, run, ModeError,
}

-- The edges of the diagram.
pub data Edge : StorageMode → StorageMode → Type 0 where
  freeze : Edge rw_mode ro
  archive : Edge ro ar

-- A path of the diagram with the records that it leaves, oldest first.
pub data Trail (start : StorageMode) : StorageMode → List TransitionRecord → Type 0 where
  begin : Trail start start []
  step :
      {m n : StorageMode} {h : List TransitionRecord} (r : TransitionRecord)
      → Trail start m h
      → Edge m n
      → r.from_mode ≡ value m
      → r.to_mode ≡ value n
      → Trail start n (h ++ r ∷ [])

-- How far a mode is along the life of an element that starts in rw.
abbrev pub rank : StorageMode → ℕ
rank edit = 0
rank rw_mode = 0
rank ro = 1
rank ar = 2

Edge-of :
    (m n : StorageMode) (h : List TransitionRecord) (r : Option String) (now : ℕ)
    → (transition_to (record { current_mode = m; transition_history = h }) n r now).1 ≡ none
    → Edge m n
unfolding transition_to
Edge-of rw_mode ro h r now e = freeze
Edge-of ro ar h r now e = archive
Edge-of edit edit h r now e = cc
Edge-of edit rw_mode h r now e = cc
Edge-of edit ro h r now e = cc
Edge-of edit ar h r now e = cc
Edge-of rw_mode _ h r now e = cc
Edge-of ro _ h r now e = cc
Edge-of ar edit h r now e = cc
Edge-of ar rw_mode h r now e = cc
Edge-of ar ro h r now e = cc
Edge-of ar ar h r now e = cc

accepted_of_Edge :
    (m n : StorageMode) (h : List TransitionRecord) (r : Option String) (now : ℕ)
    → Edge m n
    → (transition_to (record { current_mode = m; transition_history = h }) n r now).1 ≡ none
unfolding transition_to
accepted_of_Edge m n h r now freeze = refl
accepted_of_Edge m n h r now archive = refl

-- `transition_to` raises nothing exactly when the diagram has an edge from the current mode to the
-- target.
pub transition_to-Edge_iff :
    (m : Machine) (target : StorageMode) (reason : Option String) (now : ℕ)
    → ((transition_to m target reason now).1 ≡ none) ↔ Edge m.current_mode target
transition_to-Edge_iff m target reason now = (
  Edge-of m.current_mode target m.transition_history reason now,
  accepted_of_Edge m.current_mode target m.transition_history reason now,
)

-- An exception of `transition_to` leaves mode and history as they were.
pub transition_to_error_unchanged :
    (m : Machine) (target : StorageMode) (reason : Option String) (now : ℕ) {e : ModeError}
    → (transition_to m target reason now).1 ≡ some e
    → (transition_to m target reason now).0 ≡ m
unfolding transition_to
transition_to_error_unchanged m target reason now h = ground arith

-- What a call that raises nothing has done.
pub transition_to_accepted :
    (m : Machine) (target : StorageMode) (reason : Option String) (now : ℕ)
    → (transition_to m target reason now).1 ≡ none
    → (transition_to m target reason now).0 ≡ record {
      current_mode = target;
      transition_history =
          m.transition_history
          ++ record {
            from_mode = value m.current_mode;
            to_mode = value target;
            timestamp = now;
            reason = reason;
          }
            ∷ [];
    }
unfolding transition_to
transition_to_accepted m target reason now h = ground arith

abbrev OnTrail : StorageMode → Machine → Type 0
OnTrail start m = Trail start m.current_mode m.transition_history

transition_to-OnTrail :
    (start : StorageMode) (m : Machine) (target : StorageMode) (reason : Option String) (now : ℕ)
    → OnTrail start m
    → OnTrail start (transition_to m target reason now).0
transition_to-OnTrail start m target reason now t =
    elim (Option-cases (transition_to m target reason now).1) [
      | inl fine ↦
          rw (transition_to_accepted m target reason now fine)
            (step _ t ((transition_to-Edge_iff m target reason now).0 fine) refl refl)
      | inr (e, raised) ↦ rw (transition_to_error_unchanged m target reason now raised) t
    ]

run-OnTrail :
    (start : StorageMode) (m : Machine) (qs : List Request)
    → OnTrail start m
    → OnTrail start (run m qs)
unfolding run
run-OnTrail start m [] t = t
run-OnTrail start m (q ∷ qs) t =
    run-OnTrail start (transition_to m q.target q.reason q.at_time).0 qs
      (transition_to-OnTrail start m q.target q.reason q.at_time t)

-- After any sequence of requests to a new machine, refused ones included, the history is a path of
-- the diagram from the first mode to the current one: each record starts where the one before it
-- ended.
pub run-Trail :
    (start : StorageMode) (qs : List Request)
    → let m = run (init start) qs in Trail start m.current_mode m.transition_history
unfolding init
run-Trail start qs = run-OnTrail start (init start) qs begin

Edge-rank : {m n : StorageMode} → Edge m n → rank n ≡ rank m + 1
Edge-rank freeze = refl
Edge-rank archive = refl

Trail-rank :
    {start m : StorageMode} {h : List TransitionRecord}
    → Trail start m h
    → rank m ≡ rank start + length h
Trail-rank begin = omega arith
Trail-rank (step {h = h} r t e _ _) =
    omega (arith, Trail-rank t, Edge-rank e, length-append h (r ∷ []))

rank-le : (m : StorageMode) → rank m ≤ 2
rank-le edit = omega arith
rank-le rw_mode = omega arith
rank-le ro = omega arith
rank-le ar = omega arith

-- The mode only moves forward: the number of accepted transitions is the distance travelled along
-- rw, ro, ar, so an element changes its mode at most twice.
pub run-rank :
    (start : StorageMode) (qs : List Request)
    → let m = run (init start) qs in
      (rank m.current_mode ≡ rank start + length m.transition_history)
      × (length m.transition_history ≤ 2)
run-rank start qs =
    let t = Trail-rank (run-Trail start qs) in
    (t, omega (arith, rank-le (run (init start) qs).current_mode))

terminal_step :
    (m : Machine) (target : StorageMode) (reason : Option String) (now : ℕ)
    → (m.current_mode ≡ edit) ⊎ (m.current_mode ≡ ar)
    → (transition_to m target reason now).0 ≡ m
unfolding transition_to
terminal_step m target reason now h = ground arith

-- Once an element is in edit or in ar, no sequence of requests changes its mode or its history.
pub run_fixed :
    (m : Machine) (qs : List Request)
    → (m.current_mode ≡ edit) ⊎ (m.current_mode ≡ ar)
    → run m qs ≡ m
unfolding run
run_fixed m [] h = refl
run_fixed m (q ∷ qs) h = rw (terminal_step m q.target q.reason q.at_time h) (run_fixed m qs h)
