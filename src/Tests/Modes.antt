-- ===== src/Tests/Modes.antt =====
-- The mode state machine.
use art_store.Common.{◌≡◌, ◌≢◌, refl, List, [], ◌∷◌, none, arith, length, String, str_eq_iff}
use art_store.StorageMode.{StorageMode, edit, rw_mode, ro, ar, Request, init, run, transition_to}
use art_store.StorageMode.Transitions.{Trail, run-Trail}

abbrev to : StorageMode → Request
to m = record { target = m; reason = none; at_time = 7 }

-- Two accepted requests among refused ones.
abbrev requests : List Request
requests = to ar ∷ to ro ∷ to ro ∷ to ar ∷ to edit ∷ []

reaches_archive :
    let m = run (init rw_mode) requests in (m.current_mode ≡ ar) × (length m.transition_history ≡ 2)
unfolding run transition_to init
reaches_archive = (refl, refl)

run-Trail_example :
    let m = run (init rw_mode) requests in Trail rw_mode m.current_mode m.transition_history
run-Trail_example = run-Trail rw_mode requests

read_not_metadata : ◌≢◌ {A = String} "read" "metadata"
read_not_metadata = ground (arith, str_eq_iff "read" "metadata")
