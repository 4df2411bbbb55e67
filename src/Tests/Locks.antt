-- ===== src/Tests/Locks.antt =====
-- The cache locks, over a store that says of each key whether it is set.
use art_store.Common.{
  ◌≡◌, ◌↔◌, refl, String, Bool, true, false, not, ok, raise, Result, arith, if◌then◌else◌, str_eq,
}
use art_store.CacheLock.{
  Redis, manual_rebuild, lazy_rebuild, set_lock, acquire_lock, acquire_checked, higher_priority,
  lock_value, check_types, check_lock_status,
}
use art_store.CacheLock.Grants.{
  Documented, Responds, acquire_lock-Clear_iff, Clear, Attempted, set_lock-Attempted,
}

abbrev try_set : String → (String → Bool) → Bool → (String → Bool) × Result (Unit {0}) Bool
try_set k s true = (s, ok false)
try_set k s false = (λ j. if str_eq k j then true else s j, ok true)

abbrev keys : Redis
keys = record {
  Store = String → Bool;
  set_nx = λ k ex s. try_set k s (s k);
  delete = λ k s. (λ j. if str_eq k j then false else s j, ok (s k));
  exists = λ k s. ok (s k);
  others = λ s. s;
}

abbrev held_in : String → (String → Bool) → Bool
held_in k s = s k

try_set-answer :
    (k : String) (s : String → Bool) (c b : Bool) → (try_set k s c).1 ≡ ok b → b ≡ not c
try_set-answer k s c b h = ground arith

try_set-sets :
    (k : String) (s : String → Bool) (c : Bool) (j : String)
    → (try_set k s c).1 ≡ ok true
    → (try_set k s c).0 j ≡ (if str_eq k j then true else s j)
try_set-sets k s true j h = absurd (ground arith)
try_set-sets k s false j h = refl

try_set-answers :
    (k : String) (s : String → Bool) (c : Bool) → (b : Bool) × ((try_set k s c).1 ≡ ok b)
try_set-answers k s true = (false, refl)
try_set-answers k s false = (true, refl)

keys-Documented : Documented keys
keys-Documented = record {
  held = held_in;
  exists-held = λ k s b h. ground arith;
  set_nx-answer = λ k ex s b. try_set-answer k s (s k) b;
  set_nx-held = λ k ex s j. try_set-sets k s (s k) j;
  delete-answer = λ k s b h. ground arith;
  delete-held = λ k s b j h. refl;
}

keys-Responds : Responds keys
keys-Responds = record {
  exists-ok = λ k s. (s k, refl);
  set_nx-ok = λ k ex s. try_set-answers k s (s k);
  delete-ok = λ k s. (s k, refl);
}

-- A manual rebuild is running.
abbrev rebuilding : String → Bool
rebuilding k = str_eq k "se:manual_rebuild"

acquire_lock-Clear_iff_example :
    ((acquire_lock keys "se" lazy_rebuild 300 true 10 rebuilding).1
      ≡ raise (higher_priority lazy_rebuild))
    ↔ ¬ Clear keys "se" lazy_rebuild rebuilding
acquire_lock-Clear_iff_example =
    acquire_lock-Clear_iff keys "se" lazy_rebuild 300 true 10 rebuilding

refused_to_lazy :
    (acquire_lock keys "se" lazy_rebuild 300 true 10 rebuilding).1
    ≡ raise (higher_priority lazy_rebuild)
unfolding acquire_lock acquire_checked check_types check_lock_status lock_value
refused_to_lazy = refl

set_lock-Attempted_example :
    Attempted keys keys-Documented keys-Responds "se" manual_rebuild 600 4 rebuilding
      (set_lock keys "se" manual_rebuild 600 true 2 rebuilding)
set_lock-Attempted_example =
    set_lock-Attempted keys keys-Documented keys-Responds "se" manual_rebuild 600 2 rebuilding
