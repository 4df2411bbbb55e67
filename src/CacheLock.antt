-- ===== src/CacheLock.antt =====
-- storage-element/app/services/cache_lock_manager.py: the locks of the operations that synchronise the
-- cache, kept in Redis. Redis and the other clients are the parameter `Redis`.
pub mod Grants
pub mod Release
use Prim.Native.String.{◌++◌ as str_append}
use art_store.Common.{
  ℕ, ◌*◌, zero, suc, String, Bool, true, false, not, List, [], ◌∷◌, ltb, if◌then◌else◌, Result, ok,
  raise,
}

pub data LockType : Type 0 where
  manual_rebuild manual_check lazy_rebuild background_cleanup : LockType

unfoldable pub lock_value : LockType → String
lock_value manual_rebuild = "manual_rebuild"
lock_value manual_check = "manual_check"
lock_value lazy_rebuild = "lazy_rebuild"
lock_value background_cleanup = "background_cleanup"

-- `LOCK_PRIORITIES`: the smaller number goes first.
abbrev pub priority : LockType → ℕ
priority manual_rebuild = 1
priority manual_check = 2
priority lazy_rebuild = 3
priority background_cleanup = 4

-- The keys of that dictionary, in its order.
abbrev pub lock_types : List LockType
lock_types = manual_rebuild ∷ manual_check ∷ lazy_rebuild ∷ background_cleanup ∷ []

-- The calls of the Redis client. Each acts at once on the store of that moment; `others` is what
-- other clients do, and what expires, until the next call of this one.
pub record Redis : Type 1 where
  pub Store : Type 0
  pub set_nx : String → ℕ → Store → Store × Result (Unit {0}) Bool
  pub delete : String → Store → Store × Result (Unit {0}) Bool
  pub exists : String → Store → Result (Unit {0}) Bool
  pub others : Store → Store

pub data LockError : Type 0 where
  higher_priority : LockType → LockError

module _ (r : Redis) (prefix : String) where
  -- `_get_lock_key`
  abbrev pub lock_key : LockType → String
  lock_key t = str_append prefix (str_append ":" (lock_value t))

  -- `check_lock_status`: a failing call counts as a free lock.
  unfoldable pub check_lock_status : LockType → r.Store → Bool
  check_lock_status t s = elim (r.exists (lock_key t) s) [ ok b ↦ b | raise _ ↦ false ]

  -- The loop of `_check_priority_conflicts`, over the types still to check.
  unfoldable pub check_types : LockType → List LockType → r.Store → r.Store × Bool
  unfolding check_lock_status
  check_types t [] s = (s, true)
  check_types t (other ∷ rest) s =
      if not (ltb (priority other) (priority t))
      then check_types t rest s
      else if check_lock_status other s
      then (r.others s, false)
      else check_types t rest (r.others s)

  -- `_check_priority_conflicts`
  abbrev pub check_priority_conflicts : LockType → r.Store → r.Store × Bool
  check_priority_conflicts t s = check_types t lock_types s

  -- How an attempt to set the key goes on: it is over, or the lock was taken.
  unfoldable pub poll : LockType → ℕ → ℕ → r.Store → r.Store × Bool
  poll t timeout zero s = (s, false)
  poll t timeout (suc n) s =
      let (after, answer) = r.set_nx (lock_key t) timeout (r.others s) in
      elim answer [
        | raise _ ↦ (after, false)
        | ok true ↦ (after, true)
        | ok false ↦ poll t timeout n after
      ]

  -- The `try` of `acquire_lock`. The interval of the polls is half a second, so that there are two
  -- to a second of `blocking_timeout`.
  unfoldable pub set_lock : LockType → ℕ → Bool → ℕ → r.Store → r.Store × Bool
  unfolding poll
  set_lock t timeout blocking blocking_timeout s =
      let (after, answer) = r.set_nx (lock_key t) timeout s in
      elim answer [
        | raise _ ↦ (after, false)
        | ok true ↦ (after, true)
        | ok false ↦
            if blocking then poll t timeout (2 * blocking_timeout) after else (after, false)
      ]

  -- `acquire_lock` after the check of the priorities.
  unfoldable pub acquire_checked :
      LockType → ℕ → Bool → ℕ → r.Store × Bool → r.Store × Result LockError Bool
  unfolding set_lock
  acquire_checked t timeout blocking blocking_timeout (s, false) = (s, raise (higher_priority t))
  acquire_checked t timeout blocking blocking_timeout (s, true) =
      let (after, acquired) = set_lock t timeout blocking blocking_timeout s in (after, ok acquired)

  unfoldable pub acquire_lock : LockType → ℕ → Bool → ℕ → r.Store → r.Store × Result LockError Bool
  unfolding acquire_checked check_types
  acquire_lock t timeout blocking blocking_timeout s =
      acquire_checked t timeout blocking blocking_timeout (check_priority_conflicts t s)

  unfoldable pub release_lock : LockType → r.Store → r.Store × Bool
  release_lock t s =
      let (after, answer) = r.delete (lock_key t) s in
      (after, elim answer [ ok deleted ↦ deleted | raise _ ↦ false ])
