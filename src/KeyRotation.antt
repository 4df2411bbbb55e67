-- ===== src/KeyRotation.antt =====
-- admin-module/app/services/jwt_key_rotation_service.py: the loop that takes the lock of the rotation in
-- Redis, whose answers are a parameter.
pub mod Locking
use art_store.Common.{ℕ, zero, suc, Bool, true, false}

-- The answers of Redis to `SET … NX EX`.
pub data SetAnswer : Type 0 where
  acquired taken redis_error : SetAnswer

pub record Setting : Type 0 where
  pub set_nx : ℕ → SetAnswer

abbrev pub lock_max_retries : ℕ
lock_max_retries = 3

-- Whether the lock was taken, the attempts made and the seconds slept.
pub record Acquired : Type 0 where
  pub taken_ : Bool
  pub attempts : ℕ
  pub slept : ℕ

module _ (c : Setting) where
  -- The loop of `_acquire_lock`, with `left` attempts after `attempt` of them.
  abbrev pub on_answer : ℕ → ℕ → SetAnswer → Acquired → Acquired
  on_answer left attempt acquired rest = record {
    taken_ = true;
    attempts = suc attempt;
    slept = attempt;
  }
  on_answer zero attempt taken rest = record {
    taken_ = false;
    attempts = suc attempt;
    slept = attempt;
  }
  on_answer (suc left) attempt taken rest = rest
  on_answer left attempt redis_error rest = record {
    taken_ = false;
    attempts = suc attempt;
    slept = attempt;
  }

  unfoldable pub try_lock : ℕ → ℕ → Acquired
  try_lock zero attempt =
      on_answer zero attempt (c.set_nx attempt)
        (record { taken_ = false; attempts = suc attempt; slept = attempt })
  try_lock (suc left) attempt =
      let rest = try_lock left (suc attempt) in on_answer (suc left) attempt (c.set_nx attempt) rest

  -- `_acquire_lock`
  unfoldable pub acquire_lock : Acquired
  unfolding try_lock
  acquire_lock = try_lock 2 0
