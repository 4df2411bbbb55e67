-- ===== src/RateLimit.antt =====
-- admin-module/app/middleware/rate_limit.py: the sliding window of the requests of a service account, in
-- a sorted set of Redis. Times are milliseconds.
pub mod Window
use art_store.Common.{
  ℕ, ◌+◌, ◌-◌, ◌*◌, ◌/◌, String, Bool, true, false, Option, none, some, leb, if◌then◌else◌, Result,
  ok, raise,
}

-- The calls of the Redis client.
pub record SortedSets : Type 1 where
  pub Store : Type 0
  pub zremrangebyscore : String → ℕ → ℕ → Store → Store × Result (Unit {0}) (Unit {0})
  pub zcard : String → Store → Result (Unit {0}) ℕ
  -- `zrange(key, 0, 0, withscores=True)`: the least score, if there is one.
  pub zrange_first : String → Store → Result (Unit {0}) (Option ℕ)
  pub zadd : String → String → ℕ → Store → Store × Result (Unit {0}) (Unit {0})
  pub expire : String → ℕ → Store → Store × Result (Unit {0}) (Unit {0})

-- What `_check_rate_limit` returns.
pub record Verdict : Type 0 where
  pub allowed : Bool
  pub current_count : ℕ
  pub retry_after : ℕ

-- The arguments, with the key and the id of the request, and the time.
pub record Check : Type 0 where
  pub key : String
  pub request_id : String
  pub rate_limit : ℕ
  pub window_seconds : ℕ
  pub now : ℕ

-- The answer where Redis fails.
abbrev pub fail_open : Verdict
fail_open = record { allowed = true; current_count = 0; retry_after = 0 }

abbrev pub window_start : Check → ℕ
window_start c = c.now - c.window_seconds * 1000

module _ (r : SortedSets) (c : Check) where
  -- The refusal of a request, by the oldest one in the window. The division truncates, as `int` does of
  -- a number that is not negative.
  unfoldable pub refuse : ℕ → r.Store → r.Store × Verdict
  refuse current_count s = elim (r.zrange_first c.key s) [
    | raise _ ↦ (s, fail_open)
    | ok none ↦ (
      s,
      record { allowed = false; current_count = current_count; retry_after = c.window_seconds },
    )
    | ok (some oldest) ↦ (
      s,
      record {
        allowed = false;
        current_count = current_count;
        retry_after = (oldest + c.window_seconds * 1000 - c.now) / 1000 + 1;
      },
    )
  ]

  -- The end of an admission, after `expire`.
  unfoldable pub admitted : ℕ → r.Store × Result (Unit {0}) (Unit {0}) → r.Store × Verdict
  admitted current_count (s, raise _) = (s, fail_open)
  admitted current_count (s, ok _) =
      (s, record { allowed = true; current_count = current_count + 1; retry_after = 0 })

  -- The same after `zadd`.
  unfoldable pub added : ℕ → r.Store × Result (Unit {0}) (Unit {0}) → r.Store × Verdict
  unfolding admitted
  added current_count (s, raise _) = (s, fail_open)
  added current_count (s, ok _) = admitted current_count (r.expire c.key (c.window_seconds * 2) s)

  -- The decision, on the count of the requests in the window.
  unfoldable pub decide : r.Store → Result (Unit {0}) ℕ → r.Store × Verdict
  unfolding refuse added
  decide s (raise _) = (s, fail_open)
  decide s (ok current_count) =
      if leb c.rate_limit current_count
      then refuse current_count s
      else added current_count (r.zadd c.key c.request_id c.now s)

  -- The same after the removal of the old entries.
  unfoldable pub cleaned : r.Store × Result (Unit {0}) (Unit {0}) → r.Store × Verdict
  unfolding decide
  cleaned (s, raise _) = (s, fail_open)
  cleaned (s, ok _) = decide s (r.zcard c.key s)

  unfoldable pub check_rate_limit : r.Store → r.Store × Verdict
  unfolding cleaned
  check_rate_limit s = cleaned (r.zremrangebyscore c.key 0 (window_start c) s)
