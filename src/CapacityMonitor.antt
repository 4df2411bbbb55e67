-- ===== src/CapacityMonitor.antt =====
-- ingester-module/app/services/capacity_monitor.py: the election of the instance that polls the storage
-- elements, by a lock in Redis that expires, and the polling of an element. Redis with the other
-- instances is the parameter `Redis`. Times are seconds.
pub mod Lock
pub mod Rounds
pub mod Calls
pub mod Backing
pub mod Leases
pub mod Races
pub mod Reads
pub mod Info
pub mod Poll
pub mod Polling
use art_store.Common.{
  ℕ, zero, suc, ◌+◌, String, Bool, true, false, Option, none, some, Result, ok, raise, str_eq,
  if◌then◌else◌,
}

pub data MonitorRole : Type 0 where
  leader follower unknown : MonitorRole

-- The settings of the election in `CapacityMonitorConfig`.
pub record CapacityMonitorConfig : Type 0 where
  pub leader_lock_key : String
  pub leader_ttl : ℕ
  pub leader_renewal_interval : ℕ

abbrev pub default_config : CapacityMonitorConfig
default_config = record {
  leader_lock_key = "capacity_monitor:leader_lock";
  leader_ttl = 30;
  leader_renewal_interval = 10;
}

-- The attributes of an instance that the election reads and writes.
pub record Monitor : Type 0 where
  pub instance_id : String
  pub role : MonitorRole
  pub leader_transitions_count : ℕ

-- The calls of the Redis client: each acts at once on the store of that moment, or raises RedisError.
-- `others` is what happens until the next call of this instance, and `sleep` what happens in a sleep.
pub record Redis : Type 1 where
  pub Store : Type 0
  pub set_nx : String → String → ℕ → Store → Store × Result (Unit {0}) Bool
  pub get : String → Store → Result (Unit {0}) (Option String)
  pub expire : String → ℕ → Store → Store × Result (Unit {0}) Bool
  pub delete : String → Store → Store × Result (Unit {0}) Bool
  pub others : Store → Store
  pub sleep : ℕ → Store → Store

abbrev pub is_leader : MonitorRole → Bool
is_leader leader = true
is_leader follower = false
is_leader unknown = false

-- `current_holder == self._instance_id`
abbrev pub is_own : Monitor → Option String → Bool
is_own m none = false
is_own m (some holder) = str_eq holder m.instance_id

abbrev pub demoted : Monitor → Monitor
demoted m = record m { role = follower }

-- The GET that logs who leads, after a refusal: where it raises, the role is unknown.
unfoldable pub on_current : Monitor → Result (Unit {0}) (Option String) → Monitor
on_current m (ok _) = m
on_current m (raise _) = record m { role = unknown }

-- The state of Redis and of the instance after a call, with what the call returns.
pub record Outcome (r : Redis) : Type 0 where
  pub store : r.Store
  pub monitor : Monitor
  pub result : Bool

module _ (r : Redis) (c : CapacityMonitorConfig) where
  -- `_try_acquire_leadership` from the answer to its SET NX on.
  unfoldable pub on_set : Monitor → r.Store → Result (Unit {0}) Bool → Outcome r
  unfolding on_current
  on_set m s (ok true) = record {
    store = s;
    monitor = record m { role = leader; leader_transitions_count = suc m.leader_transitions_count };
    result = true;
  }
  on_set m s (ok false) = record {
    store = r.others s;
    monitor = on_current (demoted m) (r.get c.leader_lock_key (r.others s));
    result = false;
  }
  on_set m s (raise _) = record { store = s; monitor = record m { role = unknown }; result = false }

  unfoldable pub try_acquire_leadership : Monitor → r.Store → Outcome r
  unfolding on_set
  try_acquire_leadership m s =
      let (after, answer) = r.set_nx c.leader_lock_key m.instance_id c.leader_ttl s in
      on_set m after answer

  -- The end of `_renew_leadership`: what EXPIRE answers is not looked at.
  unfoldable pub on_expire : Monitor → r.Store → Result (Unit {0}) Bool → Outcome r
  on_expire m s (ok _) = record { store = s; monitor = m; result = true }
  on_expire m s (raise _) = record { store = s; monitor = m; result = false }

  -- `_renew_leadership` from the answer to its GET on.
  unfoldable pub on_holder : Monitor → r.Store → Result (Unit {0}) (Option String) → Outcome r
  unfolding on_expire
  on_holder m s (raise _) = record { store = s; monitor = m; result = false }
  on_holder m s (ok holder) =
      if is_own m holder
      then (let (after, answer) = r.expire c.leader_lock_key c.leader_ttl (r.others s) in
          on_expire m after answer)
      else record { store = s; monitor = demoted m; result = false }

  unfoldable pub renew_leadership : Monitor → r.Store → Outcome r
  unfolding on_holder
  renew_leadership m s = on_holder m s (r.get c.leader_lock_key s)

  -- The end of `_release_leadership`. It returns nothing: the result says here whether Redis answered.
  unfoldable pub on_delete : Monitor → r.Store → Result (Unit {0}) Bool → Outcome r
  on_delete m s (ok _) = record { store = s; monitor = demoted m; result = true }
  on_delete m s (raise _) = record { store = s; monitor = m; result = false }

  -- `_release_leadership` from the answer to its GET on.
  unfoldable pub on_held : Monitor → r.Store → Result (Unit {0}) (Option String) → Outcome r
  unfolding on_delete
  on_held m s (raise _) = record { store = s; monitor = m; result = false }
  on_held m s (ok holder) =
      if is_own m holder
      then (let (after, answer) = r.delete c.leader_lock_key (r.others s) in
          on_delete m after answer)
      else record { store = s; monitor = demoted m; result = true }

  unfoldable pub release_leadership : Monitor → r.Store → Outcome r
  unfolding on_held
  release_leadership m s = on_held m s (r.get c.leader_lock_key s)

  -- The body of the loop in `_leader_renewal_loop`, up to its sleep.
  unfoldable pub renewal_round : Monitor → r.Store → Outcome r
  unfolding try_acquire_leadership renew_leadership
  renewal_round m s =
      if is_leader m.role
      then (let renewed = renew_leadership m s in
          if renewed.result
          then renewed
          else try_acquire_leadership renewed.monitor (r.others renewed.store))
      else try_acquire_leadership m s

  -- That many rounds of `_leader_renewal_loop` after the one that gave this outcome, each after a sleep.
  unfoldable pub renewal_loop : ℕ → Outcome r → Outcome r
  unfolding renewal_round
  renewal_loop zero o = o
  renewal_loop (suc n) o =
      renewal_loop n (renewal_round o.monitor (r.sleep c.leader_renewal_interval o.store))
