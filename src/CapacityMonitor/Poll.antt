-- ===== src/CapacityMonitor/Poll.antt =====
-- The polling of one storage element, with what it writes to the cache in Redis and what a reader of the
-- cache gets. Delays are in seconds.
use Prim.Native.String.{◌++◌ as str_append}
use art_store.Common.{
  ℕ, zero, suc, ◌+◌, ◌*◌, ◌^◌, String, Bool, ◌&&◌, List, [], ◌∷◌, Option, none, some, Result, ok,
  raise, if◌then◌else◌,
}
use art_store.Common.Json.{Dict, get, put}
use art_store.Upload.{is_healthy, writable_mode}
use art_store.CapacityMonitor.Info.{
  or_else, StorageCapacityInfo, health_value, Texts, to_dict, from_dict, PollAnswer, info_answered,
  error_of,
}

-- The commands that the cache gets.
pub data Command : Type 0 where
  hset : String → Dict String → Command
  expire : String → ℕ → Command
  set_ex : String → String → ℕ → Command
  zadd : String → String → ℕ → Command
  zrem : String → String → Command

pub record PollConfig : Type 0 where
  pub http_retries : ℕ
  pub retry_base_delay : ℕ
  pub cache_ttl : ℕ
  pub health_ttl : ℕ

abbrev pub default_poll_config : PollConfig
default_poll_config = record {
  http_retries = 3;
  retry_base_delay = 2;
  cache_ttl = 600;
  health_ttl = 600;
}

abbrev pub capacity_key : String → String
capacity_key se_id = str_append "capacity:" se_id

abbrev pub health_key : String → String
health_key se_id = str_append "health:" se_id

abbrev pub available_key : String → String
available_key mode = str_append "capacity:" (str_append mode ":available")

-- What the retries of one polling give: the information, the GETs sent, the seconds slept and the text of
-- the last error.
pub record Polled : Type 0 where
  pub info : Option StorageCapacityInfo
  pub gets : ℕ
  pub slept : ℕ
  pub last_error : String

module _ (c : PollConfig) (se_id endpoint bad_health : String) (now : ℕ → String)
    (answers : ℕ → PollAnswer) where
  -- The loop of `_poll_storage_element` from the attempt `n` on, with that many more after it.
  unfoldable pub poll_from : ℕ → ℕ → Polled
  unfolding info_answered error_of
  poll_from zero n = record {
    info = info_answered se_id endpoint (now n) (answers n);
    gets = suc n;
    slept = 0;
    last_error = error_of bad_health (answers n);
  }
  poll_from (suc left) n = elim (info_answered se_id endpoint (now n) (answers n)) [
    | some i ↦ record { info = some i; gets = suc n; slept = 0; last_error = "" }
    | none ↦
        let rest = poll_from left (suc n) in
        record rest { slept = c.retry_base_delay * 2 ^ n + rest.slept }
  ]

  -- The loop over `range(http_retries)`.
  unfoldable pub poll_attempts : ℕ → Polled
  unfolding poll_from
  poll_attempts zero = record { info = none; gets = 0; slept = 0; last_error = "None" }
  poll_attempts (suc left) = poll_from left 0

module _ (t : Texts) (c : PollConfig) (priorities : Dict ℕ) where
  -- The commands of `_save_capacity_to_cache`, which a RedisError cuts short.
  unfoldable pub save_capacity_to_cache : String → StorageCapacityInfo → List Command
  unfolding to_dict
  save_capacity_to_cache se_id i =
      hset (capacity_key se_id) (to_dict t i)
      ∷ expire (capacity_key se_id) c.cache_ttl
      ∷ set_ex (health_key se_id) (health_value i.health) c.health_ttl
      ∷ (if writable_mode i.mode
          then (if writable_mode i.mode && is_healthy i.health
              then zadd (available_key i.mode) se_id (or_else 100 (get se_id priorities))
                ∷ expire (available_key i.mode) c.cache_ttl
                ∷ []
              else zrem (available_key i.mode) se_id ∷ [])
          else [])

  unfoldable pub mark_se_unhealthy : String → String → List Command
  mark_se_unhealthy se_id reason =
      set_ex (health_key se_id) (str_append "unhealthy: " reason) c.health_ttl ∷ []

  -- The commands and the new counts of failures, for the result of the loop.
  unfoldable pub after_poll : String → Polled → Dict ℕ → List Command × Dict ℕ
  unfolding save_capacity_to_cache mark_se_unhealthy
  after_poll se_id p failure_counts = elim p.info [
    | some i ↦ (save_capacity_to_cache se_id i, put se_id 0 failure_counts)
    | none ↦ (
      mark_se_unhealthy se_id p.last_error,
      put se_id (suc (or_else 0 (get se_id failure_counts))) failure_counts,
    )
  ]

  unfoldable pub poll_storage_element :
      String → String → String → (ℕ → String) → (ℕ → PollAnswer) → Dict ℕ → List Command × Dict ℕ
  unfolding after_poll poll_attempts
  poll_storage_element se_id endpoint bad_health now answers failure_counts =
      after_poll se_id (poll_attempts c se_id endpoint bad_health now answers c.http_retries)
        failure_counts

-- The cache: a command is carried out and answered, or it raises RedisError, and HGETALL reads a hash.
pub record Cache : Type 1 where
  pub Store : Type 0
  pub apply : Command → Store → Store × Bool
  pub hgetall : String → Store → Result (Unit {0}) (Dict String)

-- What the client of the Admin Module answers for the element.
pub data Fallback : Type 0 where
  no_client failed_call : Fallback
  listed : Option StorageCapacityInfo → Fallback

module _ (k : Cache) where
  -- The commands in their order up to the first that raises.
  unfoldable pub send : List Command → k.Store → k.Store
  send [] s = s
  send (cmd ∷ rest) s =
      let (after, answered_) = k.apply cmd s in if answered_ then send rest after else after

  unfoldable pub from_fallback : Fallback → Option StorageCapacityInfo
  from_fallback no_client = none
  from_fallback failed_call = none
  from_fallback (listed i) = i

  -- An empty hash is a missing key. ValueError leaves the method.
  unfoldable pub from_hash : Texts → Dict String → Result (Unit {0}) (Option StorageCapacityInfo)
  unfolding from_dict
  from_hash t [] = ok none
  from_hash t (field ∷ rest) = elim (from_dict t (λ f. get f (field ∷ rest))) [
    | none ↦ raise tt
    | some i ↦ ok (some i)
  ]

  unfoldable pub get_capacity :
      Texts → Fallback → String → k.Store → Result (Unit {0}) (Option StorageCapacityInfo)
  unfolding from_hash from_fallback
  get_capacity t fallback se_id s = elim (k.hgetall (capacity_key se_id) s) [
    | ok d ↦ from_hash t d
    | raise e ↦ ok (from_fallback fallback)
  ]
