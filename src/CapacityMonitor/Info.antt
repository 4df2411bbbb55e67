-- ===== src/CapacityMonitor/Info.antt =====
-- What is known of a storage element: from the JSON that it answers, and as a hash of texts in Redis.
-- Shares of a capacity are in hundredths of a percent.
use art_store.Common.{ℕ, String, [], ◌∷◌, Option, none, some, str_eq, if◌then◌else◌}
use art_store.Common.Json.{Dict}
use art_store.Upload.{HealthStatus, healthy, degraded, unhealthy}

abbrev pub or_else {ℓ} : {A : Type ℓ} → A → Option A → A
or_else d none = d
or_else d (some a) = a

-- `StorageCapacityInfo`
pub record StorageCapacityInfo : Type 0 where
  pub storage_id : String
  pub mode : String
  pub total : ℕ
  pub used : ℕ
  pub available : ℕ
  pub percent_used : ℕ
  pub health : HealthStatus
  pub backend : String
  pub location : String
  pub last_update : String
  pub last_poll : String
  pub endpoint : String

abbrev pub health_value : HealthStatus → String
health_value healthy = "healthy"
health_value degraded = "degraded"
health_value unhealthy = "unhealthy"

-- `HealthStatus(text)`, which raises ValueError for any other text.
unfoldable pub health_of : String → Option HealthStatus
health_of text =
    if str_eq text "healthy"
    then some healthy
    else if str_eq text "degraded"
    then some degraded
    else if str_eq text "unhealthy"
    then some unhealthy
    else none

-- `str` and `int` on integers, `str` and `float` on shares.
pub record Texts : Type 0 where
  pub int_text : ℕ → String
  pub int_of : String → Option ℕ
  pub float_text : ℕ → String
  pub float_of : String → Option ℕ

module _ (t : Texts) where
  unfoldable pub to_dict : StorageCapacityInfo → Dict String
  to_dict i =
      ("storage_id", i.storage_id)
      ∷ ("mode", i.mode)
      ∷ ("total", t.int_text i.total)
      ∷ ("used", t.int_text i.used)
      ∷ ("available", t.int_text i.available)
      ∷ ("percent_used", t.float_text i.percent_used)
      ∷ ("health", health_value i.health)
      ∷ ("backend", i.backend)
      ∷ ("location", i.location)
      ∷ ("last_update", i.last_update)
      ∷ ("last_poll", i.last_poll)
      ∷ ("endpoint", i.endpoint)
      ∷ []

  -- `int(d.get(k, 0))` and `float(d.get(k, 0.0))`
  abbrev number : (String → Option ℕ) → Option String → Option ℕ
  number of_text none = some 0
  number of_text (some text) = of_text text

  infixl 5 ◌>>=◌
  abbrev ◌>>=◌ {ℓ κ} : {A : Type ℓ} {B : Type κ} → Option A → (A → Option B) → Option B
  none >>= f = none
  some a >>= f = f a

  -- `none` where a conversion raises ValueError.
  unfoldable pub from_dict : (String → Option String) → Option StorageCapacityInfo
  unfolding health_of
  from_dict d = do
    total ← number t.int_of (d "total")
    used ← number t.int_of (d "used")
    available ← number t.int_of (d "available")
    percent_used ← number t.float_of (d "percent_used")
    health ← health_of (or_else "unhealthy" (d "health"))
    some (record {
      storage_id = or_else "" (d "storage_id");
      mode = or_else "" (d "mode");
      total = total;
      used = used;
      available = available;
      percent_used = percent_used;
      health = health;
      backend = or_else "" (d "backend");
      location = or_else "" (d "location");
      last_update = or_else "" (d "last_update");
      last_poll = or_else "" (d "last_poll");
      endpoint = or_else "" (d "endpoint");
    })

-- The JSON body that an element answers: the keys that it has, whose values have the types of its schema.
pub record CapacityBody : Type 0 where
  pub storage_id : Option String
  pub mode : Option String
  pub total : Option ℕ
  pub used : Option ℕ
  pub available : Option ℕ
  pub percent_used : Option ℕ
  pub health : Option String
  pub backend : Option String
  pub location : Option String
  pub last_update : Option String

-- The answers to a GET: a body with a status that `raise_for_status` lets pass, or an exception's text.
pub data PollAnswer : Type 0 where
  answered : CapacityBody → PollAnswer
  raised : String → PollAnswer

-- `now` is the text of the time.
unfoldable pub info_of : String → String → String → CapacityBody → Option StorageCapacityInfo
unfolding health_of
info_of se_id endpoint now body = elim (health_of (or_else "unhealthy" body.health)) [
  | none ↦ none
  | some health ↦ some (record {
    storage_id = or_else se_id body.storage_id;
    mode = or_else "unknown" body.mode;
    total = or_else 0 body.total;
    used = or_else 0 body.used;
    available = or_else 0 body.available;
    percent_used = or_else 0 body.percent_used;
    health = health;
    backend = or_else "unknown" body.backend;
    location = or_else "unknown" body.location;
    last_update = or_else "" body.last_update;
    last_poll = now;
    endpoint = endpoint;
  })
]

unfoldable pub info_answered : String → String → String → PollAnswer → Option StorageCapacityInfo
unfolding info_of
info_answered se_id endpoint now (answered body) = info_of se_id endpoint now body
info_answered se_id endpoint now (raised e) = none

-- `str(last_error)`; `bad_health` is the text of the ValueError.
unfoldable pub error_of : String → PollAnswer → String
error_of bad_health (answered body) = bad_health
error_of bad_health (raised e) = e
