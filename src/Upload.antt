-- ===== src/Upload.antt =====
-- ingester-module/app/services/storage_selector.py and upload_service.py: the choice of a storage element
-- and the upload with its retries, over the capacities that capacity_monitor.py has. Shares of a capacity
-- are in hundredths of a percent.
pub mod Selection
pub mod Retries
use art_store.Common.{
  ◌*◌, sort_where, ℕ, ◌+◌, String, Bool, true, false, not, ◌&&◌, ◌||◌, List, [], ◌∷◌, ◌++◌, Option,
  none, some, keep_if, contains, find_first, leb, ltb, ◌==◌, if◌then◌else◌, str_eq, length, zero,
  suc, Result, ok, raise,
}

pub data RetentionPolicy : Type 0 where
  temporary permanent : RetentionPolicy

pub data CapacityStatus : Type 0 where
  status_ok warning critical full : CapacityStatus

pub data HealthStatus : Type 0 where
  healthy degraded unhealthy : HealthStatus

-- `StorageCapacityInfo`, what the monitor has of an element.
pub record CapacityInfo : Type 0 where
  pub storage_id : String
  pub mode : String
  pub endpoint : String
  pub available : ℕ
  pub percent_used : ℕ
  pub health : HealthStatus

-- `StorageElementInfo`
pub record ElementInfo : Type 0 where
  pub element_id : String
  pub mode : String
  pub endpoint : String
  pub capacity_free : ℕ
  pub capacity_status : CapacityStatus
  pub health_status : HealthStatus

abbrev pub status_of : ℕ → CapacityStatus
status_of percent_used =
    if leb 9800 percent_used
    then full
    else if leb 9200 percent_used
    then critical
    else if leb 8500 percent_used
    then warning
    else status_ok

-- `_convert_capacity_to_element_info`
abbrev pub convert : CapacityInfo → ElementInfo
convert c = record {
  element_id = c.storage_id;
  mode = c.mode;
  endpoint = c.endpoint;
  capacity_free = c.available;
  capacity_status = status_of c.percent_used;
  health_status = c.health;
}

abbrev pub is_healthy : HealthStatus → Bool
is_healthy healthy = true
is_healthy degraded = false
is_healthy unhealthy = false

abbrev pub is_full : CapacityStatus → Bool
is_full full = true
is_full status_ok = false
is_full warning = false
is_full critical = false

abbrev pub writable_mode : String → Bool
writable_mode mode = str_eq mode "edit" || str_eq mode "rw"

abbrev pub is_writable : ElementInfo → Bool
is_writable e = writable_mode e.mode && is_healthy e.health_status

abbrev pub can_accept_files : ElementInfo → Bool
can_accept_files e = is_writable e && not (is_full e.capacity_status)

abbrev pub can_accept_file : ℕ → ElementInfo → Bool
can_accept_file file_size e = can_accept_files e && leb file_size e.capacity_free

-- `result.sort(key=…)`, which is stable.
abbrev pub goes_before : (String → ℕ) → CapacityInfo → CapacityInfo → Bool
goes_before priority c d = leb (priority c.storage_id) (priority d.storage_id)

-- The tests of the monitor's `get_available_storage_elements`, where no minimum of bytes is asked for.
abbrev pub is_available : String → CapacityInfo → Bool
is_available mode c = str_eq c.mode mode && (is_healthy c.health && writable_mode c.mode)

unfoldable pub get_available_storage_elements :
    (String → ℕ) → String → List CapacityInfo → List CapacityInfo
get_available_storage_elements priority mode capacities =
    sort_where (goes_before priority) (keep_if (is_available mode) capacities)

-- The loop of `_select_from_adaptive_monitor`.
abbrev pub accepts : ℕ → List String → CapacityInfo → Bool
accepts file_size excluded c =
    not (contains c.storage_id excluded) && can_accept_file file_size (convert c)

-- The answers to a POST of a file: accepted, a status that `raise_for_status` refuses, or none.
pub data PostAnswer : Type 0 where
  uploaded : PostAnswer
  http_error : ℕ → PostAnswer
  unreachable : PostAnswer

pub data UploadError : Type 0 where
  insufficient_storage : String → UploadError
  element_unavailable no_available_storage size_limit_exceeded : UploadError

-- What is not the service's own: the capacities that the monitor reads for each selection, by its number,
-- or none if that raises; the elements that the Admin Module lists for a mode and a size; and the answers
-- to the POSTs, by number.
pub record Network : Type 0 where
  pub use_for_selection : Bool
  pub monitor : Bool
  pub priority : String → ℕ
  pub capacities : ℕ → Option (List CapacityInfo)
  pub admin : Option (ℕ → String → ℕ → Option (List ElementInfo))
  pub post : ℕ → PostAnswer

abbrev pub convert_found : Option CapacityInfo → Option ElementInfo
convert_found none = none
convert_found (some c) = some (convert c)

abbrev pub default_max_retries : ℕ
default_max_retries = 3

abbrev pub max_file_size : ℕ
max_file_size = 1024 * 1024 * 1024

-- The outcome of an upload: the element that took the file, and the elements that a file was sent to.
pub record Uploaded : Type 0 where
  pub outcome : Result UploadError String
  pub sent : List String

module _ (n : Network) where
  abbrev pub select_among :
      ℕ → String → List String → Option (List CapacityInfo) → Option ElementInfo
  select_among file_size mode excluded none = none
  select_among file_size mode excluded (some capacities) = convert_found (
      find_first (accepts file_size excluded)
        (get_available_storage_elements n.priority mode capacities))

  -- `_select_from_adaptive_monitor`; an exception counts as no element.
  unfoldable pub select_from_adaptive_monitor : ℕ → ℕ → String → List String → Option ElementInfo
  unfolding get_available_storage_elements
  select_from_adaptive_monitor turn file_size mode excluded =
      if n.use_for_selection && n.monitor
      then select_among file_size mode excluded (n.capacities turn)
      else none

  abbrev pub not_excluded : List String → ElementInfo → Bool
  not_excluded excluded e = not (contains e.element_id excluded)

  abbrev pub first_listed : List String → Option (List ElementInfo) → Option ElementInfo
  first_listed excluded none = none
  first_listed excluded (some elements) = find_first (not_excluded excluded) elements

  abbrev pub ask_admin :
      ℕ
      → ℕ
      → String
      → List String
      → Option (ℕ → String → ℕ → Option (List ElementInfo))
      → Option ElementInfo
  ask_admin turn file_size mode excluded none = none
  ask_admin turn file_size mode excluded (some list) =
      first_listed excluded (list turn mode file_size)

  -- `_select_from_admin_module`
  unfoldable pub select_from_admin_module : ℕ → ℕ → String → List String → Option ElementInfo
  select_from_admin_module turn file_size mode excluded =
      ask_admin turn file_size mode excluded n.admin

  abbrev pub or_else : Option ElementInfo → Option ElementInfo → Option ElementInfo
  or_else (some e) other = some e
  or_else none other = other

  abbrev pub required_mode : RetentionPolicy → String
  required_mode temporary = "edit"
  required_mode permanent = "rw"

  -- `select_storage_element`
  unfoldable pub select_storage_element : ℕ → ℕ → RetentionPolicy → List String → Option ElementInfo
  unfolding select_from_adaptive_monitor select_from_admin_module
  select_storage_element turn file_size policy excluded =
      or_else (select_from_adaptive_monitor turn file_size (required_mode policy) excluded)
        (select_from_admin_module turn file_size (required_mode policy) excluded)

  -- The answer in `_upload_to_storage_element`.
  abbrev pub answer_result : String → PostAnswer → Result UploadError String
  answer_result element uploaded = ok element
  answer_result element (http_error code) =
      if code == 507 then raise (insufficient_storage element) else raise element_unavailable
  answer_result element unreachable = raise element_unavailable

  -- The error of an upload that has no element to try, after the last 507 if there was one.
  abbrev pub exhausted : Option String → UploadError
  exhausted none = no_available_storage
  exhausted (some element) = insufficient_storage element

  -- An attempt after its POST; `next` is what the further attempts give.
  abbrev pub after_post : String → Result UploadError String → Uploaded → Uploaded
  after_post element (ok e) next = record { outcome = ok e; sent = element ∷ [] }
  after_post element (raise (insufficient_storage e)) next = record {
    outcome = next.outcome;
    sent = element ∷ next.sent;
  }
  after_post element (raise element_unavailable) next = record {
    outcome = raise element_unavailable;
    sent = element ∷ [];
  }
  after_post element (raise no_available_storage) next = record {
    outcome = raise no_available_storage;
    sent = element ∷ [];
  }
  after_post element (raise size_limit_exceeded) next = record {
    outcome = raise size_limit_exceeded;
    sent = element ∷ [];
  }

  -- An attempt after its selection; `next` is what the further attempts give without an element.
  abbrev pub after_selection :
      ℕ → Option String → (String → Uploaded) → Option ElementInfo → Uploaded
  after_selection turn last next none = record { outcome = raise (exhausted last); sent = [] }
  after_selection turn last next (some e) =
      after_post e.element_id (answer_result e.element_id (n.post turn)) (next e.element_id)

  -- The loop of `upload_file` with `left` attempts, after `turn` POSTs and as many selections after the
  -- first one, which stands before the loop.
  unfoldable pub attempts : ℕ → ℕ → ℕ → RetentionPolicy → List String → Option String → Uploaded
  unfolding select_storage_element
  attempts zero turn file_size policy excluded last = record {
    outcome = raise (exhausted last);
    sent = [];
  }
  attempts (suc left) turn file_size policy excluded last =
      after_selection turn last
        (λ id. attempts left (suc turn) file_size policy (id ∷ excluded) (some id))
        (select_storage_element (suc turn) file_size policy excluded)

  abbrev pub unless_none : Option ElementInfo → Uploaded → Uploaded
  unless_none none loop = record { outcome = raise no_available_storage; sent = [] }
  unless_none (some e) loop = loop

  -- `upload_file` from the test of the size to the answer of the element.
  unfoldable pub upload_file : ℕ → RetentionPolicy → Uploaded
  unfolding attempts
  upload_file file_size policy =
      if ltb max_file_size file_size
      then record { outcome = raise size_limit_exceeded; sent = [] }
      else unless_none (select_storage_element 0 file_size policy [])
          (attempts default_max_retries 0 file_size policy [] none)
