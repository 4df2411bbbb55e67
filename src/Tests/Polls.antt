-- ===== src/Tests/Polls.antt =====
-- The polling of an element that times out once, and a reader of the cache after it.
use art_store.Common.{
  inr, inl, str_eq_refl, ℕ, zero, suc, ◌≡◌, refl, ap, String, true, false, [], ◌∷◌, ◌++◌, none,
  some, ok, str_eq, if◌then◌else◌, Bool-cases, ◌==◌,
}
use art_store.Common.Json.{Dict, get}
use art_store.CapacityMonitor.Info.{Texts, CapacityBody, PollAnswer, answered, raised}
use art_store.CapacityMonitor.Poll.{
  Command, hset, expire, set_ex, zadd, zrem, default_poll_config, Cache, no_client, send,
  get_capacity, poll_storage_element, poll_attempts,
}
use art_store.CapacityMonitor.Polling.{IsPolled, poll_attempts-IsPolled}
use art_store.CapacityMonitor.Reads.{
  over, touches, AreInverse, Hashes, Responds, get_capacity-poll_storage_element,
}

-- Numbers as that many strokes.
abbrev strokes : ℕ → String
strokes zero = ""
strokes (suc n) = String.◌∷◌ "1" (strokes n)

abbrev count : String → ℕ
count String.[] = 0
count (String.◌∷◌ c s) = suc (count s)

count-strokes : (n : ℕ) → count (strokes n) ≡ n
count-strokes zero = refl
count-strokes (suc n) = ap suc (count-strokes n)

abbrev texts : Texts
texts = record {
  int_text = strokes;
  int_of = λ t. some (count t);
  float_text = strokes;
  float_of = λ t. some (count t);
}

texts-AreInverse : AreInverse texts
texts-AreInverse = record {
  int-text = λ n. ap some (count-strokes n);
  float-text = λ n. ap some (count-strokes n);
}

abbrev body : CapacityBody
body = record {
  storage_id = some "se-1";
  mode = some "rw";
  total = some 10;
  used = some 4;
  available = some 6;
  percent_used = some 40;
  health = some "healthy";
  backend = some "local";
  location = none;
  last_update = none;
}

abbrev answers : ℕ → PollAnswer
answers n = if n == 0 then raised "timeout" else answered body

poll_attempts-IsPolled_example :
    IsPolled default_poll_config "se-1" "http://se-1" "bad health"
      (λ n. "now")
      answers
      0
      2
      (poll_attempts default_poll_config "se-1" "http://se-1" "bad health" (λ n. "now") answers 3)
poll_attempts-IsPolled_example =
    poll_attempts-IsPolled default_poll_config "se-1" "http://se-1" "bad health" (λ n. "now")
      answers 2

-- A server that keeps the hashes only.
abbrev apply_to : Command → (String → Dict String) → String → Dict String
apply_to (hset key m) s j = if str_eq key j then m ++ s j else s j
apply_to (expire key ttl) s j = s j
apply_to (set_ex key v ttl) s j = s j
apply_to (zadd key member score) s j = s j
apply_to (zrem key member) s j = s j

abbrev hashes : Cache
hashes = record {
  Store = String → Dict String;
  apply = λ cmd s. (apply_to cmd s, true);
  hgetall = λ key s. ok (s key);
}

get-append : (f : String) (m old : Dict String) → get f (m ++ old) ≡ over (get f m) (get f old)
get-append f [] old = refl
get-append f ((j, v) ∷ m) old = elim (Bool-cases (str_eq j f)) [
  | inl same ↦ rw same refl
  | inr other ↦ rw other (get-append f m old)
]

apply_to-written :
    (key : String) (m : Dict String) (s : String → Dict String) (f : String)
    → get f (apply_to (hset key m) s key) ≡ over (get f m) (get f (s key))
apply_to-written key m s f = rw (str_eq_refl key) (get-append f m (s key))

apply_to-untouched :
    (cmd : Command) (key : String) (s : String → Dict String)
    → touches cmd key ≡ false
    → apply_to cmd s key ≡ s key
apply_to-untouched (hset j m) key s h = rw h refl
apply_to-untouched (expire j ttl) key s h = refl
apply_to-untouched (set_ex j v ttl) key s h = refl
apply_to-untouched (zadd j member score) key s h = refl
apply_to-untouched (zrem j member) key s h = refl

hashes-Hashes : Hashes hashes
hashes-Hashes = record {
  hash = λ s key. s key;
  read = λ key s d h. cc;
  written = λ key m s f h. apply_to-written key m s f;
  untouched = λ cmd key s h. apply_to-untouched cmd key s h;
}

hashes-Responds : Responds hashes
hashes-Responds = record { applies = λ cmd s. refl; reads = λ key s. (s key, refl) }

abbrev nothing_cached : String → Dict String
nothing_cached key = []

get_capacity-poll_storage_element_example :
    get_capacity hashes texts no_client "se-1" (
      send hashes
        (poll_storage_element texts default_poll_config [] "se-1" "http://se-1" "bad health"
          (λ n. "now")
          answers
          []).0
        nothing_cached)
    ≡ elim (poll_attempts default_poll_config "se-1" "http://se-1" "bad health"
        (λ n. "now")
        answers
        3).info [
          | some i ↦ ok (some i)
          | none ↦ get_capacity hashes texts no_client "se-1" nothing_cached
        ]
get_capacity-poll_storage_element_example =
    get_capacity-poll_storage_element hashes hashes-Hashes hashes-Responds texts no_client
      default_poll_config [] "se-1" refl refl refl texts-AreInverse "http://se-1" "bad health"
      (λ n. "now") answers [] nothing_cached
