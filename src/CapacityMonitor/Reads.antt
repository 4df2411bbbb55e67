-- ===== src/CapacityMonitor/Reads.antt =====
-- What a reader of the cache gets after a polling.
use Prim.Native.String.{◌++◌ as str_append}
use Prim.Native.String.append
use Prim.Native.Char.{code}
use art_store.Common.{
  str_eq_iff, str_eq_refl, ◌==◌, All, ◌&&◌, fun_ext, ℕ, ◌≡◌, refl, sym, ap, ◌∙◌, inl, inr, String,
  Bool, true, false, List, [], ◌∷◌, Option, none, some, ok, str_eq, if◌then◌else◌, arith,
  Option-cases, Bool-cases,
}
use art_store.Common.Json.{Dict, get}
use art_store.Upload.{HealthStatus, healthy, degraded, unhealthy, is_healthy, writable_mode}
use art_store.CapacityMonitor.Info.{
  StorageCapacityInfo, Texts, PollAnswer, health_value, health_of, to_dict, from_dict, or_else,
}
use art_store.CapacityMonitor.Poll.{
  Command, hset, expire, set_ex, zadd, zrem, capacity_key, health_key, available_key, PollConfig,
  Polled, Cache, Fallback, send, from_hash, get_capacity, save_capacity_to_cache, mark_se_unhealthy,
  poll_attempts, after_poll, poll_storage_element,
}

-- `int(str(n))` and `float(str(x))` give the number back.
pub record AreInverse (t : Texts) : Type 0 where
  pub int-text : (n : ℕ) → t.int_of (t.int_text n) ≡ some n
  pub float-text : (n : ℕ) → t.float_of (t.float_text n) ≡ some n

health_of-value : (h : HealthStatus) → health_of (health_value h) ≡ some h
unfolding health_of
health_of-value healthy = refl
health_of-value degraded = refl
health_of-value unhealthy = refl

first_code : String → ℕ
first_code String.[] = 0
first_code (String.◌∷◌ c s) = code c

-- The two keys of an element start with different letters.
health-apart : (se_id : String) → str_eq (health_key se_id) (capacity_key se_id) ≡ false
unfolding first_code
health-apart se_id = elim (Bool-cases (str_eq (health_key se_id) (capacity_key se_id))) [
  | inr other ↦ other
  | inl same ↦
      let letters : ◌≡◌ {A = ℕ} b'h' b'c' = ap first_code (
        sym (append.cons "h" "ealth:" se_id)
        ∙ (str_eq_iff (health_key se_id) (capacity_key se_id)).0 same
        ∙ append.cons "c" "apacity:" se_id) in
      absurd (omega (arith, letters))
]

abbrev pub over : Option String → Option String → Option String
over none old = old
over (some v) old = some v

-- The fields of the information hide whatever the hash had.
from_dict-to_dict :
    (t : Texts)
    → AreInverse t
    → (i : StorageCapacityInfo) (old : String → Option String)
    → from_dict t (λ f. over (get f (to_dict t i)) (old f)) ≡ some i
unfolding from_dict to_dict
from_dict-to_dict t inv i old =
    rw
      (
        inv.int-text i.total,
        inv.int-text i.used,
        inv.int-text i.available,
        inv.float-text i.percent_used,
        health_of-value i.health,
      )
      refl

abbrev pub touches : Command → String → Bool
touches (hset j m) key = str_eq j key
touches (expire j ttl) key = str_eq j key && (ttl == 0)
touches (set_ex j v ttl) key = str_eq j key
touches (zadd j member score) key = str_eq j key
touches (zrem j member) key = str_eq j key

-- What Redis documents of hashes, as long as no key expires: HSET sets the fields that it is given, and a
-- command leaves the hashes under other keys.
pub record Hashes (k : Cache) : Type 0 where
  pub hash : k.Store → String → Dict String
  pub read :
      (key : String) (s : k.Store) (d : Dict String) → k.hgetall key s ≡ ok d → d ≡ hash s key
  pub written :
      (key : String) (m : Dict String) (s : k.Store) (f : String)
      → (k.apply (hset key m) s).1 ≡ true
      → get f (hash (k.apply (hset key m) s).0 key) ≡ over (get f m) (get f (hash s key))
  pub untouched :
      (cmd : Command) (key : String) (s : k.Store)
      → touches cmd key ≡ false
      → hash (k.apply cmd s).0 key ≡ hash s key

pub record Responds (k : Cache) : Type 0 where
  pub applies : (cmd : Command) (s : k.Store) → (k.apply cmd s).1 ≡ true
  pub reads : (key : String) (s : k.Store) → (d : Dict String) × (k.hgetall key s ≡ ok d)

module _ (k : Cache) (doc : Hashes k) (up : Responds k) (t : Texts) (fallback : Fallback) where
  send-untouched :
      (key : String) (cmds : List Command) (s : k.Store)
      → All (λ cmd. touches cmd key ≡ false) cmds
      → doc.hash (send k cmds s) key ≡ doc.hash s key
  unfolding send
  send-untouched key [] s h = refl
  send-untouched key (cmd ∷ rest) s h =
      rw (up.applies cmd s)
        (send-untouched key rest (k.apply cmd s).0 h.1 ∙ doc.untouched cmd key s h.0)

  send-cons :
      (cmd : Command) (rest : List Command) (s : k.Store)
      → send k (cmd ∷ rest) s ≡ send k rest (k.apply cmd s).0
  unfolding send
  send-cons cmd rest s = rw (up.applies cmd s) refl

  get_capacity-hash :
      (se_id : String) (s : k.Store)
      → get_capacity k t fallback se_id s ≡ from_hash k t (doc.hash s (capacity_key se_id))
  unfolding get_capacity
  get_capacity-hash se_id s =
      let (d, e) = up.reads (capacity_key se_id) s in
      rw (e, get_capacity) (ap (from_hash k t) (doc.read (capacity_key se_id) s d e))

  from_hash-some :
      (d : Dict String) (v : String) (i : StorageCapacityInfo)
      → get "storage_id" d ≡ some v
      → from_dict t (λ f. get f d) ≡ some i
      → from_hash k t d ≡ ok (some i)
  unfolding from_hash
  from_hash-some [] v i present e = absurd (cc present)
  from_hash-some (field ∷ rest) v i present e = rw (e, from_hash) refl

  stored-some :
      (t_ok : AreInverse t) (se_id : String) (i : StorageCapacityInfo) (s : k.Store)
      → from_hash k t
          (doc.hash (k.apply (hset (capacity_key se_id) (to_dict t i)) s).0 (capacity_key se_id))
        ≡ ok (some i)
  unfolding to_dict
  stored-some t_ok se_id i s =
      let key = capacity_key se_id in
      let set = up.applies (hset key (to_dict t i)) s in
      from_hash-some _ i.storage_id i (doc.written key (to_dict t i) s "storage_id" set) (
        ap (from_dict t) (fun_ext (λ f. doc.written key (to_dict t i) s f set))
        ∙ from_dict-to_dict t t_ok i (λ f. get f (doc.hash s key)))

  module _ (c : PollConfig) (priorities : Dict ℕ) (se_id : String)
      (lasts : (c.cache_ttl == 0) ≡ false)
      (edit_apart : str_eq (available_key "edit") (capacity_key se_id) ≡ false)
      (rw_apart : str_eq (available_key "rw") (capacity_key se_id) ≡ false) where
    -- The element's id is no text that ends the key of a set.
    mode_apart :
        (mode : String)
        → writable_mode mode ≡ true
        → str_eq (available_key mode) (capacity_key se_id) ≡ false
    mode_apart mode h = elim (Bool-cases (str_eq mode "edit")) [
      | inl edit ↦ rw ((str_eq_iff mode "edit").0 edit) edit_apart
      | inr other ↦ rw ((str_eq_iff mode "rw").0 (rw other at h)) rw_apart
    ]

    rest-untouched :
        (i : StorageCapacityInfo) (w h : Bool)
        → (w ≡ true → str_eq (available_key i.mode) (capacity_key se_id) ≡ false)
        → All
            (λ cmd. touches cmd (capacity_key se_id) ≡ false)
            (if w
              then (if h
                  then zadd (available_key i.mode) se_id (or_else 100 (get se_id priorities))
                    ∷ expire (available_key i.mode) c.cache_ttl
                    ∷ []
                  else zrem (available_key i.mode) se_id ∷ [])
              else [])
    rest-untouched i false h apart = tt
    rest-untouched i true true apart = (apart refl, (rw (apart refl) refl, tt))
    rest-untouched i true false apart = (apart refl, tt)

    get_capacity-untouched :
        (cmds : List Command) (s : k.Store)
        → All (λ cmd. touches cmd (capacity_key se_id) ≡ false) cmds
        → get_capacity k t fallback se_id (send k cmds s) ≡ get_capacity k t fallback se_id s
    get_capacity-untouched cmds s h =
        get_capacity-hash se_id (send k cmds s)
        ∙ ap (from_hash k t) (send-untouched (capacity_key se_id) cmds s h)
        ∙ sym (get_capacity-hash se_id s)

    get_capacity-saved :
        AreInverse t
        → (i : StorageCapacityInfo) (s : k.Store)
        → get_capacity k t fallback se_id (send k (save_capacity_to_cache t c priorities se_id i) s)
          ≡ ok (some i)
    unfolding save_capacity_to_cache
    get_capacity-saved t_ok i s =
        ap (get_capacity k t fallback se_id) (send-cons _ _ s)
        ∙ get_capacity-untouched _ (k.apply (hset (capacity_key se_id) (to_dict t i)) s).0 (
          rw (str_eq_refl (capacity_key se_id)) lasts,
          (
            health-apart se_id,
            rest-untouched i (writable_mode i.mode) (writable_mode i.mode && is_healthy i.health)
                (mode_apart i.mode),
          ),
        )
        ∙ get_capacity-hash se_id (k.apply (hset (capacity_key se_id) (to_dict t i)) s).0
        ∙ stored-some t_ok se_id i s

    get_capacity-after_poll :
        AreInverse t
        → (p : Polled) (failure_counts : Dict ℕ) (s : k.Store)
        → get_capacity k t fallback se_id
            (send k (after_poll t c priorities se_id p failure_counts).0 s)
          ≡ elim p.info [ some i ↦ ok (some i) | none ↦ get_capacity k t fallback se_id s ]
    unfolding after_poll save_capacity_to_cache mark_se_unhealthy
    get_capacity-after_poll t_ok p failure_counts s = elim (Option-cases p.info) [
      | inr (i, found) ↦ rw found (get_capacity-saved t_ok i s)
      | inl failed ↦ rw failed (
          get_capacity-untouched
            (set_ex (health_key se_id) (str_append "unhealthy: " p.last_error) c.health_ttl ∷ []) s
            (health-apart se_id, tt))
    ]

    -- After a polling, with Redis answering every call, a reader of the cache gets the information of the
    -- answer that ended the retries. If they all failed, the reader gets what it got before: the mark
    -- that the element is unhealthy is written where no reader looks.
    pub get_capacity-poll_storage_element :
        AreInverse t
        → (endpoint bad_health : String) (now : ℕ → String) (answers : ℕ → PollAnswer)
          (failure_counts : Dict ℕ) (s : k.Store)
        → get_capacity k t fallback se_id (
            send k
              (poll_storage_element t c priorities se_id endpoint bad_health now answers
                failure_counts).0
              s)
          ≡ elim (poll_attempts c se_id endpoint bad_health now answers c.http_retries).info [
            | some i ↦ ok (some i)
            | none ↦ get_capacity k t fallback se_id s
          ]
    unfolding poll_storage_element
    get_capacity-poll_storage_element t_ok endpoint bad_health now answers failure_counts s =
        get_capacity-after_poll t_ok
          (poll_attempts c se_id endpoint bad_health now answers c.http_retries) failure_counts s
