-- ===== src/Tests/Monitors.antt =====
-- Two instances of the ingester and their lock, and the polling of one element.
use art_store.Common.{
  ◌≢◌, ℕ, ◌+◌, ◌≤◌, ◌<◌, ◌≡◌, refl, inr, String, Bool, true, false, Option, none, some, Result, ok,
  raise, arith, is_some,
}
use art_store.CapacityMonitor.{
  on_current, on_set, leader, follower, default_config, Monitor, Redis, renewal_round, renewal_loop,
}
use art_store.CapacityMonitor.Lock.{Entry, holder, extended, Documented}
use art_store.CapacityMonitor.Rounds.{Alone, Leads, renewal_loop-Leads}
use art_store.CapacityMonitor.Leases.{Reach-Exclusive}
use art_store.CapacityMonitor.Calls.{System, set_call, set, here, next}
use art_store.CapacityMonitor.Races.{renewal_round-demotes}

-- A server with one key and a clock that sleeps move on.
record Server : Type 0 where
  time : ℕ
  entry : Entry

abbrev after_set : String → ℕ → Server → Option String → Server × Result (Unit {0}) Bool
after_set v ttl s none = (record s { entry = some (v, s.time + ttl) }, ok true)
after_set v ttl s (some w) = (s, ok false)

-- `deaf` makes every GET raise, and `others` is what the rest does between two calls.
abbrev read : Bool → Server → Result (Unit {0}) (Option String)
read true s = raise tt
read false s = ok (holder s.entry s.time)

abbrev server_with : Bool → (Server → Server) → Redis
server_with deaf others = record {
  Store = Server;
  set_nx = λ key v ttl s. after_set v ttl s (holder s.entry s.time);
  get = λ key s. read deaf s;
  expire = λ key ttl s.
      (record s { entry = extended s.entry s.time ttl }, ok (is_some (holder s.entry s.time)));
  delete = λ key s. (record s { entry = none }, ok (is_some (holder s.entry s.time)));
  others = others;
  sleep = λ n s. record s { time = s.time + n };
}

abbrev server : Redis
server = server_with false (λ s. s)

read-answer :
    (deaf : Bool) (s : Server) (o : Option String) → read deaf s ≡ ok o → o ≡ holder s.entry s.time
read-answer true s o h = cc
read-answer false s o h = cc

after_set-time :
    (v : String) (ttl : ℕ) (s : Server) (o : Option String) → (after_set v ttl s o).0.time ≡ s.time
after_set-time v ttl s none = refl
after_set-time v ttl s (some w) = refl

after_set-granted :
    (v : String) (ttl : ℕ) (s : Server) (o : Option String)
    → (after_set v ttl s o).1 ≡ ok true
    → (o ≡ none) × ((after_set v ttl s o).0.entry ≡ some (v, s.time + ttl))
after_set-granted v ttl s none h = (refl, refl)
after_set-granted v ttl s (some w) h = cc

after_set-refused :
    (v : String) (ttl : ℕ) (s : Server) (o : Option String)
    → (after_set v ttl s o).1 ≡ ok false
    → ((w : String) × (o ≡ some w)) × ((after_set v ttl s o).0.entry ≡ s.entry)
after_set-refused v ttl s none h = cc
after_set-refused v ttl s (some w) h = ((w, refl), refl)

after_set-answers :
    (v : String) (ttl : ℕ) (s : Server) (o : Option String)
    → (b : Bool) × ((after_set v ttl s o).1 ≡ ok b)
after_set-answers v ttl s none = (true, refl)
after_set-answers v ttl s (some w) = (false, refl)

after_set-not_raised :
    (v : String) (ttl : ℕ) (s : Server) (o : Option String) → (after_set v ttl s o).1 ≡ raise tt → ⊥
after_set-not_raised v ttl s none h = cc
after_set-not_raised v ttl s (some w) h = cc

abbrev server-Documented :
    (deaf : Bool) (others : Server → Server) (key : String)
    → Documented (server_with deaf others) key
server-Documented deaf others key = record {
  now = λ s. s.time;
  lock = λ s. s.entry;
  set_now = λ v ttl s. after_set-time v ttl s (holder s.entry s.time);
  set_granted = λ v ttl s h. after_set-granted v ttl s (holder s.entry s.time) h;
  set_refused = λ v ttl s h. after_set-refused v ttl s (holder s.entry s.time) h;
  set_raised = λ v ttl s h. absurd (after_set-not_raised v ttl s (holder s.entry s.time) h);
  get_answer = λ s o h. read-answer deaf s o h;
  expire_now = λ ttl s. refl;
  expire_acts = λ ttl s b h. refl;
  expire_raised = λ ttl s h. inr refl;
  delete_now = λ s. refl;
  delete_acts = λ s b h. refl;
  delete_raised = λ s h. inr refl;
}

server-Alone :
    Alone server default_config.leader_lock_key
      (server-Documented false (λ s. s) default_config.leader_lock_key)
server-Alone = record {
  set_answers = λ v ttl s. after_set-answers v ttl s (holder s.entry s.time);
  get_answers = λ s. (holder s.entry s.time, refl);
  expire_answers = λ ttl s. (is_some (holder s.entry s.time), refl);
  others_lock = λ s. refl;
  others_now = λ s. omega arith;
  sleep_lock = λ n s. refl;
  sleep_now = λ n s. omega arith;
}

abbrev second : Monitor
second = record { instance_id = "ingester-2"; role = follower; leader_transitions_count = 0 }

-- The first instance has died and left a lock that ends at 125.
abbrev left_over : Server
left_over = record { time = 100; entry = some ("ingester-1", 125) }

renewal_loop-Leads_example :
    Leads server default_config
      (server-Documented false (λ s. s) "capacity_monitor:leader_lock")
      server-Alone
      "ingester-2"
      (renewal_loop server default_config 3 (renewal_round server default_config second left_over))
renewal_loop-Leads_example =
    renewal_loop-Leads server default_config
      (server-Documented false (λ s. s) default_config.leader_lock_key) server-Alone "ingester-2" 3
      second left_over refl (omega arith)

abbrev all_idle :
    System server default_config (server-Documented false (λ s. s) default_config.leader_lock_key)
all_idle = record {
  store = record { time = 100; entry = none };
  monitor = λ i. record { instance_id = i; role = follower; leader_transitions_count = 0 };
  lease = λ i. 0;
}

abbrev one_leads :
    System server default_config (server-Documented false (λ s. s) default_config.leader_lock_key)
one_leads =
    set_call server default_config (server-Documented false (λ s. s) default_config.leader_lock_key)
      (set_call server default_config
        (server-Documented false (λ s. s) default_config.leader_lock_key) all_idle "ingester-1")
      "ingester-2"

Reach-Exclusive_example :
    (((one_leads.monitor "ingester-1").role ≡ leader)
      × ((expiry : ℕ) × (one_leads.store.entry ≡ some ("ingester-1", expiry))
          × (one_leads.lease "ingester-1" ≤ expiry)))
    × ((j : String) → one_leads.store.time < one_leads.lease j → "ingester-1" ≡ j)
unfolding on_set on_current
Reach-Exclusive_example =
    Reach-Exclusive server default_config
      (server-Documented false (λ s. s) default_config.leader_lock_key) {s = all_idle}
      {t = one_leads} (λ i. refl) (next (next here (set "ingester-1")) (set "ingester-2"))
      "ingester-1" (omega arith)

abbrev leading : Monitor
leading = record second { role = leader }

abbrev held : Server
held = record { time = 100; entry = some ("ingester-2", 125) }

renewal_round-demotes_example :
    ((renewal_round (server_with true (λ s. s)) default_config leading held).monitor.role ≢ leader)
    × ((renewal_round (server_with true (λ s. s)) default_config leading held).store.entry
        ≡ some ("ingester-2", 125))
unfolding renewal_round
renewal_round-demotes_example =
    renewal_round-demotes (server_with true (λ s. s)) default_config
      (server-Documented true (λ s. s) default_config.leader_lock_key) leading held false refl refl
      refl refl
