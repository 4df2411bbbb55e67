-- ===== src/CapacityMonitor/Calls.antt =====
-- The instances together: their calls on the lock in any order, with any delay between them.
use art_store.Common.{ℕ, ◌+◌, ◌≤◌, ◌<◌, ◌≡◌, String, ltb, ◌&&◌, if◌then◌else◌, str_eq}
use art_store.CapacityMonitor.{
  CapacityMonitorConfig, Monitor, Redis, demoted, is_leader, on_set, on_expire, on_delete,
}
use art_store.CapacityMonitor.Lock.{Documented}

abbrev pub update {ℓ} : {A : Type ℓ} → (String → A) → String → A → String → A
update f i a j = if str_eq i j then a else f j

module _ (r : Redis) (c : CapacityMonitorConfig) (doc : Documented r c.leader_lock_key) where
  open doc use {now, lock}

  -- The store and the instances by their ids. `lease` says until when an instance that leads may count on
  -- the lock: the time of the SET NX after which it had the role of the leader, or of an EXPIRE before that
  -- end, plus the TTL.
  pub record System : Type 0 where
    pub store : r.Store
    pub monitor : String → Monitor
    pub lease : String → ℕ

  -- SET NX of `_try_acquire_leadership`, with what the instance makes of the answer.
  abbrev pub set_call : System → String → System
  set_call s i =
      let (after, answer) = r.set_nx c.leader_lock_key i c.leader_ttl s.store in
      let o = on_set r c (s.monitor i) after answer in
      record {
        store = after;
        monitor = update s.monitor i o.monitor;
        lease =
            update s.lease i (if is_leader o.monitor.role then now s.store + c.leader_ttl else 0);
      }

  -- EXPIRE of `_renew_leadership`.
  abbrev pub expire_call : System → String → System
  expire_call s i =
      let (after, answer) = r.expire c.leader_lock_key c.leader_ttl s.store in
      let o = on_expire r c (s.monitor i) after answer in
      record {
        store = after;
        monitor = update s.monitor i o.monitor;
        lease = update s.lease i (
            if o.result && ltb (now s.store) (s.lease i)
            then now s.store + c.leader_ttl
            else s.lease i);
      }

  -- DELETE of `_release_leadership`.
  abbrev pub delete_call : System → String → System
  delete_call s i =
      let (after, answer) = r.delete c.leader_lock_key s.store in
      let o = on_delete r c (s.monitor i) after answer in
      record { store = after; monitor = update s.monitor i o.monitor; lease = update s.lease i 0 }

  -- A GET of either method that names somebody else.
  abbrev pub demote : System → String → System
  demote s i = record s {
    monitor = update s.monitor i (demoted (s.monitor i));
    lease = update s.lease i 0;
  }

  -- The calls of the instances and the time between them. EXPIRE may come at any time after the GET that
  -- named the instance, or without it; DELETE comes before the lease has ended.
  pub data Step (s : System) : System → Type 0 where
    wait :
        (after : r.Store)
        → now s.store ≤ now after
        → lock after ≡ lock s.store
        → Step s (record s { store = after })
    set : (i : String) → Step s (set_call s i)
    extend : (i : String) → Step s (expire_call s i)
    delete : (i : String) → now s.store < s.lease i → Step s (delete_call s i)
    lose : (i : String) → Step s (demote s i)

  pub data Reach (s : System) : System → Type 0 where
    here : Reach s s
    next : {t u : System} → Reach s t → Step t u → Reach s u
