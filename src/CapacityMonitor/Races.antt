-- ===== src/CapacityMonitor/Races.antt =====
-- What an instance does to the lock and to its role between two of its calls.
use art_store.Common.{
  ◌≡◌, ◌≢◌, refl, String, Bool, true, false, Option, none, some, Result, ok, raise, str_eq_iff,
}
use art_store.CapacityMonitor.{
  leader, follower, CapacityMonitorConfig, Monitor, Redis, demoted, on_current, on_set, on_delete,
  on_holder, release_leadership, renew_leadership, renewal_round,
}
use art_store.CapacityMonitor.Lock.{holder, Documented}

module _ (r : Redis) (c : CapacityMonitorConfig) (doc : Documented r c.leader_lock_key) where
  open doc use {now, lock}

  -- Where the GET of a release names the instance, the release deletes the lock, whoever has it when Redis
  -- takes the DELETE, and the instance ends as a follower.
  pub release_leadership-deletes :
      (m : Monitor) (s : r.Store) (b : Bool)
      → r.get c.leader_lock_key s ≡ ok (some m.instance_id)
      → (r.delete c.leader_lock_key (r.others s)).1 ≡ ok b
      → (lock (release_leadership r c m s).store ≡ none)
        × ((release_leadership r c m s).monitor.role ≡ follower)
  unfolding release_leadership on_delete
  release_leadership-deletes m s b named answer =
      rw (named, (str_eq_iff m.instance_id m.instance_id).1 refl, answer)
        (doc.delete_acts (r.others s) b answer, refl)

  current-role :
      (m : Monitor) (o : Result (Unit {0}) (Option String))
      → (on_current (demoted m) o).role ≢ leader
  unfolding on_current
  current-role m (ok o) h = cc
  current-role m (raise e) h = cc

  refused-role : (m : Monitor) (s : r.Store) → (on_set r c m s (ok false)).monitor.role ≢ leader
  unfolding on_set
  refused-role m s = current-role m (r.get c.leader_lock_key (r.others s))

  -- One GET that raises costs the leader the lead: the same round ends with another role, although the lock
  -- names the instance all along and nobody else can take it until it expires.
  pub renewal_round-demotes :
      (m : Monitor) (s : r.Store) (a : Bool)
      → m.role ≡ leader
      → r.get c.leader_lock_key s ≡ raise tt
      → holder (lock (r.others s)) (now (r.others s)) ≡ some m.instance_id
      → (r.set_nx c.leader_lock_key m.instance_id c.leader_ttl (r.others s)).1 ≡ ok a
      → ((renewal_round r c m s).monitor.role ≢ leader)
        × (lock (r.set_nx c.leader_lock_key m.instance_id c.leader_ttl (r.others s)).0
            ≡ lock (r.others s))
  unfolding renewal_round renew_leadership on_holder
  renewal_round-demotes m s true lead failed held answer =
      absurd (cc (held, (doc.set_granted m.instance_id c.leader_ttl (r.others s) answer).0))
  renewal_round-demotes m s false lead failed held answer =
      rw (lead, failed, answer)
        (
          refused-role m (r.set_nx c.leader_lock_key m.instance_id c.leader_ttl (r.others s)).0,
          (doc.set_refused m.instance_id c.leader_ttl (r.others s) answer).1,
        )
