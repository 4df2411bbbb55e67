-- ===== src/CapacityMonitor/Leases.antt =====
-- That no two instances count on the lock at one time.
use art_store.Common.{
  Option, ℕ, ◌+◌, ◌≤◌, ◌<◌, ◌≡◌, refl, sym, ◌∙◌, inl, inr, String, Bool, true, false, some, Result,
  ok, raise, ltb, ltb→lt, ◌&&◌, if◌then◌else◌, arith, Bool-cases, str_eq, str_eq_iff,
}
use art_store.CapacityMonitor.{
  MonitorRole, leader, CapacityMonitorConfig, Monitor, Redis, demoted, is_leader, on_current,
  on_set, on_expire, on_delete,
}
use art_store.CapacityMonitor.Lock.{Entry, Documented}
use art_store.CapacityMonitor.Calls.{
  System, Step, set_call, expire_call, delete_call, wait, set, extend, delete, lose, Reach, here,
  next,
}
use art_store.CapacityMonitor.Backing.{
  Backed, IsBacked, ended-Backed, later-Backed, free-Backed, extended-Backed, renewed-Backed,
  update-Backed,
}

module _ (r : Redis) (c : CapacityMonitorConfig) (doc : Documented r c.leader_lock_key) where
  open doc use {now, lock}

  on_current-demoted :
      (m : Monitor) (o : Result (Unit {0}) (Option String))
      → is_leader (on_current (demoted m) o).role ≡ false
  unfolding on_current
  on_current-demoted m (ok _) = refl
  on_current-demoted m (raise _) = refl

  -- The instance that set the lock has a lease, and one that could not has none.
  set_own-Backed :
      (s : r.Store) (i : String) (m : Monitor) (a : Result (Unit {0}) Bool)
      → (r.set_nx c.leader_lock_key i c.leader_ttl s).1 ≡ a
      → Backed r c doc
          (lock (r.set_nx c.leader_lock_key i c.leader_ttl s).0)
          (now s)
          i
          (on_set r c m (r.set_nx c.leader_lock_key i c.leader_ttl s).0 a).monitor.role
          (if is_leader
              (on_set r c m (r.set_nx c.leader_lock_key i c.leader_ttl s).0 a).monitor.role
            then now s + c.leader_ttl
            else 0)
  unfolding on_set
  set_own-Backed s i m (ok true) answer = record {
    within = omega arith;
    leads = λ _. refl;
    named = λ _. (now s + c.leader_ttl, (doc.set_granted i c.leader_ttl s answer).1, omega arith);
  }
  set_own-Backed s i m (ok false) answer =
      let after = (r.set_nx c.leader_lock_key i c.leader_ttl s).0 in
      rw (on_current-demoted m (r.get c.leader_lock_key (r.others after)))
        (ended-Backed r c doc _ _ _ _)
  set_own-Backed s i m (raise e) answer = ended-Backed r c doc _ _ _ _

  set_others-Backed :
      (s : r.Store) (i : String) (a : Result (Unit {0}) Bool)
      → (r.set_nx c.leader_lock_key i c.leader_ttl s).1 ≡ a
      → (j : String) (role : MonitorRole) (end_ : ℕ) → Backed r c doc (lock s) (now s) j role end_
      → Backed r c doc (lock (r.set_nx c.leader_lock_key i c.leader_ttl s).0) (now s) j role end_
  set_others-Backed s i (ok true) answer j role end_ b =
      free-Backed r c doc (lock s) _ (now s) j role end_ (doc.set_granted i c.leader_ttl s answer).0
        b
  set_others-Backed s i (ok false) answer j role end_ b =
      rw ((doc.set_refused i c.leader_ttl s answer).1) b
  set_others-Backed s i (raise e) answer j role end_ b =
      elim (doc.set_raised i c.leader_ttl s answer) [
        | inl same ↦ rw same b
        | inr (free, _) ↦ free-Backed r c doc (lock s) _ (now s) j role end_ free b
      ]

  set-IsBacked :
      (s : System r c doc) (i : String)
      → IsBacked r c doc s
      → IsBacked r c doc (set_call r c doc s i)
  set-IsBacked s i b =
      let call = r.set_nx c.leader_lock_key i c.leader_ttl s.store in
      rw (doc.set_now i c.leader_ttl s.store) (
        update-Backed r c doc (lock call.0) (now s.store) s.monitor s.lease i
          (on_set r c (s.monitor i) call.0 call.1).monitor _
          (set_own-Backed s.store i (s.monitor i) call.1 refl)
          (λ j _. set_others-Backed s.store i call.1 refl j (s.monitor j).role (s.lease j) (b j)))

  expire_others-Backed :
      (s : r.Store) (a : Result (Unit {0}) Bool)
      → (r.expire c.leader_lock_key c.leader_ttl s).1 ≡ a
      → (j : String) (role : MonitorRole) (end_ : ℕ) → Backed r c doc (lock s) (now s) j role end_
      → Backed r c doc (lock (r.expire c.leader_lock_key c.leader_ttl s).0) (now s) j role end_
  expire_others-Backed s (ok v) answer j role end_ b =
      rw (doc.expire_acts c.leader_ttl s v answer)
        (extended-Backed r c doc (lock s) (now s) j role end_ b)
  expire_others-Backed s (raise e) answer j role end_ b =
      elim (doc.expire_raised c.leader_ttl s answer) [
        | inl same ↦ rw same b
        | inr acted ↦ rw acted (extended-Backed r c doc (lock s) (now s) j role end_ b)
      ]

  expire_own-Backed :
      (s : r.Store) (i : String) (m : Monitor) (end_ : ℕ) (a : Result (Unit {0}) Bool)
      → (r.expire c.leader_lock_key c.leader_ttl s).1 ≡ a
      → Backed r c doc (lock s) (now s) i m.role end_
      → Backed r c doc
          (lock (r.expire c.leader_lock_key c.leader_ttl s).0)
          (now s)
          i
          (on_expire r c m (r.expire c.leader_lock_key c.leader_ttl s).0 a).monitor.role
          (if (on_expire r c m (r.expire c.leader_lock_key c.leader_ttl s).0 a).result
              && ltb (now s) end_
            then now s + c.leader_ttl
            else end_)
  unfolding on_expire
  expire_own-Backed s i m end_ (ok v) answer b = elim (Bool-cases (ltb (now s) end_)) [
    | inl lasts ↦
        rw (lasts, doc.expire_acts c.leader_ttl s v answer)
          (renewed-Backed r c doc (lock s) (now s) i m.role end_ (ltb→lt (now s) end_ lasts) b)
    | inr over ↦ rw over (expire_others-Backed s (ok v) answer i m.role end_ b)
  ]
  expire_own-Backed s i m end_ (raise e) answer b =
      expire_others-Backed s (raise e) answer i m.role end_ b

  extend-IsBacked :
      (s : System r c doc) (i : String)
      → IsBacked r c doc s
      → IsBacked r c doc (expire_call r c doc s i)
  extend-IsBacked s i b =
      let call = r.expire c.leader_lock_key c.leader_ttl s.store in
      rw (doc.expire_now c.leader_ttl s.store) (
        update-Backed r c doc (lock call.0) (now s.store) s.monitor s.lease i
          (on_expire r c (s.monitor i) call.0 call.1).monitor _
          (expire_own-Backed s.store i (s.monitor i) (s.lease i) call.1 refl (b i))
          (λ j _. expire_others-Backed s.store call.1 refl j (s.monitor j).role (s.lease j) (b j)))

  -- Before its own lease ends, an instance that deletes the lock takes it from nobody else.
  delete_others-Backed :
      (s : r.Store) (i j : String) (m : Monitor) (end_i : ℕ) (role : MonitorRole) (end_ : ℕ)
      → now s < end_i
      → Backed r c doc (lock s) (now s) i m.role end_i
      → str_eq i j ≡ false
      → Backed r c doc (lock s) (now s) j role end_
      → Backed r c doc (lock (r.delete c.leader_lock_key s).0) (now s) j role end_
  delete_others-Backed s i j m end_i role end_ h bi other b = record {
    within = b.within;
    leads = b.leads;
    named = λ l.
        let (x, same_i, _) = bi.named h in
        let (y, same_j, _) = b.named l in
        let one : i ≡ j = cc (sym same_i ∙ same_j) in absurd (cc (other, (str_eq_iff i j).1 one));
  }

  delete-IsBacked :
      (s : System r c doc) (i : String)
      → now s.store < s.lease i
      → IsBacked r c doc s
      → IsBacked r c doc (delete_call r c doc s i)
  delete-IsBacked s i h b =
      let call = r.delete c.leader_lock_key s.store in
      rw (doc.delete_now s.store) (
        update-Backed r c doc (lock call.0) (now s.store) s.monitor s.lease i
          (on_delete r c (s.monitor i) call.0 call.1).monitor 0 (ended-Backed r c doc _ _ _ _)
          (λ j other.
            delete_others-Backed s.store i j (s.monitor i) (s.lease i) (s.monitor j).role
              (s.lease j) h (b i) other (b j)))

  Step-IsBacked :
      {s t : System r c doc} → Step r c doc s t → IsBacked r c doc s → IsBacked r c doc t
  Step-IsBacked {s} (wait after later same) b = λ i. rw same (
      later-Backed r c doc (lock s.store) (now s.store) (now after) i (s.monitor i).role (s.lease i)
        later (b i))
  Step-IsBacked {s} (set i) b = set-IsBacked s i b
  Step-IsBacked {s} (extend i) b = extend-IsBacked s i b
  Step-IsBacked {s} (delete i h) b = delete-IsBacked s i h b
  Step-IsBacked {s} (lose i) b =
      update-Backed r c doc (lock s.store) (now s.store) s.monitor s.lease i (demoted (s.monitor i))
        0 (ended-Backed r c doc _ _ _ _) (λ j _. b j)

  Reach-IsBacked :
      {s t : System r c doc} → Reach r c doc s t → IsBacked r c doc s → IsBacked r c doc t
  Reach-IsBacked here b = b
  Reach-IsBacked (next reach step) b = Step-IsBacked step (Reach-IsBacked reach b)

  one_named :
      (e : Entry) (t : ℕ) (i j : String) (ri rj : MonitorRole) (ei ej : ℕ)
      → t < ei
      → t < ej
      → Backed r c doc e t i ri ei
      → Backed r c doc e t j rj ej
      → i ≡ j
  one_named e t i j ri rj ei ej hi hj bi bj =
      let (x, same_i, _) = bi.named hi in
      let (y, same_j, _) = bj.named hj in cc (sym same_i ∙ same_j)

  -- From instances without a lease on, whatever calls they make in whatever order and however long each
  -- takes, as long as none deletes the lock after its own lease has ended: an instance whose lease lasts
  -- leads and the lock names it until then, and no two such instances are different.
  pub Reach-Exclusive :
      {s t : System r c doc}
      → ((i : String) → s.lease i ≡ 0)
      → Reach r c doc s t
      → (i : String) → now t.store < t.lease i
      → (((t.monitor i).role ≡ leader)
          × ((expiry : ℕ) × (lock t.store ≡ some (i, expiry)) × (t.lease i ≤ expiry)))
        × ((j : String) → now t.store < t.lease j → i ≡ j)
  Reach-Exclusive {s} {t} start reach i h =
      let b : IsBacked r c doc t =
        Reach-IsBacked reach (λ i. rw (start i) (ended-Backed r c doc _ _ _ _)) in
      (
        ((b i).leads h, (b i).named h),
        λ j l. one_named (lock t.store) (now t.store) i j _ _ _ _ h l (b i) (b j),
      )
