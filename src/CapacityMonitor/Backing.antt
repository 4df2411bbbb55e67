-- ===== src/CapacityMonitor/Backing.antt =====
-- What the entry of the lock says of the lease of one instance, and what a change of the entry leaves of it.
use art_store.Common.{
  ℕ, ◌+◌, ◌≤◌, ◌<◌, ◌≡◌, refl, subst, ap, inl, inr, String, false, none, some, lt→ltb, arith,
  Bool-cases, str_eq, str_eq_iff,
}
use art_store.CapacityMonitor.{MonitorRole, leader, CapacityMonitorConfig, Monitor, Redis}
use art_store.CapacityMonitor.Lock.{Entry, holder, extended, expiry_of, expiry-le, Documented}
use art_store.CapacityMonitor.Calls.{update, System}

module _ (r : Redis) (c : CapacityMonitorConfig) (doc : Documented r c.leader_lock_key) where
  open doc use {now, lock}

  -- While a lease lasts, its instance leads and the lock names it at least until the end of the lease.
  pub record Backed (e : Entry) (t : ℕ) (i : String) (role : MonitorRole) (end_ : ℕ) : Type 0 where
    pub within : end_ ≤ t + c.leader_ttl
    pub leads : t < end_ → role ≡ leader
    pub named : t < end_ → (expiry : ℕ) × (e ≡ some (i, expiry)) × (end_ ≤ expiry)

  abbrev pub IsBacked : System r c doc → Type 0
  IsBacked s = (i : String) → Backed (lock s.store) (now s.store) i (s.monitor i).role (s.lease i)

  pub ended-Backed : (e : Entry) (t : ℕ) (i : String) (role : MonitorRole) → Backed e t i role 0
  ended-Backed e t i role = record {
    within = omega arith;
    leads = λ h. absurd (omega (arith, h));
    named = λ h. absurd (omega (arith, h));
  }

  pub later-Backed :
      (e : Entry) (t u : ℕ) (i : String) (role : MonitorRole) (end_ : ℕ)
      → t ≤ u
      → Backed e t i role end_
      → Backed e u i role end_
  later-Backed e t u i role end_ l b = record {
    within = omega (arith, l, b.within);
    leads = λ h. b.leads (omega (arith, l));
    named = λ h. b.named (omega (arith, l));
  }

  -- A lock that is free backs nobody, so whoever sets it takes nothing away.
  pub free-Backed :
      (e e' : Entry) (t : ℕ) (j : String) (role : MonitorRole) (end_ : ℕ)
      → holder e t ≡ none
      → Backed e t j role end_
      → Backed e' t j role end_
  free-Backed e e' t j role end_ free b = record {
    within = b.within;
    leads = b.leads;
    named = λ h.
        let (expiry, same, l) = b.named h in
        absurd (omega (arith, h, l, expiry-le e t free, ap expiry_of same));
  }

  extended-some :
      (j : String) (expiry t ttl : ℕ)
      → t < expiry
      → extended (some (j, expiry)) t ttl ≡ some (j, t + ttl)
  extended-some j expiry t ttl h = rw (lt→ltb t expiry h) refl

  pub extended-Backed :
      (e : Entry) (t : ℕ) (j : String) (role : MonitorRole) (end_ : ℕ)
      → Backed e t j role end_
      → Backed (extended e t c.leader_ttl) t j role end_
  extended-Backed e t j role end_ b = record {
    within = b.within;
    leads = b.leads;
    named = λ h.
        let (expiry, same, l) = b.named h in
        (
          t + c.leader_ttl,
          rw same (extended-some j expiry t c.leader_ttl (omega (arith, h, l))),
          b.within,
        );
  }

  pub renewed-Backed :
      (e : Entry) (t : ℕ) (j : String) (role : MonitorRole) (end_ : ℕ)
      → t < end_
      → Backed e t j role end_
      → Backed (extended e t c.leader_ttl) t j role (t + c.leader_ttl)
  renewed-Backed e t j role end_ h b = record {
    within = omega arith;
    leads = λ _. b.leads h;
    named = λ _.
        let (expiry, same, l) = b.named h in
        (
          t + c.leader_ttl,
          rw same (extended-some j expiry t c.leader_ttl (omega (arith, h, l))),
          omega arith,
        );
  }

  pub update-Backed :
      (e : Entry) (t : ℕ) (monitor : String → Monitor) (lease : String → ℕ) (i : String)
      (m : Monitor) (end_ : ℕ)
      → Backed e t i m.role end_
      → ((j : String) → str_eq i j ≡ false → Backed e t j (monitor j).role (lease j))
      → (j : String) → Backed e t j (update monitor i m j).role (update lease i end_ j)
  update-Backed e t monitor lease i m end_ own others j = elim (Bool-cases (str_eq i j)) [
    | inl same ↦
        rw same (subst (λ (k : String). Backed e t k m.role end_) ((str_eq_iff i j).0 same) own)
    | inr other ↦ rw other (others j other)
  ]
