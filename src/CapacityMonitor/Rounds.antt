-- ===== src/CapacityMonitor/Rounds.antt =====
-- That an instance takes the lock of the election over.
use art_store.Common.{
  ℕ, zero, suc, ◌+◌, ◌*◌, ◌≤◌, ◌<◌, ◌≡◌, refl, sym, ap, ◌∙◌, ◌⊎◌, ◌≢◌, inl, inr, String, Bool, true,
  false, Option, none, some, Result, ok, raise, arith, Bool-cases, str_eq_iff,
}
use art_store.CapacityMonitor.{
  MonitorRole, leader, follower, unknown, CapacityMonitorConfig, Monitor, Redis, is_leader, is_own,
  demoted, on_set, on_current, Outcome, on_expire, try_acquire_leadership, on_holder,
  renew_leadership, renewal_round, renewal_loop,
}
use art_store.CapacityMonitor.Lock.{
  holder, expiry_of, holder-lt, IsOurs, IsOurs-later, IsOurs-extended, IsOurs-own, expiry-le,
  Documented,
}

-- Redis answers every call on the key, and no other client touches it.
pub record Alone (r : Redis) (key : String) (doc : Documented r key) : Type 0 where
  pub set_answers :
      (v : String) (ttl : ℕ) (s : r.Store) → (b : Bool) × ((r.set_nx key v ttl s).1 ≡ ok b)
  pub get_answers : (s : r.Store) → (o : Option String) × (r.get key s ≡ ok o)
  pub expire_answers : (ttl : ℕ) (s : r.Store) → (b : Bool) × ((r.expire key ttl s).1 ≡ ok b)
  pub others_lock : (s : r.Store) → doc.lock (r.others s) ≡ doc.lock s
  pub others_now : (s : r.Store) → doc.now s ≤ doc.now (r.others s)
  pub sleep_lock : (n : ℕ) (s : r.Store) → doc.lock (r.sleep n s) ≡ doc.lock s
  pub sleep_now : (n : ℕ) (s : r.Store) → doc.now s + n ≤ doc.now (r.sleep n s)

not-own : (m : Monitor) (o : Option String) → is_own m o ≡ false → o ≢ some m.instance_id
not-own m none h e = cc
not-own m (some v) h e = ground (arith, str_eq_iff v m.instance_id)

is_leader→leader : (role : MonitorRole) → is_leader role ≡ true → role ≡ leader
is_leader→leader leader h = refl
is_leader→leader follower h = cc
is_leader→leader unknown h = cc

-- A sleep of an interval brings the end of the lock closer by as much.
one_less : (k n i t t' : ℕ) → k ≤ t + suc n * i → t + i ≤ t' → k ≤ t' + n * i
one_less k n i t t' h l = grind arith

own : (m : Monitor) (o : Option String) → is_own m o ≡ true → o ≡ some m.instance_id
own m none h = cc
own m (some v) h = ap some ((str_eq_iff v m.instance_id).0 h)

module _ (r : Redis) (c : CapacityMonitorConfig) (doc : Documented r c.leader_lock_key)
    (alone : Alone r c.leader_lock_key doc) (me : String) where
  open doc use {now, lock}

  -- The instance leads: its role says so, and nobody else holds the lock.
  pub record Leads (o : Outcome r) : Type 0 where
    pub is_me : o.monitor.instance_id ≡ me
    pub leads : o.monitor.role ≡ leader
    pub ours : IsOurs me (lock o.store) (now o.store)

  -- It still waits for a lock that had not expired.
  record Waits (s : r.Store) (o : Outcome r) : Type 0 where
    is_me : o.monitor.instance_id ≡ me
    same : lock o.store ≡ lock s
    later : now s ≤ now o.store
    lives : now s < expiry_of (lock s)

  on_current-id :
      (m : Monitor) (o : Result (Unit {0}) (Option String))
      → (on_current m o).instance_id ≡ m.instance_id
  unfolding on_current
  on_current-id m (ok o) = refl
  on_current-id m (raise e) = refl

  on_set-cases :
      (m : Monitor) (s : r.Store) (b : Bool)
      → m.instance_id ≡ me
      → (r.set_nx c.leader_lock_key m.instance_id c.leader_ttl s).1 ≡ ok b
      → Leads (on_set r c m (r.set_nx c.leader_lock_key m.instance_id c.leader_ttl s).0 (ok b))
        ⊎ Waits s (on_set r c m (r.set_nx c.leader_lock_key m.instance_id c.leader_ttl s).0 (ok b))
  unfolding on_set
  on_set-cases m s true e answer =
      let granted = (doc.set_granted m.instance_id c.leader_ttl s answer).1 in
      inl (record {
        is_me = e;
        leads = refl;
        ours = rw granted (IsOurs-own me m.instance_id (now s + c.leader_ttl) _ e);
      })
  on_set-cases m s false e answer =
      let after = (r.set_nx c.leader_lock_key m.instance_id c.leader_ttl s).0 in
      let (held, same) = doc.set_refused m.instance_id c.leader_ttl s answer in
      inr (record {
        is_me = on_current-id (demoted m) (r.get c.leader_lock_key (r.others after)) ∙ e;
        same = alone.others_lock after ∙ same;
        later = omega (arith, alone.others_now after, doc.set_now m.instance_id c.leader_ttl s);
        lives = holder-lt (lock s) (now s) held.0 held.1;
      })

  try_acquire-cases :
      (m : Monitor) (s : r.Store)
      → m.instance_id ≡ me
      → Leads (try_acquire_leadership r c m s) ⊎ Waits s (try_acquire_leadership r c m s)
  unfolding try_acquire_leadership
  try_acquire-cases m s e =
      let (b, answer) = alone.set_answers m.instance_id c.leader_ttl s in
      rw answer (on_set-cases m s b e answer)

  -- The renewal of a leader: it succeeds, or somebody else or nobody has the lock.
  record Lost (m : Monitor) (s : r.Store) (o : Outcome r) : Type 0 where
    is_me : o.monitor.instance_id ≡ me
    failed : o.result ≡ false
    there : o.store ≡ s
    other : holder (lock s) (now s) ≢ some me

  on_expire-Leads :
      (m : Monitor) (s : r.Store) (b : Bool)
      → m.instance_id ≡ me
      → m.role ≡ leader
      → IsOurs me (lock s) (now s)
      → Leads (on_expire r c m s (ok b)) × ((on_expire r c m s (ok b)).result ≡ true)
  unfolding on_expire
  on_expire-Leads m s b e lead h = (record { is_me = e; leads = lead; ours = h }, refl)

  expired-IsOurs :
      (s : r.Store) (b : Bool)
      → (r.expire c.leader_lock_key c.leader_ttl (r.others s)).1 ≡ ok b
      → IsOurs me (lock s) (now s)
      → IsOurs me
          (lock (r.expire c.leader_lock_key c.leader_ttl (r.others s)).0)
          (now (r.expire c.leader_lock_key c.leader_ttl (r.others s)).0)
  expired-IsOurs s b answer h =
      rw
        (
          doc.expire_acts c.leader_ttl (r.others s) b answer,
          alone.others_lock s,
          doc.expire_now c.leader_ttl (r.others s),
        )
        (IsOurs-extended me (lock s) (now (r.others s)) c.leader_ttl (now (r.others s))
          (IsOurs-later me (lock s) (now s) (now (r.others s)) (alone.others_now s) h)
          (omega arith))

  on_holder-cases :
      (m : Monitor) (s : r.Store) (o : Option String)
      → m.instance_id ≡ me
      → m.role ≡ leader
      → o ≡ holder (lock s) (now s)
      → (Leads (on_holder r c m s (ok o)) × ((on_holder r c m s (ok o)).result ≡ true))
        ⊎ Lost m s (on_holder r c m s (ok o))
  unfolding on_holder
  on_holder-cases m s o e lead answer = elim (Bool-cases (is_own m o)) [
    | inr other ↦ rw other (
        inr (record {
          is_me = e;
          failed = refl;
          there = refl;
          other = λ h. not-own m o other (answer ∙ h ∙ ap some (sym e));
        }))
    | inl mine ↦
        let (b, expired) = alone.expire_answers c.leader_ttl (r.others s) in
        rw (mine, expired)
          (inl (
            on_expire-Leads m (r.expire c.leader_lock_key c.leader_ttl (r.others s)).0 b e lead
              (expired-IsOurs s b expired (inr (sym answer ∙ own m o mine ∙ ap some e)))))
  ]

  -- A round ends with the lead, or it waits on and did not have the lead before.
  BeforeWaits : Monitor → r.Store → Outcome r → Type 0
  BeforeWaits m s o = Waits s o × (((m.role ≡ leader) × IsOurs me (lock s) (now s)) → ⊥)

  retry-cases :
      (m m' : Monitor) (s : r.Store)
      → m'.instance_id ≡ me
      → holder (lock s) (now s) ≢ some me
      → Leads (try_acquire_leadership r c m' (r.others s))
        ⊎ BeforeWaits m s (try_acquire_leadership r c m' (r.others s))
  unfolding BeforeWaits
  retry-cases m m' s e other = elim (try_acquire-cases m' (r.others s) e) [
    | inl leads ↦ inl leads
    | inr waits ↦
        let alive : now s < expiry_of (lock s) =
          omega (arith, alone.others_now s, waits.lives, ap expiry_of (alone.others_lock s)) in
        inr (
          record {
            is_me = waits.is_me;
            same = waits.same ∙ alone.others_lock s;
            later = omega (arith, alone.others_now s, waits.later);
            lives = alive;
          },
          λ (lead, ours). elim ours [
            | inl none_ ↦ absurd (omega (arith, alive, expiry-le (lock s) (now s) none_))
            | inr mine ↦ absurd (other mine)
          ],
        )
  ]

  round-cases :
      (m : Monitor) (s : r.Store)
      → m.instance_id ≡ me
      → Leads (renewal_round r c m s) ⊎ BeforeWaits m s (renewal_round r c m s)
  unfolding renewal_round renew_leadership BeforeWaits
  round-cases m s e = elim (Bool-cases (is_leader m.role)) [
    | inr not_lead ↦ rw not_lead (elim (try_acquire-cases m s e) [
      | inl leads ↦ inl leads
      | inr waits ↦ inr (waits, λ (lead, ours). absurd (cc (sym not_lead, ap is_leader lead)))
    ])
    | inl lead ↦
        let (o, answer) = alone.get_answers s in
        rw (lead, answer)
          (elim (on_holder-cases m s o e (is_leader→leader m.role lead)
            (doc.get_answer s o answer)) [
              | inl (leads, done) ↦ rw done (inl leads)
              | inr lost ↦
                  rw (lost.failed, lost.there)
                    (retry-cases m (on_holder r c m s (ok o)).monitor s lost.is_me lost.other)
            ])
  ]

  loop-keeps : (n : ℕ) (o : Outcome r) → Leads o → Leads (renewal_loop r c n o)
  unfolding renewal_loop BeforeWaits
  loop-keeps zero o h = h
  loop-keeps (suc n) o h =
      let asleep = r.sleep c.leader_renewal_interval o.store in
      loop-keeps n (renewal_round r c o.monitor asleep)
        (elim (round-cases o.monitor asleep h.is_me) [
          | inl leads ↦ leads
          | inr (waits, before) ↦ absurd (
              before (
                h.leads,
                rw (alone.sleep_lock c.leader_renewal_interval o.store) (
                    IsOurs-later me (lock o.store) (now o.store) _
                      (omega (arith, alone.sleep_now c.leader_renewal_interval o.store)) h.ours),
              ))
        ])

  -- Where Redis answers every call and no other instance touches the lock any more, an instance leads after
  -- the rounds of its loop that the lock takes to expire, whoever left it, and after each later one: its
  -- role is that of the leader and the lock is free or its own.
  pub renewal_loop-Leads :
      (n : ℕ) (m : Monitor) (s : r.Store)
      → m.instance_id ≡ me
      → expiry_of (lock s) ≤ now s + n * c.leader_renewal_interval
      → Leads (renewal_loop r c n (renewal_round r c m s))
  unfolding renewal_loop BeforeWaits
  renewal_loop-Leads zero m s e h = elim (round-cases m s e) [
    | inl leads ↦ leads
    | inr (waits, before) ↦ absurd (omega (arith, waits.lives))
  ]
  renewal_loop-Leads (suc n) m s e h = elim (round-cases m s e) [
    | inl leads ↦ loop-keeps (suc n) (renewal_round r c m s) leads
    | inr (waits, before) ↦
        let o = renewal_round r c m s in
        let asleep = r.sleep c.leader_renewal_interval o.store in
        renewal_loop-Leads n o.monitor asleep waits.is_me (
          rw (alone.sleep_lock c.leader_renewal_interval o.store, waits.same)
            (one_less (expiry_of (lock s)) n c.leader_renewal_interval (now s) (now asleep) h
              (omega (arith, waits.later, alone.sleep_now c.leader_renewal_interval o.store))))
  ]
