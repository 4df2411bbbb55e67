-- ===== src/CacheLock/Grants.antt =====
-- When a lock is granted, refused or given up.
use art_store.Common.{
  ◌++◌, Result-cases, ap, ◌∙◌, ◌⊎◌, ℕ, ◌*◌, zero, suc, ◌≡◌, refl, ◌↔◌, String, Bool, true, false,
  not, List, [], ◌∷◌, arith, if◌then◌else◌, ok, raise, str_eq, Bool-cases, inl, inr, ltb,
}
use art_store.CacheLock.{
  LockType, manual_rebuild, manual_check, lazy_rebuild, background_cleanup, Redis, higher_priority,
  priority, lock_types, lock_key, check_lock_status, check_types, poll, set_lock, acquire_checked,
  acquire_lock,
}

-- What Redis documents of these calls: `held k s` says that the key `k` exists in the store `s`.
pub record Documented (r : Redis) : Type 0 where
  pub held : String → r.Store → Bool
  pub exists-held : (k : String) (s : r.Store) (b : Bool) → r.exists k s ≡ ok b → b ≡ held k s
  pub set_nx-answer :
      (k : String) (ex : ℕ) (s : r.Store) (b : Bool)
      → (r.set_nx k ex s).1 ≡ ok b
      → b ≡ not (held k s)
  pub set_nx-held :
      (k : String) (ex : ℕ) (s : r.Store) (j : String)
      → (r.set_nx k ex s).1 ≡ ok true
      → held j (r.set_nx k ex s).0 ≡ (if str_eq k j then true else held j s)
  pub delete-answer : (k : String) (s : r.Store) (b : Bool) → (r.delete k s).1 ≡ ok b → b ≡ held k s
  pub delete-held :
      (k : String) (s : r.Store) (b : Bool) (j : String)
      → (r.delete k s).1 ≡ ok b
      → held j (r.delete k s).0 ≡ (if str_eq k j then false else held j s)

-- Every call is answered.
pub record Responds (r : Redis) : Type 0 where
  pub exists-ok : (k : String) (s : r.Store) → (b : Bool) × (r.exists k s ≡ ok b)
  pub set_nx-ok : (k : String) (ex : ℕ) (s : r.Store) → (b : Bool) × ((r.set_nx k ex s).1 ≡ ok b)
  pub delete-ok : (k : String) (s : r.Store) → (b : Bool) × ((r.delete k s).1 ≡ ok b)

module _ (r : Redis) (prefix : String) where
  -- Redis answers that the lock exists. A call that raises is no such answer.
  abbrev pub IsSeen : LockType → r.Store → Type 0
  IsSeen t s = r.exists (lock_key r prefix t) s ≡ ok true

  -- No type that goes before is seen when its turn comes: a manual rebuild goes before all others, then a
  -- manual check, then a lazy rebuild, and the clean-up in the background comes last. Between two calls the
  -- others act.
  abbrev pub Clear : LockType → r.Store → Type 0
  Clear manual_rebuild s = Unit
  Clear manual_check s = ¬ IsSeen manual_rebuild s
  Clear lazy_rebuild s = (¬ IsSeen manual_rebuild s) × (¬ IsSeen manual_check (r.others s))
  Clear background_cleanup s =
      (¬ IsSeen manual_rebuild s)
      × (¬ IsSeen manual_check (r.others s))
      × (¬ IsSeen lazy_rebuild (r.others (r.others s)))

  check_lock_status-IsSeen :
      (t : LockType) (s : r.Store) → (check_lock_status r prefix t s ≡ true) ↔ IsSeen t s
  unfolding check_lock_status
  check_lock_status-IsSeen t s = elim (Result-cases (r.exists (lock_key r prefix t) s)) [
    | inl (b, e) ↦ rw (e, check_lock_status) (λ h. ap ok h, λ h. cc h)
    | inr (x, e) ↦ rw (e, check_lock_status) (λ h. absurd (cc h), λ h. absurd (cc h))
  ]

  -- The same over a list of types that all go before.
  abbrev Unseen : List LockType → r.Store → Type 0
  Unseen [] s = Unit
  Unseen (t ∷ rest) s = (¬ IsSeen t s) × Unseen rest (r.others s)

  abbrev GoBefore : LockType → List LockType → Type 0
  GoBefore t [] = Unit
  GoBefore t (other ∷ rest) = (ltb (priority other) (priority t) ≡ true) × GoBefore t rest

  abbrev GoAfter : LockType → List LockType → Type 0
  GoAfter t [] = Unit
  GoAfter t (other ∷ rest) = (ltb (priority other) (priority t) ≡ false) × GoAfter t rest

  check_types-GoAfter :
      (t : LockType) (types : List LockType) (s : r.Store)
      → GoAfter t types
      → (check_types r prefix t types s).1 ≡ true
  unfolding check_types
  check_types-GoAfter t [] s h = refl
  check_types-GoAfter t (other ∷ rest) s (h, hs) = rw h (check_types-GoAfter t rest s hs)

  check_types-Unseen_iff :
      (t : LockType) (types later : List LockType) (s : r.Store)
      → GoBefore t types
      → GoAfter t later
      → ((check_types r prefix t (types ++ later) s).1 ≡ true) ↔ Unseen types s
  unfolding check_types
  check_types-Unseen_iff t [] later s h after = (λ _. tt, λ _. check_types-GoAfter t later s after)
  check_types-Unseen_iff t (other ∷ rest) later s (h, hs) after =
      let seen = check_lock_status-IsSeen other s in
      let next = check_types-Unseen_iff t rest later (r.others s) hs after in
      elim (Bool-cases (check_lock_status r prefix other s)) [
        | inl busy ↦ rw (h, busy) (λ k. absurd (cc k), λ k. absurd (k.0 (seen.0 busy)))
        | inr free ↦ rw (h, free) (λ k. ((λ e. cc (seen.1 e, free)), next.0 k), λ k. next.1 k.1)
      ]

  check_types-Clear_iff :
      (t : LockType) (s : r.Store) → ((check_types r prefix t lock_types s).1 ≡ true) ↔ Clear t s
  check_types-Clear_iff manual_rebuild s =
      let checked =
        check_types-Unseen_iff manual_rebuild [] lock_types s tt
          (refl, (refl, (refl, (refl, tt)))) in
      (checked.0, checked.1)
  check_types-Clear_iff manual_check s =
      let checked =
        check_types-Unseen_iff manual_check (manual_rebuild ∷ [])
          (manual_check ∷ lazy_rebuild ∷ background_cleanup ∷ []) s (refl, tt)
          (refl, (refl, (refl, tt))) in
      (λ h. (checked.0 h).0, λ h. checked.1 (h, tt))
  check_types-Clear_iff lazy_rebuild s =
      let checked =
        check_types-Unseen_iff lazy_rebuild (manual_rebuild ∷ manual_check ∷ [])
          (lazy_rebuild ∷ background_cleanup ∷ []) s (refl, (refl, tt)) (refl, (refl, tt)) in
      (λ h. let u = checked.0 h in (u.0, u.1.0), λ h. checked.1 (h.0, (h.1, tt)))
  check_types-Clear_iff background_cleanup s =
      let checked =
        check_types-Unseen_iff background_cleanup
          (manual_rebuild ∷ manual_check ∷ lazy_rebuild ∷ []) (background_cleanup ∷ []) s
          (refl, (refl, (refl, tt))) (refl, tt) in
      (λ h. let u = checked.0 h in (u.0, u.1.0, u.1.1.0), λ h. checked.1 (h.0, (h.1, (h.2, tt))))

  checked-refused_iff :
      (t : LockType) (timeout : ℕ) (blocking : Bool) (blocking_timeout : ℕ) (p : r.Store × Bool)
      → ((acquire_checked r prefix t timeout blocking blocking_timeout p).1
          ≡ raise (higher_priority t))
        ↔ (p.1 ≡ false)
  unfolding acquire_checked
  checked-refused_iff t timeout blocking blocking_timeout (s, false) = (λ h. refl, λ h. refl)
  checked-refused_iff t timeout blocking blocking_timeout (s, true) =
      (λ h. absurd (cc h), λ h. absurd (cc h))

  -- The lock is refused with an exception exactly where Redis answered that a type that goes before is
  -- held, when it was asked for it, also if some of its calls raise: those types count as free.
  pub acquire_lock-Clear_iff :
      (t : LockType) (timeout : ℕ) (blocking : Bool) (blocking_timeout : ℕ) (s : r.Store)
      → ((acquire_lock r prefix t timeout blocking blocking_timeout s).1
          ≡ raise (higher_priority t))
        ↔ ¬ Clear t s
  unfolding acquire_lock
  acquire_lock-Clear_iff t timeout blocking blocking_timeout s =
      let checked =
        checked-refused_iff t timeout blocking blocking_timeout
          (check_types r prefix t lock_types s) in
      let clear = check_types-Clear_iff t s in
      (
        λ h c. cc (checked.0 h, clear.1 c),
        λ busy. checked.1 (elim (Bool-cases (check_types r prefix t lock_types s).1) [
          | inl fine ↦ absurd (busy (clear.0 fine))
          | inr stop ↦ stop
        ]),
      )

module _ (r : Redis) (doc : Documented r) (up : Responds r) (prefix : String) where
  -- The moment at which the lock was granted: it was free, and only its key was set.
  abbrev pub Granted : LockType → ℕ → r.Store → Type 0
  Granted t timeout after =
      (s : r.Store) × (doc.held (lock_key r prefix t) s ≡ false)
      × (after ≡ (r.set_nx (lock_key r prefix t) timeout s).0)
      × ((j : String)
          → doc.held j after ≡ (if str_eq (lock_key r prefix t) j then true else doc.held j s))

  set_nx-Granted :
      (t : LockType) (timeout : ℕ) (s : r.Store)
      → (r.set_nx (lock_key r prefix t) timeout s).1 ≡ ok true
      → Granted t timeout (r.set_nx (lock_key r prefix t) timeout s).0
  set_nx-Granted t timeout s h = (
    s,
    ground (arith, doc.set_nx-answer (lock_key r prefix t) timeout s true h),
    refl,
    λ j. doc.set_nx-held (lock_key r prefix t) timeout s j h,
  )

  set_nx-cases :
      (k : String) (timeout : ℕ) (s : r.Store)
      → ((r.set_nx k timeout s).1 ≡ ok true) ⊎ ((r.set_nx k timeout s).1 ≡ ok false)
  set_nx-cases k timeout s =
      let (b, e) = up.set_nx-ok k timeout s in
      elim (Bool-cases b) [ inl set ↦ inl (e ∙ ap ok set) | inr refused ↦ inr (e ∙ ap ok refused) ]

  poll-Granted :
      (t : LockType) (timeout n : ℕ) (s : r.Store)
      → (poll r prefix t timeout n s).1 ≡ true
      → Granted t timeout (poll r prefix t timeout n s).0
  unfolding poll
  poll-Granted t timeout zero s = λ h. absurd (cc h)
  poll-Granted t timeout (suc n) s =
      elim (set_nx-cases (lock_key r prefix t) timeout (r.others s)) [
        | inl set ↦ rw (set, poll) (λ k. set_nx-Granted t timeout (r.others s) set)
        | inr refused ↦
            rw (refused, poll)
              (poll-Granted t timeout n (r.set_nx (lock_key r prefix t) timeout (r.others s)).0)
      ]

  -- The lock is held at every attempt of the polling.
  abbrev pub Busy : LockType → ℕ → ℕ → r.Store → Type 0
  Busy t timeout zero s = Unit
  Busy t timeout (suc n) s =
      (doc.held (lock_key r prefix t) (r.others s) ≡ true)
      × Busy t timeout n (r.set_nx (lock_key r prefix t) timeout (r.others s)).0

  refused-held :
      (t : LockType) (timeout : ℕ) (s : r.Store)
      → (r.set_nx (lock_key r prefix t) timeout s).1 ≡ ok false
      → doc.held (lock_key r prefix t) s ≡ true
  refused-held t timeout s h =
      ground (arith, doc.set_nx-answer (lock_key r prefix t) timeout s false h)

  poll-Busy :
      (t : LockType) (timeout n : ℕ) (s : r.Store)
      → (poll r prefix t timeout n s).1 ≡ false
      → Busy t timeout n s
  unfolding poll
  poll-Busy t timeout zero s = λ h. tt
  poll-Busy t timeout (suc n) s = elim (set_nx-cases (lock_key r prefix t) timeout (r.others s)) [
    | inl set ↦ rw (set, poll) (λ k. absurd (cc k))
    | inr refused ↦
        rw (refused, poll)
          (λ k. (
            refused-held t timeout (r.others s) refused,
            poll-Busy t timeout n (r.set_nx (lock_key r prefix t) timeout (r.others s)).0 k,
          ))
  ]

  -- What the attempts of a blocking caller have met: the lock was granted at a moment when it was
  -- free, or it was held at the first attempt and at every poll.
  abbrev pub Attempted : LockType → ℕ → ℕ → r.Store → r.Store × Bool → Type 0
  Attempted t timeout n s (after, true) = Granted t timeout after
  Attempted t timeout n s (after, false) =
      (doc.held (lock_key r prefix t) s ≡ true)
      × Busy t timeout n (r.set_nx (lock_key r prefix t) timeout s).0

  poll-Attempted :
      (t : LockType) (timeout n : ℕ) (s : r.Store) (p : r.Store × Bool)
      → doc.held (lock_key r prefix t) s ≡ true
      → (p.1 ≡ true → Granted t timeout p.0)
      → (p.1 ≡ false → Busy t timeout n (r.set_nx (lock_key r prefix t) timeout s).0)
      → Attempted t timeout n s p
  poll-Attempted t timeout n s (after, true) busy granted waited = granted refl
  poll-Attempted t timeout n s (after, false) busy granted waited = (busy, waited refl)

  -- A blocking call that passes the check of the priorities is granted the lock at a moment when it
  -- was free, which sets its key and no other, or it gives up after the lock was held at the first
  -- attempt and at each of the two polls of every second that it may wait, provided that Redis
  -- answers every call.
  pub set_lock-Attempted :
      (t : LockType) (timeout blocking_timeout : ℕ) (s : r.Store)
      → Attempted t timeout
          (2 * blocking_timeout)
          s
          (set_lock r prefix t timeout true blocking_timeout s)
  unfolding set_lock
  set_lock-Attempted t timeout blocking_timeout s =
      elim (set_nx-cases (lock_key r prefix t) timeout s) [
        | inl set ↦ rw (set, set_lock) (set_nx-Granted t timeout s set)
        | inr refused ↦
            rw (refused, set_lock)
              (let after = (r.set_nx (lock_key r prefix t) timeout s).0 in
                let n = 2 * blocking_timeout in
                poll-Attempted t timeout n s (poll r prefix t timeout n after)
                  (refused-held t timeout s refused) (poll-Granted t timeout n after)
                  (poll-Busy t timeout n after))
      ]
