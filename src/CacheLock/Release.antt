-- ===== src/CacheLock/Release.antt =====
-- The release of a lock, by whoever calls it.
use art_store.Common.{
  if◌then◌else◌, ℕ, ◌≡◌, refl, String, Bool, true, false, arith, str_eq, str_eq_iff,
}
use art_store.CacheLock.{LockType, Redis, lock_key, set_lock, release_lock}
use art_store.CacheLock.Grants.{Documented, Responds}

module _ (r : Redis) (doc : Documented r) (up : Responds r) (prefix : String) where
  -- A release answers whether the lock was held, and frees it, and no other.
  pub release_lock-held :
      (t : LockType) (s : r.Store)
      → ((release_lock r prefix t s).1 ≡ doc.held (lock_key r prefix t) s)
        × ((j : String)
            → doc.held j (release_lock r prefix t s).0
              ≡ (if str_eq (lock_key r prefix t) j then false else doc.held j s))
  unfolding release_lock
  release_lock-held t s =
      let (b, e) = up.delete-ok (lock_key r prefix t) s in
      (
        rw (e, release_lock) (doc.delete-answer (lock_key r prefix t) s b e),
        λ j. doc.delete-held (lock_key r prefix t) s b j e,
      )

  -- While a lock is held no caller is granted it, and yet after a release by any client, which need
  -- not be its holder, the next caller is granted it at once, provided that Redis answers.
  pub release_breaks_exclusion :
      (t : LockType) (timeout : ℕ) (blocking : Bool) (blocking_timeout : ℕ) (s : r.Store)
      → doc.held (lock_key r prefix t) s ≡ true
      → ((set_lock r prefix t timeout false blocking_timeout s).1 ≡ false)
        × ((set_lock r prefix t timeout blocking blocking_timeout (release_lock r prefix t s).0).1
            ≡ true)
  unfolding set_lock
  release_breaks_exclusion t timeout blocking blocking_timeout s held =
      let k = lock_key r prefix t in
      let s' = (release_lock r prefix t s).0 in
      let freed : doc.held k s' ≡ false =
        rw ((release_lock-held t s).1 k, (str_eq_iff k k).1 refl) refl in
      let (b, e) = up.set_nx-ok k timeout s in
      let (b', e') = up.set_nx-ok k timeout s' in
      let taken : b ≡ false = ground (arith, doc.set_nx-answer k timeout s b e) in
      let given : b' ≡ true = ground (arith, doc.set_nx-answer k timeout s' b' e') in
      (rw (e, set_lock) (rw taken refl), rw (e', set_lock) (rw given refl))
