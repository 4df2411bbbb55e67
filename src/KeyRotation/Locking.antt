-- ===== src/KeyRotation/Locking.antt =====
-- How long a rotation tries for its lock.
use art_store.Common.{
  ==-cases, ℕ, zero, suc, ◌+◌, ◌≤◌, ◌≡◌, refl, true, false, arith, inl, inr, ◌⊎◌, subst,
}
use art_store.KeyRotation.{
  SetAnswer, acquired, taken, redis_error, Setting, Acquired, on_answer, try_lock, acquire_lock,
}

module _ (c : Setting) where
  -- What an end of the loop says of the answers to its attempts from the first to at most `last`.
  pub record IsEnd (first last : ℕ) (a : Acquired) : Type 0 where
    pub slept_less : a.attempts ≡ suc a.slept
    pub few : a.slept ≤ last
    pub got : a.taken_ ≡ true → c.set_nx a.slept ≡ acquired
    pub gave_up :
        a.taken_ ≡ false
        → (c.set_nx a.slept ≡ redis_error) ⊎ ((c.set_nx a.slept ≡ taken) × (a.slept ≡ last))
    pub before_last : (n : ℕ) → first ≤ n → suc n ≤ a.slept → c.set_nx n ≡ taken

  got_at :
      (n last : ℕ)
      → n ≤ last
      → c.set_nx n ≡ acquired
      → IsEnd n last (record { taken_ = true; attempts = suc n; slept = n })
  got_at n last l h = record {
    slept_less = refl;
    few = l;
    got = λ _. h;
    gave_up = λ e. absurd (cc e);
    before_last = λ m l u. absurd (omega arith);
  }

  lost_at :
      (n last : ℕ)
      → n ≤ last
      → (c.set_nx n ≡ redis_error) ⊎ ((c.set_nx n ≡ taken) × (n ≡ last))
      → IsEnd n last (record { taken_ = false; attempts = suc n; slept = n })
  lost_at n last l h = record {
    slept_less = refl;
    few = l;
    got = λ e. absurd (cc e);
    gave_up = λ _. h;
    before_last = λ m l u. absurd (omega arith);
  }

  later-IsEnd :
      (n last : ℕ) (a : Acquired) → c.set_nx n ≡ taken → IsEnd (suc n) last a → IsEnd n last a
  later-IsEnd n last a h e = record {
    slept_less = e.slept_less;
    few = e.few;
    got = e.got;
    gave_up = e.gave_up;
    before_last = λ m l u. elim (==-cases m n) [
      | inl same ↦ rw same h
      | inr other ↦ e.before_last m (omega (arith, other)) u
    ];
  }

  last-IsEnd :
      (n : ℕ) (v : SetAnswer) (rest : Acquired)
      → c.set_nx n ≡ v
      → IsEnd n n (on_answer c zero n v rest)
  last-IsEnd n acquired rest e = got_at n n (omega arith) e
  last-IsEnd n taken rest e = lost_at n n (omega arith) (inr (e, refl))
  last-IsEnd n redis_error rest e = lost_at n n (omega arith) (inl e)

  next-IsEnd :
      (left n last : ℕ) (v : SetAnswer) (rest : Acquired)
      → n ≤ last
      → c.set_nx n ≡ v
      → IsEnd (suc n) last rest
      → IsEnd n last (on_answer c (suc left) n v rest)
  next-IsEnd left n last acquired rest l e h = got_at n last l e
  next-IsEnd left n last taken rest l e h = later-IsEnd n last rest e h
  next-IsEnd left n last redis_error rest l e h = lost_at n last l (inl e)

  try_lock-IsEnd :
      (left first last : ℕ) → left + first ≡ last → IsEnd first last (try_lock c left first)
  unfolding try_lock
  try_lock-IsEnd zero first last e =
      let same : first ≡ last = omega (arith, e) in
      subst (λ k. IsEnd first k (try_lock c zero first)) same
        (last-IsEnd first (c.set_nx first)
          (record { taken_ = false; attempts = suc first; slept = first }) refl)
  try_lock-IsEnd (suc left) first last e =
      next-IsEnd left first last (c.set_nx first) (try_lock c left (suc first)) (omega (arith, e))
        refl (try_lock-IsEnd left (suc first) last (omega (arith, e)))

  -- The loop for the lock ends after at most three attempts, with a second of sleep between two of them. It
  -- goes on exactly after an answer that the lock is taken: if it took the lock, the last attempt did; if
  -- not, the last one raised, or was the third and found the lock taken as all before it did.
  pub acquire_lock-IsEnd : IsEnd zero 2 (acquire_lock c)
  unfolding acquire_lock
  acquire_lock-IsEnd = try_lock-IsEnd 2 zero 2 refl
