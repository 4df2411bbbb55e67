-- ===== src/CapacityMonitor/Polling.antt =====
-- How many GETs a polling sends, how long it sleeps, and what a reader of the cache gets after it.
use art_store.Common.{
  ℕ, zero, suc, ◌+◌, ◌*◌, ◌^◌, ◌≤◌, ◌<◌, ◌≡◌, refl, sym, inl, inr, String, Option, none, some,
  arith, Option-cases, ==-cases,
}
use native.Mathlib.Omega.{pow_step}
use art_store.CapacityMonitor.Info.{StorageCapacityInfo, PollAnswer, info_answered}
use art_store.CapacityMonitor.Poll.{PollConfig, Polled, poll_from, poll_attempts}

module _ (c : PollConfig) (se_id endpoint bad_health : String) (now : ℕ → String)
    (answers : ℕ → PollAnswer) where
  abbrev info_at : ℕ → Option StorageCapacityInfo
  info_at n = info_answered se_id endpoint (now n) (answers n)

  -- How the loop ends after the attempts from `first` on, of which `index` is the last.
  pub record IsPolled (first left : ℕ) (p : Polled) : Type 0 where
    pub index : ℕ
    pub sent : p.gets ≡ suc index
    pub from_first : first ≤ index
    pub few : index ≤ first + left
    pub delay : p.slept + c.retry_base_delay * 2 ^ first ≡ c.retry_base_delay * 2 ^ index
    pub last : p.info ≡ info_at index
    pub before_last : (n : ℕ) → first ≤ n → n < index → info_at n ≡ none
    pub given_up : p.info ≡ none → index ≡ first + left

  one_round-IsPolled :
      (first left : ℕ) (error : String) (o : Option StorageCapacityInfo)
      → o ≡ info_at first
      → (o ≡ none → left ≡ 0)
      → IsPolled first left (record { info = o; gets = suc first; slept = 0; last_error = error })
  one_round-IsPolled first left error o e h = record {
    index = first;
    sent = refl;
    from_first = omega arith;
    few = omega arith;
    delay = omega arith;
    last = e;
    before_last = λ n l u. absurd (omega arith);
    given_up = λ e. omega (arith, h e);
  }

  doubled : (b n : ℕ) → b * 2 ^ suc n ≡ b * 2 ^ n + b * 2 ^ n
  doubled b n = grind (arith, pow_step 2 n)

  next_round-IsPolled :
      (first left : ℕ) (p : Polled)
      → info_at first ≡ none
      → IsPolled (suc first) left p
      → IsPolled first (suc left) (record p { slept = c.retry_base_delay * 2 ^ first + p.slept })
  next_round-IsPolled first left p failed h = record {
    index = h.index;
    sent = h.sent;
    from_first = omega (arith, h.from_first);
    few = omega (arith, h.few);
    delay = omega (arith, h.delay, doubled c.retry_base_delay first);
    last = h.last;
    before_last = λ n l u. elim (==-cases n first) [
      | inl same ↦ rw same failed
      | inr other ↦ h.before_last n (omega (arith, other)) u
    ];
    given_up = λ e. omega (arith, h.given_up e);
  }

  poll_from-IsPolled :
      (left first : ℕ)
      → IsPolled first left (poll_from c se_id endpoint bad_health now answers left first)
  unfolding poll_from
  poll_from-IsPolled zero first = one_round-IsPolled first 0 _ _ refl (λ e. refl)
  poll_from-IsPolled (suc left) first = elim (Option-cases (info_at first)) [
    | inl failed ↦
        rw (failed, poll_from)
          (next_round-IsPolled first left _ failed (poll_from-IsPolled left (suc first)))
    | inr (i, found) ↦
        rw (found, poll_from)
          (one_round-IsPolled first (suc left) "" (some i) (sym found) (λ e. absurd (cc e)))
  ]

  -- A polling sends at least one GET and at most as many as the retries, and its sleeps add up to the base
  -- delay times one less than the power of two of the GETs before the last. The last answer decides, after
  -- answers that all failed, and the polling fails only after all its retries.
  pub poll_attempts-IsPolled :
      (left : ℕ)
      → IsPolled 0 left (poll_attempts c se_id endpoint bad_health now answers (suc left))
  unfolding poll_attempts
  poll_attempts-IsPolled left = poll_from-IsPolled left 0
