-- ===== src/Finalize/Retries.antt =====
-- The attempts of `_verify_checksum`.
use art_store.Common.{
  ap, ◌∙◌, ℕ, ◌<◌, zero, suc, ◌≡◌, ◌⊎◌, inl, inr, String, Bool, true, false, arith, Result, ok,
  raise,
}
use art_store.Finalize.Model.{
  HttpError, http_status, request_error, FinalizeError, Network, retried_status, verify_attempts,
  attempt_result,
}

-- The failures after which the loop tries again.
abbrev pub transient : Result HttpError String → Bool
transient (ok _) = false
transient (raise request_error) = true
transient (raise (http_status code)) = retried_status code

module _ (n : Network) (endpoint : String) (file_id : ℕ) where
  -- The state that the k-th attempt finds if all before it are made, and what it is answered.
  abbrev pub attempt_state : ℕ → n.State → n.State
  attempt_state zero s = s
  attempt_state (suc k) s = attempt_state k (n.sleep (n.get_checksum endpoint file_id s).0)

  abbrev pub answer : ℕ → n.State → Result HttpError String
  answer k s = (n.get_checksum endpoint file_id (attempt_state k s)).1

  -- The checksum comes from an attempt within the bound, after transient failures only.
  abbrev pub Answered : ℕ → n.State → String → Type 0
  Answered left s checksum =
      (k : ℕ) × (k < left)
      × (answer k s ≡ ok checksum)
      × ((j : ℕ) → j < k → transient (answer j s) ≡ true)

  next-Answered :
      (left : ℕ) (s : n.State) (checksum : String)
      → transient (answer 0 s) ≡ true
      → Answered left (attempt_state 1 s) checksum
      → Answered (suc left) s checksum
  next-Answered left s checksum again (k, below, found, before) =
      (suc k, omega arith, found, earlier)
    where
      earlier : (j : ℕ) → j < suc k → transient (answer j s) ≡ true
      earlier zero h = again
      earlier (suc j) h = before j (omega arith)

  round_ok :
      (left : ℕ) (again : n.State × Result FinalizeError String)
      (p : n.State × Result HttpError String) (checksum : String)
      → (attempt_result n left again p).1 ≡ ok checksum
      → (p.1 ≡ ok checksum) ⊎ ((transient p.1 ≡ true) × (again.1 ≡ ok checksum))
  unfolding attempt_result
  round_ok left again (s, ok c) checksum h = inl (ground arith)
  round_ok left again (s, raise (http_status code)) checksum h = ground arith
  round_ok left again (s, raise request_error) checksum h = ground arith

  pub verify_attempts-Answered :
      (left : ℕ) (s : n.State) (checksum : String)
      → (verify_attempts n left endpoint file_id s).1 ≡ ok checksum
      → Answered left s checksum
  unfolding verify_attempts
  verify_attempts-Answered zero s checksum h = absurd (ground arith)
  verify_attempts-Answered (suc left) s checksum h =
      let again = verify_attempts n left endpoint file_id (attempt_state 1 s) in
      elim (round_ok left again (n.get_checksum endpoint file_id s) checksum h) [
        | inl found ↦ (zero, omega arith, found, λ j below. absurd (omega arith))
        | inr (failing, later) ↦
            next-Answered left s checksum failing
              (verify_attempts-Answered left (attempt_state 1 s) checksum later)
      ]

  round_again :
      (left : ℕ) (again : n.State × Result FinalizeError String)
      (p : n.State × Result HttpError String)
      → transient p.1 ≡ true
      → 0 < left
      → attempt_result n left again p ≡ again
  unfolding attempt_result
  round_again left again (s, ok c) failing more = absurd (cc failing)
  round_again left again (s, raise (http_status code)) failing more = ground arith
  round_again left again (s, raise request_error) failing more = ground arith

  round_done :
      (left : ℕ) (again : n.State × Result FinalizeError String)
      (p : n.State × Result HttpError String) (checksum : String)
      → p.1 ≡ ok checksum
      → (attempt_result n left again p).1 ≡ ok checksum
  unfolding attempt_result
  round_done left again (s, ok c) checksum found = ground arith
  round_done left again (s, raise e) checksum found = absurd (ground arith)

  -- An attempt within the bound that is answered after transient failures only gives the checksum.
  pub verify_attempts-finds :
      (left : ℕ) (s : n.State) (checksum : String) (k : ℕ)
      → k < left
      → answer k s ≡ ok checksum
      → ((j : ℕ) → j < k → transient (answer j s) ≡ true)
      → (verify_attempts n left endpoint file_id s).1 ≡ ok checksum
  unfolding verify_attempts
  verify_attempts-finds zero s checksum k below found before = absurd (omega arith)
  verify_attempts-finds (suc left) s checksum zero below found before =
      round_done left (verify_attempts n left endpoint file_id (attempt_state 1 s))
        (n.get_checksum endpoint file_id s) checksum found
  verify_attempts-finds (suc left) s checksum (suc k) below found before =
      let again = verify_attempts n left endpoint file_id (attempt_state 1 s) in
      ap (λ p. p.1)
        (round_again left again (n.get_checksum endpoint file_id s) (before 0 (omega arith))
          (omega arith))
      ∙ verify_attempts-finds left (attempt_state 1 s) checksum k (omega arith) found
          (λ j h. before (suc j) (omega arith))
