-- ===== src/Finalize/Outcomes.antt =====
-- How a finalization ends.
use art_store.Common.{
  ◌+◌, ℕ, ◌≡◌, ◌≢◌, refl, ◌⊎◌, String, Bool, true, false, none, some, if◌then◌else◌, Result, ok,
  raise, is_some, str_eq,
}
use art_store.Finalize.Model.{
  completed, failed, rolled_back, FinalizeError, validation_error, Network, Transaction,
  Transactions, FinalizeResponse, Finalization, select_target_se,
}
use art_store.Finalize.Phases.{
  new_transaction, failed_response, Outcome, copy_phase, settle, finalize_file,
}

module _ (n : Network) (c : Finalization) where
  -- The target answered a request for the file's checksum with this one.
  abbrev pub Reported : String → String → Type 0
  Reported endpoint checksum =
      (s : n.State) × ((n.get_checksum endpoint c.file_id s).1 ≡ ok checksum)

  -- The target took an upload of what the source delivered for the file.
  abbrev pub Copied : String → Type 0
  Copied endpoint =
      (s s' : n.State) × (content : n.Bytes) × ((n.download c.source_se_endpoint c.file_id s).1
        ≡ ok content)
      × ((n.upload endpoint c.file_id c.transaction_id content s').1 ≡ ok tt)

  abbrev pub verified_transaction : String → Transaction
  verified_transaction target = record {
    file_id = c.file_id;
    source_se = c.source_se_id;
    target_se = some target;
    status = completed;
    checksum_source = c.checksum;
    checksum_target = some c.checksum;
    created_at = c.created_at;
    completed_at = some c.succeeded_at;
    error_message = none;
    retry_count = 0;
    initiated_by = c.user_id;
  }

  -- The answer that the file is verified, and when its source may be deleted.
  abbrev pub verified_response : String → FinalizeResponse
  verified_response target = record {
    transaction_id = c.transaction_id;
    file_id = c.file_id;
    status = completed;
    source_storage_element_id = c.source_se_id;
    target_storage_element_id = target;
    checksum_verified = true;
    finalized_at = some c.succeeded_at;
    cleanup_scheduled_at = some (c.succeeded_at + 24);
    error_message = none;
  }

  -- What the phases have done: nothing is said of a failure yet.
  abbrev pub Ran : Outcome n c → Type 0
  Ran (s, t, raise e) = Unit
  Ran (s, t, ok r) =
      (endpoint target : String) × (r ≡ verified_response target)
      × (t ≡ verified_transaction target)
      × Copied endpoint
      × Reported endpoint c.checksum

  -- The entry that a finalization which fails leaves, and what is answered.
  abbrev pub Failed : Transaction → Result FinalizeError FinalizeResponse → Type 0
  Failed t (raise e) = (e ≡ validation_error) × (t.target_se ≡ none) × (t.status ≡ failed)
  Failed t (ok r) =
      (r.status ≡ failed)
      × (r.checksum_verified ≡ false)
      × (t.target_se ≡ some r.target_storage_element_id)
      × (t.status ≡ (if str_eq r.target_storage_element_id "" then failed else rolled_back))
      × (t.error_message ≡ r.error_message)
      × (is_some r.error_message ≡ true)

  abbrev pub Completed : Transaction → Result FinalizeError FinalizeResponse → Type 0
  Completed t answer =
      (endpoint target : String) × (answer ≡ ok (verified_response target))
      × (t ≡ verified_transaction target)
      × Copied endpoint
      × Reported endpoint c.checksum

  abbrev pub Ended :
      Transactions → (Transactions × n.State) × Result FinalizeError FinalizeResponse → Type 0
  Ended all (w, answer) =
      ((t : Transaction) × (w.0 c.transaction_id ≡ some t) × (Completed t answer ⊎ Failed t answer))
      × ((j : ℕ) → j ≢ c.transaction_id → w.0 j ≡ all j)

  refused :
      (all : Transactions) (p : n.State × Result FinalizeError (String × String))
      (e : FinalizeError)
      → p.1 ≡ raise e
      → (settle n c all (copy_phase n c (new_transaction c) p)).1 ≡ raise validation_error
  unfolding settle copy_phase failed_response
  refused all (s, raise e') e h = refl
  refused all (s, ok found) e h = absurd (cc h)

  -- Where no storage element can take the file, or no selector is set, the call does not answer a
  -- failure but raises the error of the response's validation.
  pub finalize_file_no_target :
      (configured : Bool) (all : Transactions) (s : n.State) (e : FinalizeError)
      → (select_target_se n configured c.file_size s).1 ≡ raise e
      → (finalize_file n c configured all s).1 ≡ raise validation_error
  unfolding finalize_file
  finalize_file_no_target configured all s e =
      refused all (select_target_se n configured c.file_size s) e
