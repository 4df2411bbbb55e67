-- ===== src/Finalize/Phases.antt =====
-- The phases of `finalize_file`, and its handler. The entry of the transaction, which no other call
-- writes, is handed from phase to phase.
use art_store.Common.{
  ◌+◌, String, Bool, true, false, not, Option, none, some, if◌then◌else◌, Result, ok, raise, str_eq,
}
use art_store.Finalize.Model.{
  copying, verifying, completed, failed, rolled_back, FinalizeError, other_error, checksum_mismatch,
  validation_error, RegistryError, admin_client_error, other_registry_error, Network, Transaction,
  Transactions, set_transaction, FinalizeResponse, Finalization, cleanup_safety_margin_hours,
  select_target_se, copy_file, verify_checksum,
}

-- The entry that a finalization begins with.
abbrev pub new_transaction : Finalization → Transaction
new_transaction c = record {
  file_id = c.file_id;
  source_se = c.source_se_id;
  target_se = none;
  status = copying;
  checksum_source = c.checksum;
  checksum_target = none;
  created_at = c.created_at;
  completed_at = none;
  error_message = none;
  retry_count = 0;
  initiated_by = c.user_id;
}

abbrev pub complete : Finalization → Transaction → Transaction
complete c t = record t { status = completed; completed_at = some c.succeeded_at }

abbrev pub completed_response : Finalization → String → FinalizeResponse
completed_response c target = record {
  transaction_id = c.transaction_id;
  file_id = c.file_id;
  status = completed;
  source_storage_element_id = c.source_se_id;
  target_storage_element_id = target;
  checksum_verified = true;
  finalized_at = some c.succeeded_at;
  cleanup_scheduled_at = some (c.succeeded_at + cleanup_safety_margin_hours);
  error_message = none;
}

-- The first assignments of the handler.
abbrev pub fail : Finalization → FinalizeError → Transaction → Transaction
fail c e t = record t { status = failed; error_message = some e; completed_at = some c.failed_at }

-- `_rollback_transaction`: nothing is deleted from the target.
unfoldable pub rollback_transaction : Transaction → Transaction
rollback_transaction t = elim t.target_se [
  | none ↦ t
  | some target ↦ if str_eq target "" then t else record t { status = rolled_back }
]

-- The response of the handler. An entry that has no target yet gives `None` for a field that must be a
-- text, and pydantic raises.
unfoldable pub failed_response :
    Finalization → FinalizeError → Option String → Result FinalizeError FinalizeResponse
failed_response c e none = raise validation_error
failed_response c e (some target) = ok (record {
  transaction_id = c.transaction_id;
  file_id = c.file_id;
  status = failed;
  source_storage_element_id = c.source_se_id;
  target_storage_element_id = target;
  checksum_verified = false;
  finalized_at = none;
  cleanup_scheduled_at = none;
  error_message = some e;
})

module _ (n : Network) (c : Finalization) where
  abbrev pub Outcome : Type 0
  Outcome = n.State × Transaction × Result FinalizeError FinalizeResponse

  -- Phase 4 after the update of the registry, whose `AdminClientError` is only logged.
  unfoldable pub finish : String → Transaction → n.State × Result RegistryError (Unit {0}) → Outcome
  finish target t (s, raise other_registry_error) = (s, t, raise other_error)
  finish target t (s, raise admin_client_error) =
      (s, complete c t, ok (completed_response c target))
  finish target t (s, ok _) = (s, complete c t, ok (completed_response c target))

  -- The comparison of the checksums.
  unfoldable pub compare_checksums :
      String → Transaction → n.State × Result FinalizeError String → Outcome
  unfolding finish
  compare_checksums target t (s, raise e) = (s, t, raise e)
  compare_checksums target t (s, ok target_checksum) =
      let t' = record t { checksum_target = some target_checksum } in
      if not (str_eq c.checksum target_checksum)
      then (s, t', raise (checksum_mismatch c.checksum target_checksum))
      else finish target t' (n.update_file c.file_id target c.succeeded_at s)

  -- Phase 3, with the three attempts that are the default.
  unfoldable pub verify_phase :
      String → String → Transaction → n.State × Result FinalizeError (Unit {0}) → Outcome
  unfolding compare_checksums
  verify_phase endpoint target t (s, raise e) = (s, t, raise e)
  verify_phase endpoint target t (s, ok _) =
      compare_checksums target (record t { status = verifying })
        (verify_checksum n 3 endpoint c.file_id s)

  -- Phase 2.
  unfoldable pub copy_phase :
      Transaction → n.State × Result FinalizeError (String × String) → Outcome
  unfolding verify_phase
  copy_phase t (s, raise e) = (s, t, raise e)
  copy_phase t (s, ok (endpoint, target)) =
      verify_phase endpoint target (record t { target_se = some target })
        (copy_file n c.transaction_id c.file_id c.source_se_endpoint endpoint s)

  -- The handler, and the entry as it stands in the end.
  unfoldable pub settle :
      Transactions → Outcome → (Transactions × n.State) × Result FinalizeError FinalizeResponse
  unfolding rollback_transaction failed_response
  settle all (s, t, ok r) = ((set_transaction c.transaction_id t all, s), ok r)
  settle all (s, t, raise e) = (
    (set_transaction c.transaction_id (rollback_transaction (fail c e t)) all, s),
    failed_response c e t.target_se,
  )

  unfoldable pub finalize_file :
      Bool
      → Transactions
      → n.State
      → (Transactions × n.State) × Result FinalizeError FinalizeResponse
  unfolding settle copy_phase
  finalize_file configured all s =
      settle all (copy_phase (new_transaction c) (select_target_se n configured c.file_size s))
