-- ===== src/Tests/Moves.antt =====
-- The finalization, over one source and one target.
use art_store.Common.{ℕ, ◌≡◌, zero, suc, refl, String, true, some, none, ok, raise, Result}
use art_store.Finalize.Model.{
  Network, Finalization, Transactions, HttpError, http_status, verify_attempts, verify_checksum,
  copy_file, upload_copy, select_target_se, attempt_result,
}
use art_store.Finalize.Phases.{
  finalize_file, settle, copy_phase, completed_response, verify_phase, compare_checksums, finish,
}

-- The state counts the requests for the checksum: the first is answered 404.
abbrev checksum_answer : ℕ → Result HttpError String
checksum_answer zero = raise (http_status 404)
checksum_answer (suc k) = ok "ab"

abbrev network : Network
network = record {
  State = ℕ;
  Bytes = String;
  get_access_token = λ s. (s, ok tt);
  select_storage_element = λ size s. (s, ok (some ("http://target", "se-2")));
  download = λ endpoint id s. (s, ok "content");
  upload = λ endpoint id tx content s. (s, ok tt);
  get_checksum = λ endpoint id s. (suc s, checksum_answer s);
  update_file = λ id target now s. (s, ok tt);
  sleep = λ s. s;
}

-- No element can take a file.
abbrev full_network : Network
full_network = record network { select_storage_element = λ size s. (s, ok none) }

abbrev move : Finalization
move = record {
  transaction_id = 3;
  file_id = 42;
  source_se_id = "se-1";
  source_se_endpoint = "http://source";
  file_size = 7;
  checksum = "ab";
  user_id = "u1";
  created_at = 100;
  succeeded_at = 101;
  failed_at = 102;
}

abbrev no_transactions : Transactions
no_transactions = λ j. none

-- One retry, then success.
completes :
    (finalize_file network move true no_transactions 0).1 ≡ ok (completed_response move "se-2")
unfolding finalize_file settle copy_phase verify_phase compare_checksums finish verify_checksum
    verify_attempts attempt_result copy_file upload_copy select_target_se
completes = refl
