-- ===== src/Finalize/Model.antt =====
-- The data of the finalization, the other services, and the calls of `finalize_service.py` to them.
use art_store.Common.{
  ◌&&◌, ℕ, zero, suc, String, Bool, true, false, not, ◌||◌, Option, none, some, ◌==◌, leb,
  if◌then◌else◌, Result, ok, raise,
}

-- `FinalizeTransactionStatus`
pub data FinalizeTransactionStatus : Type 0 where
  copying copied verifying completed failed rolled_back : FinalizeTransactionStatus

-- `httpx.HTTPStatusError` with its code, and `httpx.RequestError`.
pub data HttpError : Type 0 where
  http_status : ℕ → HttpError
  request_error : HttpError

-- The exceptions of the phases, whose texts are the error messages; `other_error` is any that the
-- phases let through.
pub data FinalizeError : Type 0 where
  selector_missing : FinalizeError
  no_available_element : ℕ → FinalizeError
  download_failed upload_failed verify_failed : ℕ → FinalizeError
  verify_network_error verify_exhausted other_error : FinalizeError
  checksum_mismatch : String → String → FinalizeError
  -- pydantic refuses to build the response.
  validation_error : FinalizeError

pub data RegistryError : Type 0 where
  admin_client_error other_registry_error : RegistryError

-- The calls of other services, over the state `State` of everything outside this one. `Bytes` is the
-- content of a response.
pub record Network : Type 1 where
  pub State : Type 0
  pub Bytes : Type 0
  pub get_access_token : State → State × Result (Unit {0}) (Unit {0})
  -- `StorageSelector.select_storage_element` for permanent files: an endpoint and an id.
  pub select_storage_element : ℕ → State → State × Result (Unit {0}) (Option (String × String))
  pub download : String → ℕ → State → State × Result HttpError Bytes
  pub upload : String → ℕ → ℕ → Bytes → State → State × Result HttpError (Unit {0})
  -- The `checksum` of the metadata that an endpoint answers.
  pub get_checksum : String → ℕ → State → State × Result HttpError String
  pub update_file : ℕ → String → ℕ → State → State × Result RegistryError (Unit {0})
  pub sleep : State → State

-- An entry of `_transactions`.
pub record Transaction : Type 0 where
  pub file_id : ℕ
  pub source_se : String
  pub target_se : Option String
  pub status : FinalizeTransactionStatus
  pub checksum_source : String
  pub checksum_target : Option String
  pub created_at : ℕ
  pub completed_at : Option ℕ
  pub error_message : Option FinalizeError
  pub retry_count : ℕ
  pub initiated_by : String

abbrev pub Transactions : Type 0
Transactions = ℕ → Option Transaction

abbrev pub set_transaction : ℕ → Transaction → Transactions → Transactions
set_transaction id t all = λ j. if j == id then some t else all j

-- `FinalizeResponse`
pub record FinalizeResponse : Type 0 where
  pub transaction_id : ℕ
  pub file_id : ℕ
  pub status : FinalizeTransactionStatus
  pub source_storage_element_id : String
  pub target_storage_element_id : String
  pub checksum_verified : Bool
  pub finalized_at : Option ℕ
  pub cleanup_scheduled_at : Option ℕ
  pub error_message : Option FinalizeError

-- The arguments of `finalize_file`, with the UUID of its transaction and the readings of the clock, in
-- hours. The preferred element of the request is passed on, and read by nothing.
pub record Finalization : Type 0 where
  pub transaction_id : ℕ
  pub file_id : ℕ
  pub source_se_id : String
  pub source_se_endpoint : String
  pub file_size : ℕ
  pub checksum : String
  pub user_id : String
  pub created_at : ℕ
  pub succeeded_at : ℕ
  pub failed_at : ℕ

-- `CLEANUP_SAFETY_MARGIN_HOURS`
abbrev pub cleanup_safety_margin_hours : ℕ
cleanup_safety_margin_hours = 24

-- The retries are for 404 and for the 5xx.
abbrev pub retried_status : ℕ → Bool
retried_status code = code == 404 || leb 500 code

module _ (n : Network) where
  -- `_select_target_se`; `configured` says that a selector was set.
  unfoldable pub select_target_se :
      Bool → ℕ → n.State → n.State × Result FinalizeError (String × String)
  select_target_se false file_size s = (s, raise selector_missing)
  select_target_se true file_size s =
      let (after, answer) = n.select_storage_element file_size s in
      elim answer [
        | raise _ ↦ (after, raise other_error)
        | ok none ↦ (after, raise (no_available_element file_size))
        | ok (some found) ↦ (after, ok found)
      ]

  -- `_copy_file` after the download.
  unfoldable pub upload_copy :
      ℕ
      → ℕ
      → String
      → n.State × Result HttpError n.Bytes
      → n.State × Result FinalizeError (Unit {0})
  upload_copy tx file_id target (s, raise (http_status code)) = (s, raise (download_failed code))
  upload_copy tx file_id target (s, raise request_error) = (s, raise other_error)
  upload_copy tx file_id target (s, ok content) =
      let (after, answer) = n.upload target file_id tx content s in
      elim answer [
        | ok _ ↦ (after, ok tt)
        | raise (http_status code) ↦ (after, raise (upload_failed code))
        | raise request_error ↦ (after, raise other_error)
      ]

  -- `_copy_file`
  unfoldable pub copy_file :
      ℕ → ℕ → String → String → n.State → n.State × Result FinalizeError (Unit {0})
  unfolding upload_copy
  copy_file tx file_id source target s =
      let (s', token) = n.get_access_token s in
      elim token [
        | raise _ ↦ (s', raise other_error)
        | ok _ ↦ upload_copy tx file_id target (n.download source file_id s')
      ]

  -- One round of the loop of `_verify_checksum`, on the answer, the number of attempts that are left
  -- after it, and what they give.
  unfoldable pub attempt_result :
      ℕ
      → n.State × Result FinalizeError String
      → n.State × Result HttpError String
      → n.State × Result FinalizeError String
  attempt_result left again (s, ok checksum) = (s, ok checksum)
  attempt_result left again (s, raise (http_status code)) =
      if retried_status code && not (left == 0) then again else (s, raise (verify_failed code))
  attempt_result left again (s, raise request_error) =
      if not (left == 0) then again else (s, raise verify_network_error)

  -- The loop, over the attempts that are left.
  unfoldable pub verify_attempts : ℕ → String → ℕ → n.State → n.State × Result FinalizeError String
  unfolding attempt_result
  verify_attempts zero target file_id s = (s, raise verify_exhausted)
  verify_attempts (suc left) target file_id s =
      let round = n.get_checksum target file_id s in
      attempt_result left (verify_attempts left target file_id (n.sleep round.0)) round

  -- `_verify_checksum`
  unfoldable pub verify_checksum : ℕ → String → ℕ → n.State → n.State × Result FinalizeError String
  unfolding verify_attempts
  verify_checksum max_retries target file_id s =
      let (s', token) = n.get_access_token s in
      elim token [
        | raise _ ↦ (s', raise other_error)
        | ok _ ↦ verify_attempts max_retries target file_id s'
      ]
