-- ===== src/Tokens.antt =====
-- admin-module/app/services/token_service.py and app/models/jwt_key.py: the JWT keys of the database and
-- the tokens signed and checked with them. jose is a parameter; times are seconds.
pub mod Keys
pub mod Decoding
use art_store.Common.{
  sort_where, ℕ, ◌+◌, ◌*◌, String, Bool, true, false, not, ◌&&◌, List, [], ◌∷◌, Option, none, some,
  keep_if, ltb, leb, if◌then◌else◌, str_eq, Result, ok, raise, suc, zero,
}

-- The columns of `JWTKey`.
pub record JwtKey : Type 0 where
  pub version : String
  pub private_key : String
  pub public_key : String
  pub created_at : ℕ
  pub expires_at : ℕ
  pub is_active : Bool
  pub rotation_count : ℕ

-- `ORDER BY expires_at DESC`, ties in the order of the table.
abbrev pub expires_last : JwtKey → JwtKey → Bool
expires_last k x = leb x.expires_at k.expires_at

abbrev pub sort_keys : List JwtKey → List JwtKey
sort_keys = sort_where expires_last

abbrev pub active : JwtKey → Bool
active k = k.is_active

unfoldable pub get_active_keys : List JwtKey → List JwtKey
get_active_keys keys = sort_keys (keep_if active keys)

abbrev pub first_key : List JwtKey → Option JwtKey
first_key [] = none
first_key (k ∷ ks) = some k

-- `get_latest_active_key`, the same query with `LIMIT 1`.
unfoldable pub get_latest_active_key : List JwtKey → Option JwtKey
unfolding get_active_keys
get_latest_active_key keys = first_key (get_active_keys keys)

abbrev pub deactivate : JwtKey → JwtKey
deactivate k = record k { is_active = false }

abbrev pub is_expired : ℕ → JwtKey → Bool
is_expired now k = k.is_active && ltb k.expires_at now

-- `cleanup_expired_keys`: the table after it, and the count that it returns.
unfoldable pub cleanup_expired_keys : ℕ → List JwtKey → List JwtKey × ℕ
cleanup_expired_keys now [] = ([], 0)
cleanup_expired_keys now (k ∷ ks) =
    let rest = cleanup_expired_keys now ks in
    if is_expired now k then (deactivate k ∷ rest.0, suc rest.1) else (k ∷ rest.0, rest.1)

-- The claims of a token.
pub record TokenData : Type 0 where
  pub sub : Option String
  pub token_type : Option String
  pub role : String
  pub name : String
  pub jti : String
  pub client_id : Option String
  pub rate_limit : Option ℕ

pub record Claims : Type 0 where
  pub data_ : TokenData
  pub iat : ℕ
  pub exp : ℕ
  pub nbf : ℕ

-- What `jwt.decode` does: a payload, `ExpiredSignatureError`, or another `JWTError`.
pub data Verdict : Type 0 where
  payload : Claims → Verdict
  too_old bad_signature : Verdict

pub data TokenError : Type 0 where
  expired_signature jwt_error no_key : TokenError

-- The session that a method is given, if any, and the table of keys if its query works.
pub data Session : Type 0 where
  sessionless query_fails : Session
  with_keys : List JwtKey → Session

-- jose, over its type of encoded tokens, and the files of the key manager.
pub record Jose (Token : Type 0) : Type 0 where
  pub encode : Claims → String → Token
  pub decode : ℕ → Token → String → Verdict
  pub private_file : Option String
  pub public_file : Option String

-- How the attempts with the keys of the database end. An expired token ends them by an exception, which
-- the outer handler takes as a failure to load the keys.
pub data Attempt : Type 0 where
  decoded : Claims → Attempt
  raised none_fits : Attempt

module _ {Token : Type 0} (j : Jose Token) where
  abbrev pub sign_with_file : Claims → Option String → Result TokenError Token
  sign_with_file c none = raise no_key
  sign_with_file c (some key) = ok (j.encode c key)

  -- `create_token_from_data`; the word for the log changes nothing.
  unfoldable pub create_token_from_data : ℕ → TokenData → ℕ → Result TokenError Token
  create_token_from_data now d lifetime =
      sign_with_file (record { data_ = d; iat = now; exp = now + lifetime; nbf = now })
        j.private_file

  abbrev pub on_verdict : Verdict → Attempt → Attempt
  on_verdict (payload c) rest = decoded c
  on_verdict too_old rest = raised
  on_verdict bad_signature rest = rest

  -- The loop of `decode_token` over the active keys.
  abbrev pub try_keys : ℕ → Token → List JwtKey → Attempt
  try_keys now token [] = none_fits
  try_keys now token (k ∷ ks) =
      let rest = try_keys now token ks in on_verdict (j.decode now token k.public_key) rest

  unfoldable pub try_session : ℕ → Token → Session → Attempt
  unfolding get_active_keys
  try_session now token sessionless = none_fits
  try_session now token query_fails = raised
  try_session now token (with_keys keys) = try_keys now token (get_active_keys keys)

  abbrev pub file_verdict : Verdict → Result TokenError Claims
  file_verdict (payload c) = ok c
  file_verdict too_old = raise expired_signature
  file_verdict bad_signature = raise jwt_error

  -- The attempt with the file-based key.
  unfoldable pub try_file : ℕ → Token → Option String → Result TokenError Claims
  try_file now token none = raise jwt_error
  try_file now token (some key) = file_verdict (j.decode now token key)

  unfoldable pub after_session : ℕ → Token → Attempt → Result TokenError Claims
  unfolding try_file
  after_session now token (decoded c) = ok c
  after_session now token raised = try_file now token j.public_file
  after_session now token none_fits = try_file now token j.public_file

  -- `decode_token`
  unfoldable pub decode_token : ℕ → Token → Session → Result TokenError Claims
  unfolding try_session after_session
  decode_token now token session = after_session now token (try_session now token session)

  abbrev pub has_type : String → Option String → Bool
  has_type expected none = false
  has_type expected (some t) = str_eq t expected

  abbrev pub of_type : String → Result TokenError Claims → Option Claims
  of_type expected (raise e) = none
  of_type expected (ok c) = if has_type expected c.data_.token_type then some c else none

  -- `validate_token`
  unfoldable pub validate_token : ℕ → Token → String → Session → Option Claims
  unfolding decode_token
  validate_token now token token_type session = of_type token_type (decode_token now token session)

  abbrev pub or_else : Option Claims → Option Claims → Option Claims
  or_else none other = other
  or_else (some c) other = some c

  -- The two attempts at the token of a request in `app/api/dependencies/auth.py`.
  unfoldable pub payload_of_request : ℕ → Token → Option Claims
  unfolding validate_token
  payload_of_request now token =
      or_else (validate_token now token "service_account" sessionless)
        (validate_token now token "access" sessionless)

  abbrev pub sign_with_latest : Claims → Option JwtKey → Result TokenError Token
  sign_with_latest c none = sign_with_file c j.private_file
  sign_with_latest c (some key) = ok (j.encode c key.private_key)

  -- The signing that both tokens of a service account share.
  unfoldable pub sign : Session → Claims → Result TokenError Token
  unfolding get_latest_active_key
  sign sessionless c = sign_with_file c j.private_file
  sign query_fails c = sign_with_file c j.private_file
  sign (with_keys keys) c = sign_with_latest c (get_latest_active_key keys)

  -- `create_service_account_access_token`, without extra claims, and `create_service_account_refresh_token`,
  -- with the settings for their lifetimes.
  unfoldable pub create_service_account_access_token :
      ℕ → ℕ → TokenData → ℕ → Session → Result TokenError Token
  unfolding sign
  create_service_account_access_token now expire_minutes account rate_limit session =
      sign session (record {
        data_ = record account {
          token_type = some "service_account";
          rate_limit = some rate_limit;
        };
        iat = now;
        exp = now + expire_minutes * 60;
        nbf = now;
      })

  unfoldable pub create_service_account_refresh_token :
      ℕ → ℕ → TokenData → Session → Result TokenError Token
  unfolding sign
  create_service_account_refresh_token now expire_days account session = sign session (record {
    data_ = record account { token_type = some "service_account"; rate_limit = none };
    iat = now;
    exp = now + expire_days * 86400;
    nbf = now;
  })
