-- ===== src/Tests/Keys.antt =====
-- Keys and tokens, with a token that carries its claims and the key it is signed with.
use art_store.Common.{
  ℕ, ◌+◌, ◌*◌, ◌≤◌, ◌≡◌, refl, String, true, ◌&&◌, List, [], ◌∷◌, none, some, leb, if◌then◌else◌,
  str_eq, str_eq_refl, arith, ok,
}
use art_store.Tokens.{
  JwtKey, Claims, Verdict, payload, too_old, bad_signature, Jose, TokenData, with_keys,
  create_service_account_access_token, create_service_account_refresh_token, decode_token,
}
use art_store.Tokens.Decoding.{
  service_claims, Documented, HasFiles, Vouched, decode_token-Vouched,
  create_service_account-decode_token,
}

abbrev pub signed : ℕ → Claims × String → String → Verdict
signed now (c, k) key =
    if str_eq k key
    then (if leb c.nbf now && leb now c.exp then payload c else too_old)
    else bad_signature

abbrev pub jose : Jose (Claims × String)
jose = record {
  encode = λ c k. (c, k);
  decode = signed;
  private_file = some "file";
  public_file = some "file";
}

abbrev pub IsPair : String → String → Type 0
IsPair a b = a ≡ b

pub jose-Documented : Documented jose IsPair
jose-Documented = record {
  decode-encode = λ now c a b pair from to.
      let fits : str_eq a b ≡ true = rw pair (str_eq_refl b) in
      let lower_ : leb c.nbf now ≡ true = ground arith in
      let upper : leb now c.exp ≡ true = ground arith in rw (fits, lower_, upper) refl;
}

pub jose-HasFiles : HasFiles jose IsPair
jose-HasFiles = record {
  private_key = "file";
  public_key = "file";
  private_there = refl;
  public_there = refl;
  paired = refl;
}

abbrev key : String → ℕ → JwtKey
key name until = record {
  version = name;
  private_key = name;
  public_key = name;
  created_at = 0;
  expires_at = until;
  is_active = true;
  rotation_count = 0;
}

abbrev keys : List JwtKey
keys = key "old" 50 ∷ key "new" 5000 ∷ []

abbrev account : TokenData
account = record {
  sub = some "7";
  token_type = none;
  role = "USER";
  name = "importer";
  jti = "j";
  client_id = some "sa_1";
  rate_limit = none;
}

abbrev pub issued : TokenData → ℕ → String → Claims × String
issued d until name = (record { data_ = d; iat = 100; exp = until; nbf = 100 }, name)

abbrev access_token : Claims × String
access_token =
    issued (record account { token_type = some "service_account"; rate_limit = some 60 }) 1900 "new"

abbrev refresh_token_of_account : Claims × String
refresh_token_of_account =
    issued (record account { token_type = some "service_account" }) 604900 "new"

access_made :
    create_service_account_access_token jose 100 30 account 60 (with_keys keys) ≡ ok access_token
unfolding create_service_account_access_token
access_made = refl

refresh_made :
    create_service_account_refresh_token jose 100 7 account (with_keys keys)
    ≡ ok refresh_token_of_account
unfolding create_service_account_refresh_token
refresh_made = refl

access_decoded : decode_token jose 120 access_token (with_keys keys) ≡ ok access_token.0
unfolding decode_token
access_decoded = refl

create_service_account-decode_token_example :
    (120 ≤ 100 + 30 * 60
      → decode_token jose 120 access_token (with_keys keys)
        ≡ ok (service_claims jose account (some 60) 100 1900))
    × (120 ≤ 100 + 7 * 86400
        → decode_token jose 120 refresh_token_of_account (with_keys keys)
          ≡ ok (service_claims jose account none 100 604900))
create_service_account-decode_token_example =
    create_service_account-decode_token jose IsPair jose-Documented jose-HasFiles 100 120 30 7 60
      account (with_keys keys) access_token refresh_token_of_account (refl, (refl, tt)) access_made
      refresh_made (omega arith)

decode_token-Vouched_example : Vouched jose 120 access_token (with_keys keys) access_token.0
decode_token-Vouched_example =
    decode_token-Vouched jose 120 access_token (with_keys keys) access_token.0 access_decoded
