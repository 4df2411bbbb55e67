-- ===== src/Tokens/Decoding.antt =====
-- Which tokens are accepted.
use art_store.Common.{
  is_ok, ℕ, ◌+◌, ◌*◌, ◌≤◌, ◌≡◌, refl, ◌⊎◌, inl, inr, true, List, [], ◌∷◌, Option, none, some, All,
  Memᴰ, All-mem, mem-All, ok, String,
}
use art_store.Tokens.{
  JwtKey, Jose, Claims, TokenData, Verdict, payload, too_old, bad_signature, Session, sessionless,
  query_fails, with_keys, Attempt, decoded, raised, none_fits, active, get_active_keys, first_key,
  get_latest_active_key, create_token_from_data, on_verdict, try_keys, try_session, file_verdict,
  try_file, after_session, decode_token, validate_token, payload_of_request, sign_with_file,
  sign_with_latest, sign, create_service_account_access_token, create_service_account_refresh_token,
}
use art_store.Tokens.Keys.{get_active_keys-mem}

-- jose accepts a token that the private key of a pair signed, under the public key, from its `nbf` to its
-- `exp`, with the claims that were signed.
pub record Documented {Token : Type 0} (j : Jose Token) (IsPair : String → String → Type 0)
    : Type 0 where
  pub decode-encode :
      (now : ℕ) (c : Claims) (private_key public_key : String)
      → IsPair private_key public_key
      → c.nbf ≤ now
      → now ≤ c.exp
      → j.decode now (j.encode c private_key) public_key ≡ payload c

module _ {Token : Type 0} (j : Jose Token) where
  -- A key of the table, active now, or the public key of the files.
  abbrev pub MayCheck : Session → String → Type 0
  MayCheck sessionless key = j.public_file ≡ some key
  MayCheck query_fails key = j.public_file ≡ some key
  MayCheck (with_keys keys) key =
      (j.public_file ≡ some key)
      ⊎ ((k : JwtKey) × (Memᴰ k keys × ((active k ≡ true) × (k.public_key ≡ key))))

  -- The key stands behind the payload.
  abbrev pub Vouched : ℕ → Token → Session → Claims → Type 0
  Vouched now token session c =
      (key : String) × (MayCheck session key × (j.decode now token key ≡ payload c))

  from_file : (session : Session) (key : String) → j.public_file ≡ some key → MayCheck session key
  from_file sessionless key h = h
  from_file query_fails key h = h
  from_file (with_keys keys) key h = inl h

  try_keys-Vouched :
      (now : ℕ) (token : Token) (c : Claims) (keys : List JwtKey)
      → try_keys j now token keys ≡ decoded c
      → (k : JwtKey) × (Memᴰ k keys × (j.decode now token k.public_key ≡ payload c))
  try_keys-Vouched now token c [] h = absurd (cc h)
  try_keys-Vouched now token c (k ∷ ks) h =
      go (j.decode now token k.public_key) refl h (try_keys-Vouched now token c ks)
    where
      go :
          (v : Verdict)
          → j.decode now token k.public_key ≡ v
          → on_verdict j v (try_keys j now token ks) ≡ decoded c
          → (try_keys j now token ks ≡ decoded c
              → (x : JwtKey) × (Memᴰ x ks × (j.decode now token x.public_key ≡ payload c)))
          → (x : JwtKey) × (Memᴰ x (k ∷ ks) × (j.decode now token x.public_key ≡ payload c))
      go (payload d) e g rest = (k, (Memᴰ.head refl, cc (e, g)))
      go too_old e g rest = absurd (cc g)
      go bad_signature e g rest = let (x, (m, d)) = rest g in (x, (Memᴰ.tail m, d))

  file_verdict-payload : (v : Verdict) (c : Claims) → file_verdict j v ≡ ok c → v ≡ payload c
  file_verdict-payload (payload d) c h = cc h
  file_verdict-payload too_old c h = absurd (cc h)
  file_verdict-payload bad_signature c h = absurd (cc h)

  try_file-Vouched :
      (now : ℕ) (token : Token) (session : Session) (c : Claims) (file : Option String)
      → j.public_file ≡ file
      → try_file j now token file ≡ ok c
      → Vouched now token session c
  unfolding try_file
  try_file-Vouched now token session c none e h = absurd (cc h)
  try_file-Vouched now token session c (some key) e h =
      (key, (from_file session key e, file_verdict-payload (j.decode now token key) c h))

  session-Vouched :
      (now : ℕ) (token : Token) (c : Claims) (session : Session)
      → try_session j now token session ≡ decoded c
      → Vouched now token session c
  unfolding try_session
  session-Vouched now token c sessionless h = absurd (cc h)
  session-Vouched now token c query_fails h = absurd (cc h)
  session-Vouched now token c (with_keys keys) h =
      let (k, (m, d)) = try_keys-Vouched now token c (get_active_keys keys) h in
      let (there, on) = get_active_keys-mem k keys m in
      (k.public_key, (inr (k, (there, (on, refl))), d))

  after_session-Vouched :
      (now : ℕ) (token : Token) (session : Session) (c : Claims) (a : Attempt)
      → try_session j now token session ≡ a
      → after_session j now token a ≡ ok c
      → Vouched now token session c
  unfolding after_session
  after_session-Vouched now token session c (decoded d) e h =
      session-Vouched now token c session (cc (e, h))
  after_session-Vouched now token session c raised e h =
      try_file-Vouched now token session c j.public_file refl h
  after_session-Vouched now token session c none_fits e h =
      try_file-Vouched now token session c j.public_file refl h

  -- The claims that `decode_token` returns are those that jose reads from the token under the public key
  -- of an active key of the given session's table, or under the key of the files.
  pub decode_token-Vouched :
      (now : ℕ) (token : Token) (session : Session) (c : Claims)
      → decode_token j now token session ≡ ok c
      → Vouched now token session c
  unfolding decode_token
  decode_token-Vouched now token session c h =
      after_session-Vouched now token session c (try_session j now token session) refl h

  -- The files hold a pair of keys.
  pub record HasFiles (IsPair : String → String → Type 0) : Type 0 where
    pub private_key : String
    pub public_key : String
    pub private_there : j.private_file ≡ some private_key
    pub public_there : j.public_file ≡ some public_key
    pub paired : IsPair private_key public_key

  abbrev pub Paired : (String → String → Type 0) → Session → Type 0
  Paired IsPair (with_keys keys) = All (λ k. IsPair k.private_key k.public_key) keys
  Paired IsPair sessionless = Unit
  Paired IsPair query_fails = Unit

  module _ (IsPair : String → String → Type 0) (doc : Documented j IsPair) (files : HasFiles IsPair)
      (c : Claims) (now : ℕ) (from : c.nbf ≤ now) (to : now ≤ c.exp) where
    file-decodes :
        (token : Token)
        → sign_with_file j c j.private_file ≡ ok token
        → try_file j now token j.public_file ≡ ok c
    unfolding try_file
    file-decodes token h =
        let made : ok (j.encode c files.private_key) ≡ ok token = rw (files.private_there) at h in
        let same : j.encode c files.private_key ≡ token = cc made in
        rw
          (
            files.public_there,
            ← same,
            doc.decode-encode now c files.private_key files.public_key files.paired from to,
          )
          refl

    table-decodes :
        (token : Token) (keys sorted : List JwtKey)
        → (All (λ k. IsPair k.private_key k.public_key) sorted)
        → sign_with_latest j c (first_key sorted) ≡ ok token
        → after_session j now token (try_keys j now token sorted) ≡ ok c
    unfolding after_session
    table-decodes token keys [] h e = file-decodes token e
    table-decodes token keys (k ∷ ks) h e =
        let same : j.encode c k.private_key ≡ token = cc e in
        rw (← same, doc.decode-encode now c k.private_key k.public_key h.0 from to) refl

    sign-decode_token :
        (token : Token) (session : Session)
        → Paired IsPair session
        → sign j session c ≡ ok token
        → decode_token j now token session ≡ ok c
    unfolding sign decode_token try_session get_latest_active_key after_session
    sign-decode_token token sessionless h e = file-decodes token e
    sign-decode_token token query_fails h e = file-decodes token e
    sign-decode_token token (with_keys keys) h e =
        table-decodes token keys (get_active_keys keys)
          (mem-All (λ k. IsPair k.private_key k.public_key) (get_active_keys keys)
            (λ k m.
              All-mem (λ k. IsPair k.private_key k.public_key) k keys h
                (get_active_keys-mem k keys m).0))
          e

  -- The claims of the tokens of a service account, from the account.
  abbrev pub service_claims : TokenData → Option ℕ → ℕ → ℕ → Claims
  service_claims account rate_limit issued expires = record {
    data_ = record {
      sub = account.sub;
      token_type = some "service_account";
      role = account.role;
      name = account.name;
      jti = account.jti;
      client_id = account.client_id;
      rate_limit = rate_limit;
    };
    iat = issued;
    exp = expires;
    nbf = issued;
  }

  -- Whatever session a service account's tokens are made with, the latest active key of its table or, where
  -- it has none or none is given, the files, both tokens decode under the same session, the access token for the
  -- minutes of its setting and the refresh token for the days, to exactly the data of the account with the
  -- type of a service account and their times; only the access token has the rate limit.
  pub create_service_account-decode_token :
      (IsPair : String → String → Type 0)
      → Documented j IsPair
      → HasFiles IsPair
      → (now later minutes days rate_limit : ℕ) (account : TokenData) (session : Session)
        (access refresh : Token)
      → Paired IsPair session
      → create_service_account_access_token j now minutes account rate_limit session ≡ ok access
      → create_service_account_refresh_token j now days account session ≡ ok refresh
      → now ≤ later
      → (later ≤ now + minutes * 60
          → decode_token j later access session
            ≡ ok (service_claims account (some rate_limit) now (now + minutes * 60)))
        × (later ≤ now + days * 86400
            → decode_token j later refresh session
              ≡ ok (service_claims account none now (now + days * 86400)))
  unfolding create_service_account_access_token create_service_account_refresh_token
  create_service_account-decode_token IsPair doc files now later minutes days rate_limit account
        session access refresh h ea er from =
      (
        (λ to. sign-decode_token IsPair doc files _ later from to access session h ea),
        λ to. sign-decode_token IsPair doc files _ later from to refresh session h er,
      )

  pub create_token_from_data-decode_token :
      (IsPair : String → String → Type 0)
      → Documented j IsPair
      → HasFiles IsPair
      → (now later lifetime : ℕ) (d : TokenData) (token : Token)
      → create_token_from_data j now d lifetime ≡ ok token
      → now ≤ later
      → later ≤ now + lifetime
      → decode_token j later token sessionless
        ≡ ok (record { data_ = d; iat = now; exp = now + lifetime; nbf = now })
  unfolding create_token_from_data decode_token try_session after_session
  create_token_from_data-decode_token IsPair doc files now later lifetime d token e from to =
      file-decodes IsPair doc files
        (record { data_ = d; iat = now; exp = now + lifetime; nbf = now }) later from to token e

  -- A token of an administrator is decoded until it expires, but neither of the two types that a request is
  -- tried for is the type of the token, so that the request is refused.
  pub create_token-payload_of_request :
      (IsPair : String → String → Type 0)
      → Documented j IsPair
      → HasFiles IsPair
      → (now later lifetime : ℕ) (d : TokenData) (token : Token) → d.token_type ≡ some "admin_user"
      → create_token_from_data j now d lifetime ≡ ok token
      → now ≤ later
      → later ≤ now + lifetime
      → is_ok (decode_token j later token sessionless) ≡ true
        × (payload_of_request j later token ≡ none)
  unfolding payload_of_request validate_token
  create_token-payload_of_request IsPair doc files now later lifetime d token admin e from to =
      let read =
        create_token_from_data-decode_token IsPair doc files now later lifetime d token e from to in
      (rw read refl, rw (read, admin) refl)
