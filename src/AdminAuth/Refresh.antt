-- ===== src/AdminAuth/Refresh.antt =====
-- Which tokens a refresh accepts.
use art_store.Common.{
  ℕ, ◌+◌, ◌≤◌, ◌≡◌, refl, sym, ap, ◌∙◌, inl, inr, String, true, false, List, Option, none, some,
  is_some, find_first, str_eq, str_eq_iff, arith, Bool-cases, Result, ok, raise, is_ok,
  find_first-mem,
}
use art_store.AdminAuth.{
  AdminUser, AuthError, invalid_credentials, is_locked, can_login, is_user, Libraries, Attempt,
  token_data, both, create_tokens, reject, accept, check_user, authenticate, refresh_user,
  refresh_named, refresh_claims, as_invalid, refresh_token,
}
use art_store.Tokens.{
  create_token_from_data, decode_token, Claims, TokenError, sessionless, has_type,
}
use art_store.Tokens.Decoding.{Documented, HasFiles, create_token_from_data-decode_token}
use art_store.AdminAuth.Login.{
  check_user-accept, check_user-reject, check_user-refused, reject-is_ok, logged_in,
  authenticate_succeeds_iff, create_tokens-is_ok,
}

module _ {Token : Type 0} (l : Libraries Token) where
  accept-issued :
      (a : Attempt) (users : List AdminUser) (u : AdminUser) (t : Token × Token)
      → (accept l a u users).0 ≡ ok t
      → create_tokens l a.at_time a.jti (logged_in l a.at_time u) ≡ ok t
  unfolding accept
  accept-issued a users u t h = elim (Bool-cases a.commit_ok) [
    | inl commits ↦ elim (Bool-cases a.refresh_ok) [
      | inl reads ↦ rw (commits, reads) at h
      | inr fails ↦ absurd (cc (rw (commits, fails) at h))
    ]
    | inr fails ↦ absurd (cc (rw fails at h))
  ]

  not_issued :
      (r : Result AuthError (Token × Token)) (t : Token × Token) → is_ok r ≡ false → r ≡ ok t → ⊥
  not_issued (ok x) t h e = cc h
  not_issued (raise x) t h e = cc e

  authenticate-issued :
      (a : Attempt) (users : List AdminUser) (u : AdminUser) (t : Token × Token)
      → find_first (is_user (l.lower a.name)) users ≡ some u
      → (authenticate l a users).0 ≡ ok t
      → (u.enabled ≡ true) × (create_tokens l a.at_time a.jti (logged_in l a.at_time u) ≡ ok t)
  unfolding authenticate
  authenticate-issued a users u t found h = elim (Bool-cases (can_login a.at_time u)) [
    | inr cannot ↦ absurd (
        not_issued (check_user l a users (some u)).0 t (check_user-refused l a users u cannot)
          (rw found at h))
    | inl can ↦
        let on : u.enabled ≡ true = ground arith in
        let free : is_locked a.at_time u ≡ false = ground arith in
        elim (Bool-cases (l.hasher.verify a.password u.password_hash)) [
          | inl right ↦ (
            on,
            accept-issued a users u t
                (rw (found, check_user-accept l a users u on free right) at h),
          )
          | inr wrong ↦ absurd (
              not_issued (reject l a u users).0 t (reject-is_ok l a users u)
                (rw (found, check_user-reject l a users u on free wrong) at h))
        ]
  ]

  both-ok :
      (x y : Result TokenError Token) (access refresh : Token)
      → both l x y ≡ ok (access, refresh)
      → (x ≡ ok access) × (y ≡ ok refresh)
  both-ok (ok a) (ok r) access refresh h = (cc h, cc h)
  both-ok (ok a) (raise e) access refresh h = absurd (cc h)
  both-ok (raise e) y access refresh h = absurd (cc h)

  -- Both tokens of a login.
  create_tokens-ok :
      (now : ℕ) (jti : String) (u : AdminUser) (access refresh : Token)
      → create_tokens l now jti u ≡ ok (access, refresh)
      → (create_token_from_data l.jose now (token_data l jti u) 1800 ≡ ok access)
        × (create_token_from_data l.jose now (token_data l jti u) 604800 ≡ ok refresh)
  unfolding create_tokens
  create_tokens-ok now jti u access refresh h =
      both-ok (create_token_from_data l.jose now (token_data l jti u) 1800)
        (create_token_from_data l.jose now (token_data l jti u) 604800) access refresh h

  as_invalid-is_ok : (r : Result AuthError (Token × Token)) → is_ok (as_invalid l r) ≡ is_ok r
  as_invalid-is_ok (ok t) = refl
  as_invalid-is_ok (raise e) = refl

  -- The row lets its token be refreshed.
  claims-refreshed :
      (now later : ℕ) (jti jti2 : String) (lifetime : ℕ) (users : List AdminUser) (u : AdminUser)
      (token : Token)
      → str_eq u.username "" ≡ false
      → find_first (is_user u.username) users ≡ some u
      → can_login later u ≡ true
      → is_some l.jose.private_file ≡ true
      → decode_token l.jose later token sessionless
        ≡ ok (record { data_ = token_data l jti u; iat = now; exp = now + lifetime; nbf = now })
      → is_ok (refresh_token l later jti2 token users) ≡ true
  unfolding refresh_token
  claims-refreshed now later jti jti2 lifetime users u token named found can key read =
      rw (read, named, found, can)
        (as_invalid-is_ok (create_tokens l later jti2 u)
          ∙ (create_tokens-is_ok l later jti2 u ∙ key))

  ok-is_ok : (r : Result AuthError (Token × Token)) (t : Token × Token) → r ≡ ok t → is_ok r ≡ true
  ok-is_ok r t h = rw h refl

  -- The refresh of a token of this lifetime that a login gave.
  abbrev pub Refreshes : Attempt → ℕ → Token → List AdminUser → Type 0
  Refreshes a lifetime token users =
      (later : ℕ) (jti : String)
      → a.at_time ≤ later
      → later ≤ a.at_time + lifetime
      → is_ok (refresh_token l later jti token users) ≡ true

  -- After a login, each of its two tokens can be exchanged for a new pair until it expires: the refresh
  -- token for seven days, and the access token, for as long as it lives, just as well.
  pub authenticate-Refreshes :
      (IsPair : String → String → Type 0)
      → Documented l.jose IsPair
      → HasFiles l.jose IsPair
      → (a : Attempt) (users : List AdminUser) (u : AdminUser) (access refresh : Token)
      → find_first (is_user (l.lower a.name)) users ≡ some u
      → str_eq u.username "" ≡ false
      → (authenticate l a users).0 ≡ ok (access, refresh)
      → Refreshes a 604800 refresh (authenticate l a users).1
        × Refreshes a 1800 access (authenticate l a users).1
  authenticate-Refreshes IsPair doc files a users u access refresh found named h =
      let (on, made) = authenticate-issued a users u (access, refresh) found h in
      let (made_access, made_refresh) =
        create_tokens-ok a.at_time a.jti (logged_in l a.at_time u) access refresh made in
      let key =
        sym (create_tokens-is_ok l a.at_time a.jti (logged_in l a.at_time u))
        ∙ ok-is_ok (create_tokens l a.at_time a.jti (logged_in l a.at_time u)) (access, refresh)
            made in
      let name : u.username ≡ l.lower a.name =
        (str_eq_iff u.username (l.lower a.name)).0
          (find_first-mem (is_user (l.lower a.name)) u users found).1 in
      let there : find_first (is_user u.username) (authenticate l a users).1
          ≡ some (logged_in l a.at_time u) =
        ap (λ n. find_first (is_user n) (authenticate l a users).1) name
        ∙ (authenticate_succeeds_iff l a users u found).1
            (ok-is_ok (authenticate l a users).0 (access, refresh) h) in
      let can : (later : ℕ) → can_login later (logged_in l a.at_time u) ≡ true =
        λ later. rw on refl in
      (
        (λ later jti from to.
            claims-refreshed a.at_time later a.jti jti 604800 (authenticate l a users).1
              (logged_in l a.at_time u) refresh named there (can later) key
              (create_token_from_data-decode_token l.jose IsPair doc files a.at_time later 604800
                (token_data l a.jti (logged_in l a.at_time u)) refresh made_refresh from to)),
        (λ later jti from to.
            claims-refreshed a.at_time later a.jti jti 1800 (authenticate l a users).1
              (logged_in l a.at_time u) access named there (can later) key
              (create_token_from_data-decode_token l.jose IsPair doc files a.at_time later 1800
                (token_data l a.jti (logged_in l a.at_time u)) access made_access from to)),
      )

  -- What a refresh rests on.
  pub record IsVouched (now : ℕ) (token : Token) (users : List AdminUser) (t : Token × Token)
      : Type 0 where
    pub claims : Claims
    pub user : AdminUser
    pub jti : String
    pub read : decode_token l.jose now token sessionless ≡ ok claims
    pub type_of : has_type l.jose "admin_user" claims.data_.token_type ≡ true
    pub named : claims.data_.sub ≡ some user.username
    pub found : find_first (is_user user.username) users ≡ some user
    pub can : can_login now user ≡ true
    pub made : create_tokens l now jti user ≡ ok t

  module _ (now : ℕ) (jti : String) (token : Token) (users : List AdminUser) where
    as_invalid-ok :
        (r : Result AuthError (Token × Token)) (t : Token × Token)
        → as_invalid l r ≡ ok t
        → r ≡ ok t
    as_invalid-ok (ok x) t h = h
    as_invalid-ok (raise x) t h = absurd (cc h)

    as_invalid-raise :
        (r : Result AuthError (Token × Token)) (e : AuthError)
        → as_invalid l r ≡ raise e
        → e ≡ invalid_credentials
    as_invalid-raise (ok x) e h = absurd (cc h)
    as_invalid-raise (raise x) e h = cc h

    user-IsVouched :
        (c : Claims) (name : String) (o : Option AdminUser) (t : Token × Token)
        → decode_token l.jose now token sessionless ≡ ok c
        → has_type l.jose "admin_user" c.data_.token_type ≡ true
        → c.data_.sub ≡ some name
        → find_first (is_user name) users ≡ o
        → refresh_user l now jti o ≡ ok t
        → IsVouched now token users t
    user-IsVouched c name none t read ty sub found h = absurd (cc h)
    user-IsVouched c name (some u) t read ty sub found h =
        let same : u.username ≡ name =
          (str_eq_iff u.username name).0 (find_first-mem (is_user name) u users found).1 in
        elim (Bool-cases (can_login now u)) [
          | inl can ↦ record {
            claims = c;
            user = u;
            jti = jti;
            read = read;
            type_of = ty;
            named = sub ∙ ap some (sym same);
            found = ap (λ n. find_first (is_user n) users) same ∙ found;
            can = can;
            made = rw can at h;
          }
          | inr cannot ↦ absurd (cc (rw cannot at h))
        ]

    named-IsVouched :
        (c : Claims) (sub : Option String) (t : Token × Token)
        → decode_token l.jose now token sessionless ≡ ok c
        → has_type l.jose "admin_user" c.data_.token_type ≡ true
        → c.data_.sub ≡ sub
        → refresh_named l now jti users sub ≡ ok t
        → IsVouched now token users t
    named-IsVouched c none t read ty sub h = absurd (cc h)
    named-IsVouched c (some name) t read ty sub h = elim (Bool-cases (str_eq name "")) [
      | inl empty ↦ absurd (cc (rw empty at h))
      | inr full ↦
          user-IsVouched c name (find_first (is_user name) users) t read ty sub refl (rw full at h)
    ]

    claims-IsVouched :
        (r : Result TokenError Claims)
        → decode_token l.jose now token sessionless ≡ r
        → (t : Token × Token) → refresh_claims l now jti users r ≡ ok t
        → IsVouched now token users t
    claims-IsVouched (raise e) read t h = absurd (cc h)
    claims-IsVouched (ok c) read t h =
        elim (Bool-cases (has_type l.jose "admin_user" c.data_.token_type)) [
          | inl ty ↦ named-IsVouched c c.data_.sub t read ty refl (rw ty at h)
          | inr other ↦ absurd (cc (rw other at h))
        ]

  -- A refresh succeeds only with a token of an administrator that is valid now, whose row is in the table,
  -- enabled and not locked, and the new tokens are for that row. Every failure is one exception.
  pub refresh_token-IsVouched :
      (now : ℕ) (jti : String) (token : Token) (users : List AdminUser)
      → ((t : Token × Token)
          → refresh_token l now jti token users ≡ ok t
          → IsVouched now token users t)
        × ((e : AuthError)
            → refresh_token l now jti token users ≡ raise e
            → e ≡ invalid_credentials)
  unfolding refresh_token
  refresh_token-IsVouched now jti token users = (
    (λ t h.
        claims-IsVouched now jti token users (decode_token l.jose now token sessionless) refl t (
          as_invalid-ok now jti token users
            (refresh_claims l now jti users (decode_token l.jose now token sessionless)) t h)),
    (λ e h.
        as_invalid-raise now jti token users
          (refresh_claims l now jti users (decode_token l.jose now token sessionless)) e h),
  )
