-- ===== src/AdminAuth.antt =====
-- admin-module/app/services/admin_auth_service.py and app/models/admin_user.py: the login of the
-- administrators, their tokens and their passwords. bcrypt, jose, `str.lower` and the digits of `re` are
-- parameters; times are seconds.
pub mod Login
pub mod Locks
pub mod Refresh
pub mod Change
use art_store.Common.{
  length, ℕ, ◌+◌, ◌*◌, String, Bool, true, false, not, ◌&&◌, List, [], ◌∷◌, Option, none, some,
  take, find_first, contains, ltb, leb, if◌then◌else◌, str_eq, Result, ok, raise,
}
use Prim.Native.String.{◌++◌ as text_append}
use art_store.PasswordPolicy.{Text, Policy, PolicyError, validate}
use art_store.Tokens.{
  Jose, TokenData, Claims, TokenError, sessionless, create_token_from_data, decode_token, has_type,
}

-- The columns of `AdminUser` that the service reads and writes.
pub record AdminUser : Type 0 where
  pub username : String
  pub password_hash : String
  pub password_history : Option (List String)
  pub password_changed_at : Option ℕ
  pub role : String
  pub enabled : Bool
  pub last_login_at : Option ℕ
  pub login_attempts : ℕ
  pub locked_until : Option ℕ

pub data AuthError : Type 0 where
  invalid_credentials account_locked account_disabled password_in_history commit_failed
        refresh_failed :
      AuthError
  policy_violation : PolicyError → AuthError
  no_token : TokenError → AuthError

-- bcrypt: the hash of a password under a salt, and the check of a password.
pub record Hasher : Type 0 where
  pub hash : String → Text → String
  pub verify : Text → String → Bool

-- `AdminUser.is_locked`
abbrev pub before : ℕ → Option ℕ → Bool
before now none = false
before now (some until) = ltb now until

abbrev pub is_locked : ℕ → AdminUser → Bool
is_locked now u = before now u.locked_until

abbrev pub can_login : ℕ → AdminUser → Bool
can_login now u = u.enabled && not (is_locked now u)

abbrev pub reset_login_attempts : AdminUser → AdminUser
reset_login_attempts u = record u { login_attempts = 0; locked_until = none }

-- `increment_login_attempts`: the fifth failure and each one after it lock the account.
unfoldable pub increment_login_attempts : ℕ → ℕ → AdminUser → AdminUser
increment_login_attempts now minutes u = record u {
  login_attempts = u.login_attempts + 1;
  locked_until = if leb 5 (u.login_attempts + 1) then some (now + minutes * 60) else u.locked_until;
}

abbrev pub history_of : Option (List String) → List String
history_of none = []
history_of (some history) = history

-- What the commit writes of a list `inserted` that is a loaded list with an insertion in place, where its
-- beginning `kept` is then assigned to the column. The column does not track its value, so that the session
-- compares `kept` with the loaded list, which has the insertion by then, and leaves an equal value out of
-- the UPDATE: the row keeps `loaded`.
abbrev pub written_history : List String → List String → ℕ → List String
written_history loaded inserted max_history =
    if leb (length inserted) max_history then loaded else take max_history inserted

-- `add_password_to_history`, as the row has it after the commit. A list that is assigned where there was
-- none is a new value.
abbrev pub committed_history : ℕ → String → Option (List String) → List String
committed_history max_history password_hash none = take max_history (password_hash ∷ [])
committed_history max_history password_hash (some loaded) =
    written_history loaded (password_hash ∷ loaded) max_history

unfoldable pub add_password_to_history : String → ℕ → AdminUser → AdminUser
add_password_to_history password_hash max_history u = record u {
  password_history = some (committed_history max_history password_hash u.password_history);
}

abbrev pub is_password_in_history : String → AdminUser → Bool
is_password_in_history password_hash u = contains password_hash (history_of u.password_history)

abbrev pub is_user : String → AdminUser → Bool
is_user name u = str_eq u.username name

-- `UPDATE admin_users … ` of a row, by its unique name.
abbrev pub store_user : AdminUser → List AdminUser → List AdminUser
store_user u [] = []
store_user u (x ∷ xs) =
    let rest = store_user u xs in if is_user u.username x then u ∷ rest else x ∷ rest

-- The policy of `__init__`.
abbrev pub admin_policy : Policy
admin_policy = record {
  min_length = 8;
  require_uppercase = true;
  require_lowercase = true;
  require_digits = true;
  require_special = false;
  max_age_days = 90;
  history_size = 5;
}

-- The libraries.
pub record Libraries (Token : Type 0) : Type 0 where
  pub hasher : Hasher
  pub jose : Jose Token
  pub lower : String → String
  pub is_digit : ℕ → Bool

-- A call of `authenticate`, at its time, and whether its commit works and `refresh`, which reads the row
-- again after the commit of a success.
pub record Attempt : Type 0 where
  pub at_time : ℕ
  pub name : String
  pub password : Text
  pub commit_ok : Bool
  pub refresh_ok : Bool
  pub jti : String

module _ {Token : Type 0} (l : Libraries Token) where
  abbrev pub token_data : String → AdminUser → TokenData
  token_data jti u = record {
    sub = some u.username;
    token_type = some "admin_user";
    role = u.role;
    name = u.username;
    jti = jti;
    client_id = some (text_append "user_" u.username);
    rate_limit = none;
  }

  abbrev pub both :
      Result TokenError Token → Result TokenError Token → Result AuthError (Token × Token)
  both (ok access) (ok refresh) = ok (access, refresh)
  both (ok access) (raise e) = raise (no_token e)
  both (raise e) refresh = raise (no_token e)

  -- `_create_tokens`: 30 minutes and 7 days, from the same claims.
  unfoldable pub create_tokens : ℕ → String → AdminUser → Result AuthError (Token × Token)
  unfolding create_token_from_data
  create_tokens now jti u =
      both (create_token_from_data l.jose now (token_data jti u) 1800)
        (create_token_from_data l.jose now (token_data jti u) 604800)

  -- A wrong password.
  unfoldable pub reject :
      Attempt → AdminUser → List AdminUser → Result AuthError (Token × Token) × List AdminUser
  unfolding increment_login_attempts
  reject a u users =
      if a.commit_ok
      then (raise invalid_credentials, store_user (increment_login_attempts a.at_time 15 u) users)
      else (raise commit_failed, users)

  -- The right password.
  unfoldable pub accept :
      Attempt → AdminUser → List AdminUser → Result AuthError (Token × Token) × List AdminUser
  unfolding create_tokens
  accept a u users =
      let u1 = record (reset_login_attempts u) { last_login_at = some a.at_time } in
      if a.commit_ok
      then (
        (if a.refresh_ok then create_tokens a.at_time a.jti u1 else raise refresh_failed),
        store_user u1 users,
      )
      else (raise commit_failed, users)

  unfoldable pub check_user :
      Attempt
      → List AdminUser
      → Option AdminUser
      → Result AuthError (Token × Token) × List AdminUser
  unfolding reject accept
  check_user a users none = (raise invalid_credentials, users)
  check_user a users (some u) =
      if not u.enabled
      then (raise account_disabled, users)
      else if is_locked a.at_time u
      then (raise account_locked, users)
      else if l.hasher.verify a.password u.password_hash
      then accept a u users
      else reject a u users

  -- `authenticate`
  unfoldable pub authenticate :
      Attempt → List AdminUser → Result AuthError (Token × Token) × List AdminUser
  unfolding check_user
  authenticate a users = check_user a users (find_first (is_user (l.lower a.name)) users)

  -- Calls of `authenticate`, one after another.
  unfoldable pub run_attempts : List Attempt → List AdminUser → List AdminUser
  unfolding authenticate
  run_attempts [] users = users
  run_attempts (a ∷ rest) users = run_attempts rest (authenticate a users).1

  abbrev pub refresh_user : ℕ → String → Option AdminUser → Result AuthError (Token × Token)
  refresh_user now jti none = raise invalid_credentials
  refresh_user now jti (some u) =
      if can_login now u then create_tokens now jti u else raise account_disabled

  abbrev pub refresh_named :
      ℕ → String → List AdminUser → Option String → Result AuthError (Token × Token)
  refresh_named now jti users none = raise invalid_credentials
  refresh_named now jti users (some name) =
      if str_eq name ""
      then raise invalid_credentials
      else refresh_user now jti (find_first (is_user name) users)

  abbrev pub refresh_claims :
      ℕ → String → List AdminUser → Result TokenError Claims → Result AuthError (Token × Token)
  refresh_claims now jti users (raise e) = raise (no_token e)
  refresh_claims now jti users (ok c) =
      if has_type l.jose "admin_user" c.data_.token_type
      then refresh_named now jti users c.data_.sub
      else raise invalid_credentials

  -- The handler of `refresh_token` makes one exception of all.
  abbrev pub as_invalid : Result AuthError (Token × Token) → Result AuthError (Token × Token)
  as_invalid (ok tokens) = ok tokens
  as_invalid (raise e) = raise invalid_credentials

  -- `refresh_token`
  unfoldable pub refresh_token :
      ℕ → String → Token → List AdminUser → Result AuthError (Token × Token)
  unfolding create_tokens decode_token
  refresh_token now jti token users =
      as_invalid (refresh_claims now jti users (decode_token l.jose now token sessionless))

  -- The end of `change_password`.
  unfoldable pub set_password : ℕ → Bool → String → AdminUser → Result AuthError Unit × AdminUser
  unfolding add_password_to_history
  set_password now commit_ok new_hash u =
      if is_password_in_history new_hash u
      then (raise password_in_history, u)
      else if commit_ok
      then (
        ok tt,
        record (add_password_to_history u.password_hash admin_policy.history_size u) {
          password_hash = new_hash;
          password_changed_at = some now;
        },
      )
      else (raise commit_failed, u)

  unfoldable pub unless_violated :
      ℕ → Bool → String → Option PolicyError → AdminUser → Result AuthError Unit × AdminUser
  unfolding set_password
  unless_violated now commit_ok new_hash (some e) u = (raise (policy_violation e), u)
  unless_violated now commit_ok new_hash none u = set_password now commit_ok new_hash u

  -- `change_password`, with the salt that bcrypt draws.
  unfoldable pub change_password :
      ℕ → Bool → String → Text → Text → AdminUser → Result AuthError Unit × AdminUser
  unfolding unless_violated validate
  change_password now commit_ok salt current new u =
      if l.hasher.verify current u.password_hash
      then unless_violated now commit_ok (l.hasher.hash salt new)
          (validate l.is_digit admin_policy new) u
      else (raise invalid_credentials, u)
