-- ===== src/Tests/Logins.antt =====
-- Logins, with a hash that is its salt.
use art_store.Common.{
  ℕ, ◌≡◌, ◌≢◌, refl, String, true, false, ◌&&◌, [], ◌∷◌, Option, none, some, leb, ◌==◌, str_eq,
  str_eq_iff, arith, ok, raise, is_ok, length,
}
use art_store.AdminAuth.{
  AdminUser, AuthError, invalid_credentials, account_locked, admin_policy, Libraries, Attempt,
  token_data, authenticate, run_attempts, refresh_token, change_password,
}
use art_store.PasswordPolicy.{Text, validate}
use art_store.Tokens.{Claims, TokenData, create_token_from_data}
use art_store.AdminAuth.Login.{fifth_failure_locks}
use art_store.AdminAuth.Refresh.{IsVouched, refresh_token-IsVouched}
use art_store.AdminAuth.Change.{changed, change_password-changed, IsSalted}
use art_store.Tests.Keys.{jose, issued}

-- `Aa345678`, and a password that is too short.
abbrev good : Text
good = 65 ∷ 97 ∷ 51 ∷ 52 ∷ 53 ∷ 54 ∷ 55 ∷ 56 ∷ []

abbrev short : Text
short = 65 ∷ 97 ∷ []

abbrev libraries : Libraries (Claims × String)
libraries = record {
  hasher = record {
    hash = λ salt password. salt;
    verify = λ password h. length password == 8 && str_eq h "salt0";
  };
  jose = jose;
  lower = λ s. s;
  is_digit = λ c. leb 48 c && leb c 57;
}

abbrev admin : ℕ → Option ℕ → AdminUser
admin failures until = record {
  username = "admin";
  password_hash = "salt0";
  password_history = some ("salt9" ∷ []);
  password_changed_at = none;
  role = "ADMIN";
  enabled = true;
  last_login_at = none;
  login_attempts = failures;
  locked_until = until;
}

abbrev try_at : ℕ → Text → Attempt
try_at t password = record {
  at_time = t;
  name = "admin";
  password = password;
  commit_ok = true;
  refresh_ok = true;
  jti = "j";
}

fifth_failure_locks_example :
    authenticate libraries
      (try_at 1899 good)
      (run_attempts libraries (try_at 1000 short ∷ try_at 1500 good ∷ []) (admin 4 none ∷ []))
    ≡ (
      raise account_locked,
      run_attempts libraries (try_at 1000 short ∷ try_at 1500 good ∷ []) (admin 4 none ∷ []),
    )
fifth_failure_locks_example =
    fifth_failure_locks libraries (try_at 1000 short) (try_at 1500 good ∷ []) (try_at 1899 good)
      (admin 4 none ∷ []) (admin 4 none) refl refl refl (omega arith) refl refl (omega arith, tt)
      (omega arith) refl

abbrev admin_data : TokenData
admin_data = token_data libraries "j" (admin 0 none)

abbrev admin_token : ℕ → Claims × String
admin_token until = issued admin_data until "file"

admin_issued :
    (authenticate libraries (try_at 100 good) (admin 4 none ∷ [])).0
    ≡ ok (admin_token 1900, admin_token 604900)
unfolding authenticate
admin_issued = refl

refresh_token-IsVouched_example :
    ((t : (Claims × String) × (Claims × String))
      → refresh_token libraries 200 "k" (admin_token 1900) (admin 0 none ∷ []) ≡ ok t
      → IsVouched libraries 200 (admin_token 1900) (admin 0 none ∷ []) t)
    × ((e : AuthError)
        → refresh_token libraries 200 "k" (admin_token 1900) (admin 0 none ∷ []) ≡ raise e
        → e ≡ invalid_credentials)
refresh_token-IsVouched_example =
    refresh_token-IsVouched libraries 200 "k" (admin_token 1900) (admin 0 none ∷ [])

admin_made : create_token_from_data jose 100 admin_data 1800 ≡ ok (admin_token 1900)
unfolding create_token_from_data
admin_made = refl

change_password-changed_example :
    (is_ok (change_password libraries 300 true "salt1" good good (admin 0 none)).0 ≡ true
      → (libraries.hasher.verify good "salt0" ≡ true)
        × ((validate libraries.is_digit admin_policy good ≡ none)
            × ((change_password libraries 300 true "salt1" good good (admin 0 none)).1
                ≡ changed 300 "salt1" (admin 0 none))))
    × (is_ok (change_password libraries 300 true "salt1" good good (admin 0 none)).0 ≡ false
        → (change_password libraries 300 true "salt1" good good (admin 0 none)).1 ≡ admin 0 none)
change_password-changed_example =
    change_password-changed libraries 300 true "salt1" good good (admin 0 none)

salts : IsSalted libraries.hasher (λ h. h)
salts = record { salt_of-hash = λ salt password. refl }

salt9_not_salt1 : ◌≢◌ {A = String} "salt9" "salt1"
salt9_not_salt1 e = ground (arith, e, str_eq_iff "salt9" "salt1")
