-- ===== src/AdminAuth/Login.antt =====
-- When a login succeeds, and how failures are counted.
use art_store.Common.{
  if◌then◌else◌, ℕ, ◌+◌, ◌≤◌, ◌≡◌, refl, ◌∙◌, inl, inr, String, true, false, ◌&&◌, List, [], ◌∷◌,
  Option, none, some, is_some, find_first, leb, arith, All, Bool-cases, Option-cases, Result, raise,
  is_ok, find_first-mem, All-mem,
}
use art_store.AdminAuth.{
  create_token_from_data, AdminUser, AuthError, account_locked, refresh_failed, is_locked,
  can_login, increment_login_attempts, is_user, store_user, Libraries, Attempt, create_tokens,
  reject, accept, check_user, authenticate, run_attempts,
}
use art_store.Tokens.{create_token_from_data}
use art_store.AdminAuth.Locks.{find-store_user-same, IsBefore, locked_refused}

-- An account has an end of a lock exactly if five or more failures are counted.
abbrev pub IsTracked : AdminUser → Type 0
IsTracked u = is_some u.locked_until ≡ leb 5 u.login_attempts

All-store_user :
    (u : AdminUser) (users : List AdminUser)
    → IsTracked u
    → All IsTracked users
    → All IsTracked (store_user u users)
All-store_user u [] h hs = tt
All-store_user u (x ∷ xs) h hs = elim (Bool-cases (is_user u.username x)) [
  | inl same ↦ rw same (h, All-store_user u xs h hs.1)
  | inr other ↦ rw other (hs.0, All-store_user u xs h hs.1)
]

increment-IsTracked :
    (now minutes : ℕ) (u : AdminUser)
    → IsTracked u
    → IsTracked (increment_login_attempts now minutes u)
unfolding increment_login_attempts
increment-IsTracked now minutes u h = elim (Bool-cases (leb 5 (u.login_attempts + 1))) [
  | inl many ↦ rw many refl
  | inr few ↦ rw few (h ∙ ground arith)
]

module _ {Token : Type 0} (l : Libraries Token) where
  check_user-IsTracked :
      (a : Attempt) (users : List AdminUser) (o : Option AdminUser)
      → ((w : AdminUser) → o ≡ some w → IsTracked w)
      → All IsTracked users
      → All IsTracked (check_user l a users o).1
  unfolding check_user reject accept
  check_user-IsTracked a users none h hs = hs
  check_user-IsTracked a users (some w) h hs = elim (Bool-cases w.enabled) [
    | inr off ↦ rw off hs
    | inl on ↦ elim (Bool-cases (is_locked a.at_time w)) [
      | inl locked ↦ rw (on, locked) hs
      | inr free ↦ elim (Bool-cases a.commit_ok) [
        | inr fails ↦ elim (Bool-cases (l.hasher.verify a.password w.password_hash)) [
          | inl right ↦ rw (on, free, right, fails) hs
          | inr wrong ↦ rw (on, free, wrong, fails) hs
        ]
        | inl commits ↦ elim (Bool-cases (l.hasher.verify a.password w.password_hash)) [
          | inl right ↦ rw (on, free, right, commits) (All-store_user _ users refl hs)
          | inr wrong ↦
              rw (on, free, wrong, commits)
                (All-store_user _ users (increment-IsTracked a.at_time 15 w (h w refl)) hs)
        ]
      ]
    ]
  ]

  -- Through every sequence of attempts, an account has an end of a lock exactly if five or more failures
  -- have been counted since its last success.
  run_attempts-IsTracked :
      (attempts : List Attempt) (users : List AdminUser)
      → All IsTracked users
      → All IsTracked (run_attempts l attempts users)
  unfolding run_attempts authenticate
  run_attempts-IsTracked [] users hs = hs
  run_attempts-IsTracked (a ∷ rest) users hs =
      run_attempts-IsTracked rest (authenticate l a users).1 (
        check_user-IsTracked a users (find_first (is_user (l.lower a.name)) users)
          (λ w h.
            All-mem IsTracked w users hs (find_first-mem (is_user (l.lower a.name)) w users h).0)
          hs)

  pub create_tokens-is_ok :
      (now : ℕ) (jti : String) (u : AdminUser)
      → is_ok (create_tokens l now jti u) ≡ is_some l.jose.private_file
  unfolding create_tokens create_token_from_data
  create_tokens-is_ok now jti u = elim (Option-cases l.jose.private_file) [
    | inl e ↦ rw e refl
    | inr h ↦ rw h.1 refl
  ]

  abbrev pub logged_in : ℕ → AdminUser → AdminUser
  logged_in now u = record {
    username = u.username;
    password_hash = u.password_hash;
    password_history = u.password_history;
    password_changed_at = u.password_changed_at;
    role = u.role;
    enabled = u.enabled;
    last_login_at = some now;
    login_attempts = 0;
    locked_until = none;
  }

  module _ (a : Attempt) (users : List AdminUser) (u : AdminUser) (on : u.enabled ≡ true) where
    pub check_user-accept :
        is_locked a.at_time u ≡ false
        → l.hasher.verify a.password u.password_hash ≡ true
        → check_user l a users (some u) ≡ accept l a u users
    unfolding check_user
    check_user-accept free right = rw (on, free, right) refl

    pub check_user-reject :
        is_locked a.at_time u ≡ false
        → l.hasher.verify a.password u.password_hash ≡ false
        → check_user l a users (some u) ≡ reject l a u users
    unfolding check_user
    check_user-reject free wrong = rw (on, free, wrong) refl

  pub reject-is_ok :
      (a : Attempt) (users : List AdminUser) (u : AdminUser) → is_ok (reject l a u users).0 ≡ false
  unfolding reject
  reject-is_ok a users u = elim (Bool-cases a.commit_ok) [
    | inl commits ↦ rw commits refl
    | inr fails ↦ rw fails refl
  ]

  -- What a success leaves in the rows of the name.
  abbrev pub LogsIn :
      Attempt
      → List AdminUser
      → AdminUser
      → Result AuthError (Token × Token) × List AdminUser
      → Type 0
  LogsIn a users u p =
      is_ok p.0 ≡ true → find_first (is_user (l.lower a.name)) p.1 ≡ some (logged_in a.at_time u)

  issued-is_ok :
      (a : Attempt) (u : AdminUser)
      → is_ok (
          if a.refresh_ok
          then create_tokens l a.at_time a.jti (logged_in a.at_time u)
          else raise refresh_failed)
        ≡ (a.refresh_ok && is_some l.jose.private_file)
  issued-is_ok a u = elim (Bool-cases a.refresh_ok) [
    | inl reads ↦ rw reads (create_tokens-is_ok a.at_time a.jti (logged_in a.at_time u))
    | inr fails ↦ rw fails refl
  ]

  accept-LogsIn :
      (a : Attempt) (users : List AdminUser) (u : AdminUser)
      → find_first (is_user (l.lower a.name)) users ≡ some u
      → (is_ok (accept l a u users).0
          ≡ (a.commit_ok && (a.refresh_ok && is_some l.jose.private_file)))
        × LogsIn a users u (accept l a u users)
  unfolding accept
  accept-LogsIn a users u found = elim (Bool-cases a.commit_ok) [
    | inr fails ↦ rw fails (refl, λ h. absurd (cc h))
    | inl commits ↦ rw commits (
      issued-is_ok a u,
      λ h.
          find-store_user-same (l.lower a.name) (logged_in a.at_time u) u users
            (find_first-mem (is_user (l.lower a.name)) u users found).1 found,
    )
  ]

  no_login :
      (a : Attempt) (users : List AdminUser) (u : AdminUser)
      (p : Result AuthError (Token × Token) × List AdminUser)
      → is_ok p.0 ≡ false
      → (is_ok p.0 ≡ false) × LogsIn a users u p
  no_login a users u p h = (h, λ e. absurd (cc (e, h)))

  pub check_user-refused :
      (a : Attempt) (users : List AdminUser) (u : AdminUser)
      → can_login a.at_time u ≡ false
      → is_ok (check_user l a users (some u)).0 ≡ false
  unfolding check_user
  check_user-refused a users u h = elim (Bool-cases u.enabled) [
    | inr off ↦ rw off refl
    | inl on ↦
        let locked : is_locked a.at_time u ≡ true = ground (arith, on, h) in rw (on, locked) refl
  ]

  pub authenticate_succeeds_iff :
      (a : Attempt) (users : List AdminUser) (u : AdminUser)
      → find_first (is_user (l.lower a.name)) users ≡ some u
      → (is_ok (authenticate l a users).0 ≡ (
          can_login a.at_time u
          && (l.hasher.verify a.password u.password_hash
              && (a.commit_ok && (a.refresh_ok && is_some l.jose.private_file)))))
        × LogsIn a users u (authenticate l a users)
  unfolding authenticate
  authenticate_succeeds_iff a users u found = elim (Bool-cases (can_login a.at_time u)) [
    | inr cannot ↦
        rw (found, cannot)
          (no_login a users u (check_user l a users (some u)) (check_user-refused a users u cannot))
    | inl can ↦
        let on : u.enabled ≡ true = ground arith in
        let free : is_locked a.at_time u ≡ false = ground arith in
        elim (Bool-cases (l.hasher.verify a.password u.password_hash)) [
          | inl right ↦
              rw (found, check_user-accept a users u on free right, can, right)
                (accept-LogsIn a users u found)
          | inr wrong ↦
              rw (found, check_user-reject a users u on free wrong, can, wrong)
                (no_login a users u (reject l a u users) (reject-is_ok a users u))
        ]
  ]

  authenticate-wrong :
      (a : Attempt) (users : List AdminUser) (u : AdminUser)
      → find_first (is_user (l.lower a.name)) users ≡ some u
      → u.enabled ≡ true
      → is_locked a.at_time u ≡ false
      → l.hasher.verify a.password u.password_hash ≡ false
      → a.commit_ok ≡ true
      → (authenticate l a users).1 ≡ store_user (increment_login_attempts a.at_time 15 u) users
  unfolding authenticate check_user reject
  authenticate-wrong a users u found on free wrong commits =
      rw (found, on, free, wrong, commits) refl

  locked_after :
      (now : ℕ) (u : AdminUser)
      → 4 ≤ u.login_attempts
      → (increment_login_attempts now 15 u).locked_until ≡ some (now + 900)
  unfolding increment_login_attempts
  locked_after now u h =
      let many : leb 5 (u.login_attempts + 1) ≡ true = ground arith in rw many refl

  -- Once four failures are counted, a further wrong password locks the account for fifteen minutes: whatever
  -- is tried until then, under its name and the others, each attempt at its name is refused as locked. After
  -- a lock has ended, this holds for the very next wrong password.
  pub fifth_failure_locks :
      (a : Attempt) (attempts : List Attempt) (b : Attempt) (users : List AdminUser) (u : AdminUser)
      → find_first (is_user (l.lower a.name)) users ≡ some u
      → u.enabled ≡ true
      → is_locked a.at_time u ≡ false
      → 4 ≤ u.login_attempts
      → l.hasher.verify a.password u.password_hash ≡ false
      → a.commit_ok ≡ true
      → All (IsBefore (a.at_time + 900)) attempts
      → IsBefore (a.at_time + 900) b
      → l.lower b.name ≡ l.lower a.name
      → authenticate l b (run_attempts l (a ∷ attempts) users)
        ≡ (raise account_locked, run_attempts l (a ∷ attempts) users)
  unfolding run_attempts increment_login_attempts
  fifth_failure_locks a attempts b users u found on free many wrong commits hs hb same =
      let u1 = increment_login_attempts a.at_time 15 u in
      let stored = authenticate-wrong a users u found on free wrong commits in
      let there : find_first (is_user (l.lower b.name)) (authenticate l a users).1 ≡ some u1 =
        rw (stored, same)
          (find-store_user-same (l.lower a.name) u1 u users
            (find_first-mem (is_user (l.lower a.name)) u users found).1 found) in
      locked_refused l u1 (a.at_time + 900) attempts b (authenticate l a users).1 on
        (locked_after a.at_time u many) hs hb there
