-- ===== src/AdminAuth/Locks.antt =====
-- How long an account stays locked.
use art_store.Common.{
  ℕ, ◌<◌, ◌≡◌, refl, ◌∙◌, inl, inr, String, true, false, List, [], ◌∷◌, Option, none, some,
  find_first, str_eq, str_eq_iff, arith, All, Bool-cases, raise, find_first-mem,
}
use art_store.AdminAuth.{
  AdminUser, account_locked, is_locked, increment_login_attempts, is_user, store_user, Libraries,
  Attempt, reject, accept, check_user, authenticate, run_attempts,
}

-- The row of a name after a row was stored: that row if it has the name, and else what it was.
pub find-store_user-same :
    (n : String) (u v : AdminUser) (users : List AdminUser)
    → str_eq u.username n ≡ true
    → find_first (is_user n) users ≡ some v
    → find_first (is_user n) (store_user u users) ≡ some u
find-store_user-same n u v [] same h = absurd (cc h)
find-store_user-same n u v (x ∷ xs) same h =
    let e : u.username ≡ n = (str_eq_iff u.username n).0 same in
    elim (Bool-cases (is_user n x)) [
      | inl here ↦
          let here2 : is_user u.username x ≡ true = rw e here in rw (here2, same, find_first) refl
      | inr other ↦
          let other2 : is_user u.username x ≡ false = rw e other in
          rw (other2, other, find_first)
            (find-store_user-same n u v xs same (rw (other, find_first) at h))
    ]

find-store_user-other :
    (n : String) (u : AdminUser) (users : List AdminUser)
    → str_eq u.username n ≡ false
    → find_first (is_user n) (store_user u users) ≡ find_first (is_user n) users
find-store_user-other n u [] other = refl
find-store_user-other n u (x ∷ xs) other = elim (Bool-cases (is_user u.username x)) [
  | inl same ↦
      let e : x.username ≡ u.username = (str_eq_iff x.username u.username).0 same in
      let out : is_user n x ≡ false = rw e other in
      rw (same, other, out, find_first) (find-store_user-other n u xs other)
  | inr away ↦ elim (Bool-cases (is_user n x)) [
    | inl here ↦ rw (away, here, find_first) refl
    | inr there ↦ rw (away, there, find_first) (find-store_user-other n u xs other)
  ]
]

-- The attempt comes before the time.
abbrev pub IsBefore : ℕ → Attempt → Type 0
IsBefore until a = a.at_time < until

module _ {Token : Type 0} (l : Libraries Token) where
  check_user-other :
      (n : String) (a : Attempt) (users : List AdminUser) (o : Option AdminUser)
      → ((w : AdminUser) → o ≡ some w → str_eq w.username n ≡ false)
      → find_first (is_user n) (check_user l a users o).1 ≡ find_first (is_user n) users
  unfolding check_user reject accept increment_login_attempts
  check_user-other n a users none h = refl
  check_user-other n a users (some w) h = elim (Bool-cases w.enabled) [
    | inr off ↦ rw off refl
    | inl on ↦ elim (Bool-cases (is_locked a.at_time w)) [
      | inl locked ↦ rw (on, locked) refl
      | inr free ↦ elim (Bool-cases a.commit_ok) [
        | inr fails ↦ elim (Bool-cases (l.hasher.verify a.password w.password_hash)) [
          | inl right ↦ rw (on, free, right, fails) refl
          | inr wrong ↦ rw (on, free, wrong, fails) refl
        ]
        | inl commits ↦ elim (Bool-cases (l.hasher.verify a.password w.password_hash)) [
          | inl right ↦ rw (on, free, right, commits) (find-store_user-other n _ users (h w refl))
          | inr wrong ↦ rw (on, free, wrong, commits) (find-store_user-other n _ users (h w refl))
        ]
      ]
    ]
  ]

  check_user-locked :
      (a : Attempt) (users : List AdminUser) (u : AdminUser)
      → u.enabled ≡ true
      → is_locked a.at_time u ≡ true
      → check_user l a users (some u) ≡ (raise account_locked, users)
  unfolding check_user
  check_user-locked a users u on locked = rw (on, locked) refl

  before-lt :
      (t until : ℕ) (u : AdminUser) → u.locked_until ≡ some until → t < until → is_locked t u ≡ true
  before-lt t until u e h = rw e (ground arith)

  authenticate-keeps :
      (n : String) (u : AdminUser) (until : ℕ) (a : Attempt) (users : List AdminUser)
      → u.enabled ≡ true
      → u.locked_until ≡ some until
      → IsBefore until a
      → find_first (is_user n) users ≡ some u
      → find_first (is_user n) (authenticate l a users).1 ≡ some u
  unfolding authenticate
  authenticate-keeps n u until a users on e t found =
      elim (Bool-cases (str_eq (l.lower a.name) n)) [
        | inl same ↦
            let named : l.lower a.name ≡ n = (str_eq_iff (l.lower a.name) n).0 same in
            rw (named, found, check_user-locked a users u on (before-lt a.at_time until u e t))
              found
        | inr other ↦
            check_user-other n a users (find_first (is_user (l.lower a.name)) users) (λ w h.
              let w_named =
                (str_eq_iff w.username (l.lower a.name)).0
                  (find_first-mem (is_user (l.lower a.name)) w users h).1 in
              rw w_named other)
            ∙ found
      ]

  run_attempts-keeps :
      (n : String) (u : AdminUser) (until : ℕ) (attempts : List Attempt) (users : List AdminUser)
      → u.enabled ≡ true
      → u.locked_until ≡ some until
      → All (IsBefore until) attempts
      → find_first (is_user n) users ≡ some u
      → find_first (is_user n) (run_attempts l attempts users) ≡ some u
  unfolding run_attempts
  run_attempts-keeps n u until [] users on e hs found = found
  run_attempts-keeps n u until (a ∷ rest) users on e hs found =
      run_attempts-keeps n u until rest (authenticate l a users).1 on e hs.1
        (authenticate-keeps n u until a users on e hs.0 found)

  -- While an enabled account is locked, every attempt at its name, with the right password or a wrong one
  -- and whatever was tried before it under this name and the others, is refused as locked and changes no
  -- row.
  pub locked_refused :
      (u : AdminUser) (until : ℕ) (attempts : List Attempt) (a : Attempt) (users : List AdminUser)
      → u.enabled ≡ true
      → u.locked_until ≡ some until
      → All (IsBefore until) attempts
      → IsBefore until a
      → find_first (is_user (l.lower a.name)) users ≡ some u
      → authenticate l a (run_attempts l attempts users)
        ≡ (raise account_locked, run_attempts l attempts users)
  unfolding authenticate
  locked_refused u until attempts a users on e hs t found =
      rw
        (
          run_attempts-keeps (l.lower a.name) u until attempts users on e hs found,
          check_user-locked a (run_attempts l attempts users) u on
              (before-lt a.at_time until u e t),
        )
        refl
