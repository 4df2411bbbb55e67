-- ===== src/AdminAuth/Change.antt =====
-- What a change of the password checks and keeps.
use art_store.Common.{
  if◌then◌else◌, ltb, leb, length, arith, ℕ, ◌≡◌, ◌≢◌, refl, sym, ap, ◌∙◌, inl, inr, String, Bool,
  true, false, not, ◌&&◌, List, [], ◌∷◌, Option, none, some, is_some, take, contains, str_eq,
  str_eq_iff, All, Bool-cases, Option-cases, is_ok,
}
use art_store.AdminAuth.{
  AdminUser, Hasher, history_of, committed_history, add_password_to_history, is_password_in_history,
  admin_policy, Libraries, set_password, unless_violated, change_password,
}
use art_store.PasswordPolicy.{Text, PolicyError, validate}

-- The history of the row after a change: the old hash alone where there was none, the same history as
-- before where it has fewer than five hashes, and the old hash before the four latest else.
abbrev pub changed_history : String → Option (List String) → List String
changed_history old none = old ∷ []
changed_history old (some history) =
    if ltb (length history) 5 then history else old ∷ take 4 history

changed_history-committed :
    (old : String) (history : Option (List String))
    → committed_history 5 old history ≡ changed_history old history
changed_history-committed old none = refl
changed_history-committed old (some history) = elim (Bool-cases (ltb (length history) 5)) [
  | inl few ↦
      let fits : leb (length (old ∷ history)) 5 ≡ true = ground (arith, few) in rw (few, fits) refl
  | inr many ↦
      let full : leb (length (old ∷ history)) 5 ≡ false = ground (arith, many) in
      rw (many, full) refl
]

-- The row after a change.
abbrev pub changed : ℕ → String → AdminUser → AdminUser
changed now new_hash u = record u {
  password_hash = new_hash;
  password_changed_at = some now;
  password_history = some (changed_history u.password_hash u.password_history);
}

module _ {Token : Type 0} (l : Libraries Token) where
  set_password-ok :
      (now : ℕ) (commit_ok : Bool) (new_hash : String) (u : AdminUser)
      → is_ok (set_password l now commit_ok new_hash u).0 ≡ true
      → (set_password l now commit_ok new_hash u).1 ≡ changed now new_hash u
  unfolding set_password add_password_to_history
  set_password-ok now commit_ok new_hash u h =
      elim (Bool-cases (is_password_in_history new_hash u)) [
        | inl used ↦ absurd (cc (rw used at h))
        | inr fresh ↦ elim (Bool-cases commit_ok) [
          | inl commits ↦
              rw (fresh, commits)
                (ap (λ history. record (changed now new_hash u) { password_history = some history })
                  (changed_history-committed u.password_hash u.password_history))
          | inr fails ↦ absurd (cc (rw (fresh, fails) at h))
        ]
      ]

  unless_violated-ok :
      (now : ℕ) (commit_ok : Bool) (new_hash : String) (o : Option PolicyError) (u : AdminUser)
      → is_ok (unless_violated l now commit_ok new_hash o u).0 ≡ true
      → (o ≡ none) × ((unless_violated l now commit_ok new_hash o u).1 ≡ changed now new_hash u)
  unfolding unless_violated
  unless_violated-ok now commit_ok new_hash (some e) u h = absurd (cc h)
  unless_violated-ok now commit_ok new_hash none u h =
      (refl, set_password-ok now commit_ok new_hash u h)

  set_password-failed :
      (now : ℕ) (commit_ok : Bool) (new_hash : String) (u : AdminUser)
      → is_ok (set_password l now commit_ok new_hash u).0 ≡ false
      → (set_password l now commit_ok new_hash u).1 ≡ u
  unfolding set_password
  set_password-failed now commit_ok new_hash u h =
      elim (Bool-cases (is_password_in_history new_hash u)) [
        | inl used ↦ rw used refl
        | inr fresh ↦ elim (Bool-cases commit_ok) [
          | inl commits ↦ absurd (cc (rw (fresh, commits) at h))
          | inr fails ↦ rw (fresh, fails) refl
        ]
      ]

  unless_violated-failed :
      (now : ℕ) (commit_ok : Bool) (new_hash : String) (o : Option PolicyError) (u : AdminUser)
      → is_ok (unless_violated l now commit_ok new_hash o u).0 ≡ false
      → (unless_violated l now commit_ok new_hash o u).1 ≡ u
  unfolding unless_violated
  unless_violated-failed now commit_ok new_hash (some e) u h = refl
  unless_violated-failed now commit_ok new_hash none u h =
      set_password-failed now commit_ok new_hash u h

  module _ (now : ℕ) (commit_ok : Bool) (salt : String) (current new : Text) (u : AdminUser) where
    -- A change succeeds only with the current password and a new one that the policy admits. The row then
    -- has the new hash, and nothing of its login changes. The old hash comes into the history of the row only
    -- if there was none or it has five hashes: a shorter history is not written again. A change that fails leaves the row as it was.
    pub change_password-changed :
        (is_ok (change_password l now commit_ok salt current new u).0 ≡ true
          → (l.hasher.verify current u.password_hash ≡ true)
            × ((validate l.is_digit admin_policy new ≡ none)
                × ((change_password l now commit_ok salt current new u).1
                    ≡ changed now (l.hasher.hash salt new) u)))
        × (is_ok (change_password l now commit_ok salt current new u).0 ≡ false
            → (change_password l now commit_ok salt current new u).1 ≡ u)
    unfolding change_password
    change_password-changed = elim (Bool-cases (l.hasher.verify current u.password_hash)) [
      | inr wrong ↦ rw wrong ((λ h. absurd (cc h)), λ h. refl)
      | inl right ↦ rw right (
        (λ h. (
          refl,
          unless_violated-ok now commit_ok (l.hasher.hash salt new)
              (validate l.is_digit admin_policy new) u h,
        )),
        λ h.
            unless_violated-failed now commit_ok (l.hasher.hash salt new)
              (validate l.is_digit admin_policy new) u h,
      )
    ]

-- bcrypt keeps the salt in the hash.
pub record IsSalted (h : Hasher) (salt_of : String → String) : Type 0 where
  pub salt_of-hash : (salt : String) (password : Text) → salt_of (h.hash salt password) ≡ salt

fresh-contains :
    (h : Hasher) (salt_of : String → String) (salt : String) (new : Text) (history : List String)
    → IsSalted h salt_of
    → All (λ old. salt_of old ≢ salt) history
    → contains (h.hash salt new) history ≡ false
fresh-contains h salt_of salt new [] doc hs = refl
fresh-contains h salt_of salt new (old ∷ rest) doc hs =
    elim (Bool-cases (str_eq (h.hash salt new) old)) [
      | inl same ↦
          let e : h.hash salt new ≡ old = (str_eq_iff (h.hash salt new) old).0 same in
          absurd (hs.0 (ap salt_of (sym e) ∙ doc.salt_of-hash salt new))
      | inr other ↦ rw other (fresh-contains h salt_of salt new rest doc hs.1)
    ]

module _ {Token : Type 0} (l : Libraries Token) where
  -- The history refuses no password. Where the salt of the new hash is in none of the hashes of the history,
  -- which is so of a salt drawn anew, a change succeeds exactly if the current password fits, the policy
  -- admits the new one and the commit works, also if the new one is the current one or stands in the
  -- history.
  pub change_password-history :
      (salt_of : String → String)
      → IsSalted l.hasher salt_of
      → (now : ℕ) (commit_ok : Bool) (salt : String) (current new : Text) (u : AdminUser)
      → All (λ old. salt_of old ≢ salt) (history_of u.password_history)
      → is_ok (change_password l now commit_ok salt current new u).0 ≡ (
          l.hasher.verify current u.password_hash
          && (not (is_some (validate l.is_digit admin_policy new)) && commit_ok))
  unfolding change_password unless_violated set_password
  change_password-history salt_of doc now commit_ok salt current new u fresh =
      let unused =
        fresh-contains l.hasher salt_of salt new (history_of u.password_history) doc fresh in
      elim (Bool-cases (l.hasher.verify current u.password_hash)) [
        | inr wrong ↦ rw wrong refl
        | inl right ↦ elim (Option-cases (validate l.is_digit admin_policy new)) [
          | inr bad ↦ rw (right, bad.1) refl
          | inl good ↦ elim (Bool-cases commit_ok) [
            | inl commits ↦ rw (right, good, unused, commits) refl
            | inr fails ↦ rw (right, good, unused, fails) refl
          ]
        ]
      ]
