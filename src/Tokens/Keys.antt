-- ===== src/Tokens/Keys.antt =====
-- The queries and the cleanup of the table of JWT keys.
use art_store.Common.{
  IsSorted, sort_where-IsSorted, mem-sort_where, mem-in_sort_where, leb-false, leb→le,
  mem-in_keep_if, ℕ, ◌+◌, ◌≤◌, ◌≡◌, ◌↔◌, refl, inl, inr, true, false, List, [], ◌∷◌, Option, none,
  some, keep_if, length, arith, All, Memᴰ, mem-keep_if, All-mem, mem-All, Bool-cases,
}
use art_store.Tokens.{
  expires_last, JwtKey, sort_keys, active, get_active_keys, first_key, get_latest_active_key,
  is_expired, cleanup_expired_keys,
}

-- The first of the two expires no earlier.
abbrev pub NotBefore : JwtKey → JwtKey → Type 0
NotBefore k x = x.expires_at ≤ k.expires_at

sort_keys-IsSorted : (ks : List JwtKey) → IsSorted NotBefore (sort_keys ks)
sort_keys-IsSorted ks =
    sort_where-IsSorted NotBefore expires_last (λ k x h. leb→le x.expires_at k.expires_at h)
      (λ k x h. omega (arith, leb-false x.expires_at k.expires_at h))
      (λ k x y h g. omega (arith, h, g)) ks

pub get_active_keys-mem :
    (k : JwtKey) (keys : List JwtKey)
    → Memᴰ k (get_active_keys keys)
    → Memᴰ k keys × (active k ≡ true)
unfolding get_active_keys
get_active_keys-mem k keys m =
    mem-keep_if active k keys (mem-sort_where expires_last k (keep_if active keys) m)

in_active :
    (k : JwtKey) (keys : List JwtKey)
    → Memᴰ k keys
    → active k ≡ true
    → Memᴰ k (get_active_keys keys)
unfolding get_active_keys
in_active k keys m on =
    mem-in_sort_where expires_last k (keep_if active keys) (mem-in_keep_if active k keys m on)

-- The key signs now, and no active key expires later.
pub record IsLatest (keys : List JwtKey) (k : JwtKey) : Type 0 where
  pub stored : Memᴰ k keys
  pub signs : active k ≡ true
  pub last : All (λ x. active x ≡ true → x.expires_at ≤ k.expires_at) keys

abbrev pub LatestOf : List JwtKey → Option JwtKey → Type 0
LatestOf keys none = All (λ x. active x ≡ false) keys
LatestOf keys (some k) = IsLatest keys k

first-LatestOf :
    (keys sorted : List JwtKey)
    → IsSorted NotBefore sorted
    → ((x : JwtKey) → Memᴰ x sorted → Memᴰ x keys × (active x ≡ true))
    → ((x : JwtKey) → Memᴰ x keys → active x ≡ true → Memᴰ x sorted)
    → LatestOf keys (first_key sorted)
first-LatestOf keys [] h from to =
    mem-All (λ x. active x ≡ false) keys
      (λ x m. elim (Bool-cases (active x)) [ inl on ↦ elim (to x m on) [ ] | inr off ↦ off ])
first-LatestOf keys (k ∷ ks) h from to = record {
  stored = (from k (Memᴰ.head refl)).0;
  signs = (from k (Memᴰ.head refl)).1;
  last =
      mem-All (λ x. active x ≡ true → x.expires_at ≤ k.expires_at) keys
        (λ x m on. All-mem (NotBefore k) x (k ∷ ks) (omega arith, h.0) (to x m on));
}

-- The key that signs is an active one of the table such that no active key expires later, and there is
-- none only if no key is active. Every key that checks a token is an active one of the table.
pub get_latest_active_key-LatestOf :
    (keys : List JwtKey)
    → LatestOf keys (get_latest_active_key keys)
      × ((k : JwtKey) → Memᴰ k (get_active_keys keys) ↔ (Memᴰ k keys × (active k ≡ true)))
unfolding get_latest_active_key get_active_keys
get_latest_active_key-LatestOf keys = (
  first-LatestOf keys (sort_keys (keep_if active keys)) (sort_keys-IsSorted (keep_if active keys))
      (λ x m. get_active_keys-mem x keys m) (λ x m on. in_active x keys m on),
  (λ k. ((λ m. get_active_keys-mem k keys m), (λ m. in_active k keys m.0 m.1))),
)

-- What the cleanup leaves of a key.
abbrev pub IsCleaned : ℕ → JwtKey → Type 0
IsCleaned now k = active k ≡ true → now ≤ k.expires_at

cleaned : (now : ℕ) (keys : List JwtKey) → All (IsCleaned now) (cleanup_expired_keys now keys).0
unfolding cleanup_expired_keys
cleaned now [] = tt
cleaned now (k ∷ ks) = elim (Bool-cases (is_expired now k)) [
  | inl old ↦ rw old ((λ on. absurd (cc on)), cleaned now ks)
  | inr young ↦ rw young ((λ on. ground (arith, young, on)), cleaned now ks)
]

counted :
    (now : ℕ) (keys : List JwtKey)
    → length (keep_if active (cleanup_expired_keys now keys).0) + (cleanup_expired_keys now keys).1
      ≡ length (keep_if active keys)
unfolding cleanup_expired_keys
counted now [] = refl
counted now (k ∷ ks) = elim (Bool-cases (is_expired now k)) [
  | inl old ↦
      let on : k.is_active ≡ true = ground arith in
      rw (old, on, keep_if) (omega (arith, counted now ks))
  | inr young ↦ elim (Bool-cases k.is_active) [
    | inl on ↦ rw (young, on, keep_if) (omega (arith, counted now ks))
    | inr off ↦ rw (young, off, keep_if) (counted now ks)
  ]
]

-- The cleanup leaves no active key that has expired, and reports how many active keys it deactivates.
pub cleanup_expired_keys-IsCleaned :
    (now : ℕ) (keys : List JwtKey)
    → All (IsCleaned now) (cleanup_expired_keys now keys).0
      × (length (keep_if active (cleanup_expired_keys now keys).0)
            + (cleanup_expired_keys now keys).1
          ≡ length (keep_if active keys))
cleanup_expired_keys-IsCleaned now keys = (cleaned now keys, counted now keys)
