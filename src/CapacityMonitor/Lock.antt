-- ===== src/CapacityMonitor/Lock.antt =====
-- What Redis documents of the calls on the key of the election.
use art_store.Common.{
  ℕ, ◌+◌, ◌≤◌, ◌≡◌, ◌⊎◌, String, Bool, true, false, Option, none, some, ok, raise, ltb, ◌<◌, refl,
  ap, inl, inr, arith, ltb→lt, lt→ltb, Bool-cases, if◌then◌else◌,
}
use art_store.CapacityMonitor.{Redis}

-- A key with its value and the time at which it expires; it is there before that time only.
abbrev pub Entry : Type 0
Entry = Option (String × ℕ)

abbrev pub holder : Entry → ℕ → Option String
holder none now = none
holder (some (v, expiry)) now = if ltb now expiry then some v else none

abbrev pub extended : Entry → ℕ → ℕ → Entry
extended none now ttl = none
extended (some (v, expiry)) now ttl =
    if ltb now expiry then some (v, now + ttl) else some (v, expiry)

abbrev pub expiry_of : Entry → ℕ
expiry_of none = 0
expiry_of (some (v, expiry)) = expiry

-- `lock` is the entry of the key `key` and `now` the time, as the server has them. A call that raises may
-- have acted. None of the calls waits.
pub record Documented (r : Redis) (key : String) : Type 0 where
  pub now : r.Store → ℕ
  pub lock : r.Store → Entry
  pub set_now : (v : String) (ttl : ℕ) (s : r.Store) → now (r.set_nx key v ttl s).0 ≡ now s
  pub set_granted :
      (v : String) (ttl : ℕ) (s : r.Store)
      → (r.set_nx key v ttl s).1 ≡ ok true
      → (holder (lock s) (now s) ≡ none) × (lock (r.set_nx key v ttl s).0 ≡ some (v, now s + ttl))
  pub set_refused :
      (v : String) (ttl : ℕ) (s : r.Store)
      → (r.set_nx key v ttl s).1 ≡ ok false
      → ((w : String) × (holder (lock s) (now s) ≡ some w))
        × (lock (r.set_nx key v ttl s).0 ≡ lock s)
  pub set_raised :
      (v : String) (ttl : ℕ) (s : r.Store)
      → (r.set_nx key v ttl s).1 ≡ raise tt
      → (lock (r.set_nx key v ttl s).0 ≡ lock s)
        ⊎ ((holder (lock s) (now s) ≡ none)
            × (lock (r.set_nx key v ttl s).0 ≡ some (v, now s + ttl)))
  pub get_answer :
      (s : r.Store) (o : Option String) → r.get key s ≡ ok o → o ≡ holder (lock s) (now s)
  pub expire_now : (ttl : ℕ) (s : r.Store) → now (r.expire key ttl s).0 ≡ now s
  pub expire_acts :
      (ttl : ℕ) (s : r.Store) (b : Bool)
      → (r.expire key ttl s).1 ≡ ok b
      → lock (r.expire key ttl s).0 ≡ extended (lock s) (now s) ttl
  pub expire_raised :
      (ttl : ℕ) (s : r.Store)
      → (r.expire key ttl s).1 ≡ raise tt
      → (lock (r.expire key ttl s).0 ≡ lock s)
        ⊎ (lock (r.expire key ttl s).0 ≡ extended (lock s) (now s) ttl)
  pub delete_now : (s : r.Store) → now (r.delete key s).0 ≡ now s
  pub delete_acts :
      (s : r.Store) (b : Bool) → (r.delete key s).1 ≡ ok b → lock (r.delete key s).0 ≡ none
  pub delete_raised :
      (s : r.Store)
      → (r.delete key s).1 ≡ raise tt
      → (lock (r.delete key s).0 ≡ lock s) ⊎ (lock (r.delete key s).0 ≡ none)

pub holder-lt : (e : Entry) (now : ℕ) (w : String) → holder e now ≡ some w → now < expiry_of e
holder-lt none now w h = absurd (cc h)
holder-lt (some (v, expiry)) now w h = ground arith

-- Nobody but `me` holds the entry.
abbrev pub IsOurs : String → Entry → ℕ → Type 0
IsOurs me e now = (holder e now ≡ none) ⊎ (holder e now ≡ some me)

pub IsOurs-later : (me : String) (e : Entry) (now t : ℕ) → now ≤ t → IsOurs me e now → IsOurs me e t
IsOurs-later me none now t l h = inl refl
IsOurs-later me (some (v, expiry)) now t l h = elim (Bool-cases (ltb t expiry)) [
  | inl lives ↦ rw lives (rw (lt→ltb now expiry (omega (arith, ltb→lt t expiry lives))) at h)
  | inr over ↦ rw over (inl refl)
]

IsOurs-value :
    (me v : String) (expiry other now : ℕ)
    → ltb now expiry ≡ true
    → IsOurs me (some (v, expiry)) now
    → IsOurs me (some (v, other)) now
IsOurs-value me v expiry other now lives (inl h) = absurd (cc (rw lives at h))
IsOurs-value me v expiry other now lives (inr h) = elim (Bool-cases (ltb now other)) [
  | inl there ↦ rw there (inr (rw lives at h))
  | inr gone ↦ rw gone (inl refl)
]

pub IsOurs-extended :
    (me : String) (e : Entry) (now ttl t : ℕ)
    → IsOurs me e now
    → now ≤ t
    → IsOurs me (extended e now ttl) t
IsOurs-extended me none now ttl t h l = inl refl
IsOurs-extended me (some (v, expiry)) now ttl t h l = elim (Bool-cases (ltb now expiry)) [
  | inl lives ↦ rw lives (
      IsOurs-later me (some (v, now + ttl)) now t l
        (IsOurs-value me v expiry (now + ttl) now lives h))
  | inr over ↦ rw over (IsOurs-later me (some (v, expiry)) now t l h)
]

pub IsOurs-own : (me v : String) (expiry now : ℕ) → v ≡ me → IsOurs me (some (v, expiry)) now
IsOurs-own me v expiry now e = elim (Bool-cases (ltb now expiry)) [
  | inl lives ↦ rw lives (inr (ap some e))
  | inr over ↦ rw over (inl refl)
]

pub expiry-le : (e : Entry) (now : ℕ) → holder e now ≡ none → expiry_of e ≤ now
expiry-le none now h = omega arith
expiry-le (some (v, expiry)) now h = ground arith
