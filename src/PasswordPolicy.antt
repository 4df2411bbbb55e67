-- ===== src/PasswordPolicy.antt =====
-- admin-module/app/core/password_policy.py: the rules for passwords. A password is the list of its code
-- points; the digits of `re` and the hashes of passlib are parameters.
pub mod Generation
pub mod History
use art_store.Common.{
  ℕ, ◌+◌, ◌*◌, ◌-◌, ◌%◌, min, zero, suc, String, Bool, true, false, not, ◌&&◌, ◌||◌, List, [], ◌∷◌,
  ◌++◌, Option, none, some, length, drop, exists_in, ltb, leb, ◌==◌, if◌then◌else◌,
}

abbrev pub Text : Type 0
Text = List ℕ

pub record Policy : Type 0 where
  pub min_length : ℕ
  pub require_uppercase : Bool
  pub require_lowercase : Bool
  pub require_digits : Bool
  pub require_special : Bool
  pub max_age_days : ℕ
  pub history_size : ℕ

-- The defaults of `__init__`.
abbrev pub default_policy : Policy
default_policy = record {
  min_length = 12;
  require_uppercase = true;
  require_lowercase = true;
  require_digits = true;
  require_special = true;
  max_age_days = 90;
  history_size = 5;
}

-- `!@#$%^&*()_+-=[]{}|;:,.<>?`
abbrev pub special_chars : Text
special_chars =
    33 ∷ 64 ∷ 35 ∷ 36 ∷ 37 ∷ 94 ∷ 38 ∷ 42 ∷ 40 ∷ 41 ∷ 95 ∷ 43 ∷ 45 ∷ 61 ∷ 91 ∷ 93 ∷ 123 ∷ 125 ∷ 124
    ∷ 59 ∷ 58 ∷ 44 ∷ 46 ∷ 60 ∷ 62 ∷ 63 ∷ []

abbrev pub codes_from : ℕ → ℕ → Text
codes_from first zero = []
codes_from first (suc n) = first ∷ codes_from (suc first) n

abbrev pub ascii_lowercase : Text
ascii_lowercase = codes_from 97 26

abbrev pub ascii_uppercase : Text
ascii_uppercase = codes_from 65 26

abbrev pub ascii_digits : Text
ascii_digits = codes_from 48 10

abbrev pub has_code : Text → ℕ → Bool
has_code [] c = false
has_code (d ∷ ds) c = c == d || has_code ds c

abbrev pub is_upper : ℕ → Bool
is_upper c = leb 65 c && leb c 90

abbrev pub is_lower : ℕ → Bool
is_lower c = leb 97 c && leb c 122

abbrev pub is_special : ℕ → Bool
is_special c = has_code special_chars c

pub data PolicyError : Type 0 where
  too_short : ℕ → PolicyError
  no_uppercase no_lowercase no_digit no_special : PolicyError

abbrev pub counted : Bool → ℕ
counted true = 1
counted false = 0

module _ (is_digit : ℕ → Bool) where
  -- `PasswordValidator.validate`: the error that it reports, if any.
  unfoldable pub validate : Policy → Text → Option PolicyError
  validate p password =
      if ltb (length password) p.min_length
      then some (too_short p.min_length)
      else if p.require_uppercase && not (exists_in is_upper password)
      then some no_uppercase
      else if p.require_lowercase && not (exists_in is_lower password)
      then some no_lowercase
      else if p.require_digits && not (exists_in is_digit password)
      then some no_digit
      else if p.require_special && not (exists_in is_special password)
      then some no_special
      else none

  -- `get_strength_score`
  unfoldable pub get_strength_score : Text → ℕ
  get_strength_score password =
      let char_variety =
        counted (exists_in is_lower password)
        + counted (exists_in is_upper password)
        + counted (exists_in is_digit password)
        + counted (exists_in is_special password) in
      min
        (counted (leb 12 (length password))
          + counted (leb 16 (length password))
          + counted (leb 3 char_variety)
          + counted (char_variety == 4))
        4

abbrev pub nth_or : ℕ → Text → ℕ → ℕ
nth_or d [] n = d
nth_or d (c ∷ cs) zero = c
nth_or d (c ∷ cs) (suc n) = nth_or d cs n

-- `secrets.choice` with the random number `k`; of an empty sequence it raises.
abbrev pub choice : Text → ℕ → Option ℕ
choice [] k = none
choice (c ∷ cs) k = some (nth_or c (c ∷ cs) (k % length (c ∷ cs)))

abbrev pub chars_if : Bool → Text → Text
chars_if true chars = chars
chars_if false chars = []

-- The character required of a class; the classes are not empty, so that `choice` gives one.
abbrev pub required_if : Bool → Text → ℕ → Text
required_if false chars k = []
required_if true [] k = []
required_if true (c ∷ cs) k = nth_or c (c ∷ cs) (k % length (c ∷ cs)) ∷ []

-- `all_chars` and `required_chars` of `generate`; `draws` are the random numbers.
abbrev pub all_chars : Policy → Text
all_chars p =
    chars_if p.require_lowercase ascii_lowercase
    ++ (chars_if p.require_uppercase ascii_uppercase
        ++ (chars_if p.require_digits ascii_digits ++ chars_if p.require_special special_chars))

abbrev pub required_chars : (ℕ → ℕ) → Policy → Text
required_chars draws p =
    required_if p.require_lowercase ascii_lowercase (draws 0)
    ++ (required_if p.require_uppercase ascii_uppercase (draws 1)
        ++ (required_if p.require_digits ascii_digits (draws 2)
            ++ required_if p.require_special special_chars (draws 3)))

-- The comprehension over the remaining length; its first `choice` of no characters raises.
unfoldable pub fill : (ℕ → ℕ) → Text → ℕ → Option Text
fill draws chars zero = some []
fill draws chars (suc n) =
    let rest = fill draws chars n in
    elim (choice chars (draws (n + 4))) [
      | none ↦ none
      | some c ↦ elim rest [ none ↦ none | some cs ↦ some (c ∷ cs) ]
    ]

abbrev pub wanted_length : Policy → Option ℕ → ℕ
wanted_length p none = p.min_length + 4
wanted_length p (some n) = if ltb n p.min_length then p.min_length else n

-- `PasswordGenerator.generate`; `none` is the `IndexError` of `choice`, and `shuffle` that of
-- `SystemRandom`.
unfoldable pub generate : (ℕ → ℕ) → (Text → Text) → Policy → Option ℕ → Option Text
unfolding fill
generate draws shuffle p wanted =
    let required = required_chars draws p in
    elim (fill draws (all_chars p) (wanted_length p wanted - length required)) [
      | none ↦ none
      | some cs ↦ some (shuffle (required ++ cs))
    ]

-- `history[-size:]`: a size of 0 makes it the whole list.
abbrev pub last_of {ℓ} : {A : Type ℓ} → ℕ → List A → List A
last_of zero xs = xs
last_of (suc n) xs = drop (length xs - suc n) xs

-- `PasswordHistory.check_reuse`, with passlib's `verify` of a password.
unfoldable pub check_reuse : (String → Bool) → Policy → List String → Bool
check_reuse verify p [] = false
check_reuse verify p (h ∷ hs) = exists_in verify (last_of p.history_size (h ∷ hs))

-- `PasswordHistory.add_to_history`
unfoldable pub add_to_history : Policy → String → List String → List String
add_to_history p password_hash current_history =
    let updated = current_history ++ password_hash ∷ [] in
    if ltb p.history_size (length updated) then last_of p.history_size updated else updated
