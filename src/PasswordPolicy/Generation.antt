-- ===== src/PasswordPolicy/Generation.antt =====
-- A generated password satisfies its policy.
use art_store.Common.{
  ℕ, zero, suc, ◌+◌, ◌-◌, ◌≤◌, ◌≡◌, refl, ap, Bool, true, false, not, ◌&&◌, ◌||◌, [], ◌∷◌, ◌++◌,
  Option, some, none, length, length-append, exists_in, ltb, leb, arith, min, ◌%◌,
}
use art_store.PasswordPolicy.{
  counted, default_policy, Text, Policy, validate, generate, fill, required_if, required_chars,
  all_chars, chars_if, nth_or, wanted_length, ascii_lowercase, ascii_uppercase, ascii_digits,
  special_chars, is_upper, is_lower, is_special, get_strength_score,
}

-- Every character passes the test.
abbrev pub all_of : (ℕ → Bool) → Text → Bool
all_of p [] = true
all_of p (c ∷ cs) = p c && all_of p cs

nth_or-all_of :
    (p : ℕ → Bool) (d : ℕ) (cs : Text) (n : ℕ)
    → p d ≡ true
    → all_of p cs ≡ true
    → p (nth_or d cs n) ≡ true
nth_or-all_of p d [] n h k = h
nth_or-all_of p d (c ∷ cs) zero h k = ground arith
nth_or-all_of p d (c ∷ cs) (suc n) h k = nth_or-all_of p d cs n h (ground arith)

-- The character required of a class passes the test of the class.
required_if-all_of :
    (p : ℕ → Bool) (flag : Bool) (c : ℕ) (cs : Text) (k : ℕ)
    → all_of p (c ∷ cs) ≡ true
    → flag ≡ true
    → exists_in p (required_if flag (c ∷ cs) k) ≡ true
required_if-all_of p flag c cs k h on =
    rw (on, nth_or-all_of p c (c ∷ cs) (k % length (c ∷ cs)) (ground arith) h) refl

exists_in-left :
    (p : ℕ → Bool) (xs ys : Text) → exists_in p xs ≡ true → exists_in p (xs ++ ys) ≡ true
exists_in-left p [] ys h = absurd (cc h)
exists_in-left p (x ∷ xs) ys h = ground (arith, exists_in-left p xs ys)

exists_in-right :
    (p : ℕ → Bool) (xs ys : Text) → exists_in p ys ≡ true → exists_in p (xs ++ ys) ≡ true
exists_in-right p [] ys h = h
exists_in-right p (x ∷ xs) ys h = ground (arith, exists_in-right p xs ys h)

fill-returns :
    (draws : ℕ → ℕ) (c : ℕ) (cs : Text) (n : ℕ)
    → (filled : Text) × (fill draws (c ∷ cs) n ≡ some filled) × (length filled ≡ n)
unfolding fill
fill-returns draws c cs zero = ([], refl, refl)
fill-returns draws c cs (suc n) =
    let (filled, e, size) = fill-returns draws c cs n in
    rw (e, fill) (nth_or c (c ∷ cs) (draws (n + 4) % length (c ∷ cs)) ∷ filled, refl, ap suc size)

-- What is documented of the shuffle: it changes the order only.
pub record Shuffles (shuffle : Text → Text) : Type 0 where
  pub length-shuffle : (cs : Text) → length (shuffle cs) ≡ length cs
  pub exists_in-shuffle : (p : ℕ → Bool) (cs : Text) → exists_in p (shuffle cs) ≡ exists_in p cs

met : (flag present : Bool) → (flag ≡ true → present ≡ true) → (flag && not present) ≡ false
met true present h = rw (h refl) refl
met false present h = refl

validate-passes :
    (is_digit : ℕ → Bool) (p : Policy) (password : Text)
    → p.min_length ≤ length password
    → (p.require_uppercase ≡ true → exists_in is_upper password ≡ true)
    → (p.require_lowercase ≡ true → exists_in is_lower password ≡ true)
    → (p.require_digits ≡ true → exists_in is_digit password ≡ true)
    → (p.require_special ≡ true → exists_in is_special password ≡ true)
    → validate is_digit p password ≡ none
unfolding validate
validate-passes is_digit p password long up low dig spec =
    let enough : ltb (length password) p.min_length ≡ false = ground arith in
    rw
      (
        enough,
        met p.require_uppercase (exists_in is_upper password) up,
        met p.require_lowercase (exists_in is_lower password) low,
        met p.require_digits (exists_in is_digit password) dig,
        met p.require_special (exists_in is_special password) spec,
      )
      refl

-- The policy requires some class of characters.
abbrev pub requires_some : Bool → Bool → Bool → Bool → Bool
requires_some l u d s = l || (u || (d || s))

chars-cons :
    (l u d s : Bool)
    → requires_some l u d s ≡ true
    → (c : ℕ) × (cs : Text) × (chars_if l ascii_lowercase
          ++ (chars_if u ascii_uppercase ++ (chars_if d ascii_digits ++ chars_if s special_chars))
        ≡ c ∷ cs)
chars-cons true u d s h = (_, _, refl)
chars-cons false true d s h = (_, _, refl)
chars-cons false false true s h = (_, _, refl)
chars-cons false false false true h = (_, _, refl)
chars-cons false false false false h = absurd (cc h)

wanted_length-le : (p : Policy) (wanted : Option ℕ) → p.min_length ≤ wanted_length p wanted
wanted_length-le p none = omega arith
wanted_length-le p (some n) = ground arith

module _ (is_digit : ℕ → Bool) (digits : all_of is_digit ascii_digits ≡ true) (draws : ℕ → ℕ)
    (shuffle : Text → Text) (shuffles : Shuffles shuffle) (p : Policy) where
  required-validate :
      (cs : Text)
      → p.min_length ≤ length (required_chars draws p) + length cs
      → validate is_digit p (shuffle (required_chars draws p ++ cs)) ≡ none
  required-validate cs long =
      let lower = required_if p.require_lowercase ascii_lowercase (draws 0) in
      let upper = required_if p.require_uppercase ascii_uppercase (draws 1) in
      let digit = required_if p.require_digits ascii_digits (draws 2) in
      let special = required_if p.require_special special_chars (draws 3) in
      let all = required_chars draws p ++ cs in
      validate-passes is_digit p (shuffle all)
        (rw (shuffles.length-shuffle all, length-append (required_chars draws p) cs) long)
        (λ on. rw (shuffles.exists_in-shuffle is_upper all) (
          exists_in-left is_upper (required_chars draws p) cs (
            exists_in-right is_upper lower (upper ++ (digit ++ special)) (
              exists_in-left is_upper upper (digit ++ special)
                (required_if-all_of is_upper p.require_uppercase _ _ (draws 1) refl on)))))
        (λ on. rw (shuffles.exists_in-shuffle is_lower all) (
          exists_in-left is_lower (required_chars draws p) cs (
            exists_in-left is_lower lower (upper ++ (digit ++ special))
              (required_if-all_of is_lower p.require_lowercase _ _ (draws 0) refl on))))
        (λ on. rw (shuffles.exists_in-shuffle is_digit all) (
          exists_in-left is_digit (required_chars draws p) cs (
            exists_in-right is_digit lower (upper ++ (digit ++ special)) (
              exists_in-right is_digit upper (digit ++ special) (
                exists_in-left is_digit digit special
                  (required_if-all_of is_digit p.require_digits _ _ (draws 2) digits on))))))
        (λ on. rw (shuffles.exists_in-shuffle is_special all) (
          exists_in-left is_special (required_chars draws p) cs (
            exists_in-right is_special lower (upper ++ (digit ++ special)) (
              exists_in-right is_special upper (digit ++ special) (
                exists_in-right is_special digit special
                  (required_if-all_of is_special p.require_special _ _ (draws 3) refl on))))))

  -- A policy that requires some class of characters gets a password, whatever the random numbers, and
  -- the password passes the policy's validation; the shuffle changes the order only, and the digits 0
  -- to 9 count as digits.
  pub generate-validate :
      (wanted : Option ℕ)
      → requires_some p.require_lowercase p.require_uppercase p.require_digits p.require_special
        ≡ true
      → (password : Text) × (generate draws shuffle p wanted ≡ some password)
        × (validate is_digit p password ≡ none)
  unfolding generate
  generate-validate wanted needed =
      let (c, cs, chars) =
        chars-cons p.require_lowercase p.require_uppercase p.require_digits p.require_special
          needed in
      let n = wanted_length p wanted - length (required_chars draws p) in
      let (filled, e, size) = fill-returns draws c cs n in
      let enough = wanted_length-le p wanted in
      let all_filled : fill draws (all_chars p) n ≡ some filled = rw chars e in
      (
        shuffle (required_chars draws p ++ filled),
        rw (all_filled, generate) refl,
        required-validate filled (omega arith),
      )

at_least_three : (longer : Bool) → 3 ≤ min (1 + counted longer + 1 + 1) 4
at_least_three true = omega arith
at_least_three false = omega arith

passed :
    (is_digit : ℕ → Bool) (password : Text)
    → validate is_digit default_policy password ≡ none
    → (12 ≤ length password)
      × (exists_in is_upper password ≡ true)
      × (exists_in is_lower password ≡ true)
      × (exists_in is_digit password ≡ true)
      × (exists_in is_special password ≡ true)
unfolding validate
passed is_digit password h = ground arith

-- A password that passes the validation of the default policy has a score of 3 or 4, and no password
-- has more than 4.
pub validate-get_strength_score :
    (is_digit : ℕ → Bool) (password : Text)
    → (get_strength_score is_digit password ≤ 4)
      × (validate is_digit default_policy password ≡ none
          → 3 ≤ get_strength_score is_digit password)
unfolding validate get_strength_score
validate-get_strength_score is_digit password = (
  omega arith,
  λ h.
      let (long, up, low, dig, spec) = passed is_digit password h in
      let enough : leb 12 (length password) ≡ true = ground arith in
      rw (enough, up, low, dig, spec) (at_least_three (leb 16 (length password))),
)
