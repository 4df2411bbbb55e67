-- ===== src/Tests/Passwords.antt =====
-- The password policy, with ASCII digits and a shuffle that keeps the order.
use art_store.Common.{
  ℕ, ◌+◌, ◌*◌, ◌≡◌, refl, String, Bool, false, List, [], ◌∷◌, ◌&&◌, some, none, leb, str_eq,
}
use art_store.PasswordPolicy.{
  Text, default_policy, validate, generate, check_reuse, add_to_history, no_special,
}
use art_store.PasswordPolicy.Generation.{Shuffles, generate-validate}

abbrev ascii_digit : ℕ → Bool
ascii_digit c = leb 48 c && leb c 57

abbrev in_order : Text → Text
in_order cs = cs

in_order-Shuffles : Shuffles in_order
in_order-Shuffles = record { length-shuffle = λ cs. refl; exists_in-shuffle = λ p cs. refl }

abbrev draws : ℕ → ℕ
draws n = 7 * n + 3

generate-validate_example :
    (password : Text) × (generate draws in_order default_policy none ≡ some password)
    × (validate ascii_digit default_policy password ≡ none)
generate-validate_example =
    generate-validate ascii_digit refl draws in_order in_order-Shuffles default_policy none refl

-- `aB3aB3aB3aB3`
abbrev plain : Text
plain = 97 ∷ 66 ∷ 51 ∷ 97 ∷ 66 ∷ 51 ∷ 97 ∷ 66 ∷ 51 ∷ 97 ∷ 66 ∷ 51 ∷ []

refused_without_special : validate ascii_digit default_policy plain ≡ some no_special
unfolding validate
refused_without_special = refl

abbrev old : List String
old = "h1" ∷ "h2" ∷ "h3" ∷ "h4" ∷ "h5" ∷ []

-- The oldest hash has left the history.
forgets : check_reuse (str_eq "h1") default_policy (add_to_history default_policy "h6" old) ≡ false
unfolding check_reuse add_to_history
forgets = refl
