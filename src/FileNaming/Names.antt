-- ===== src/FileNaming/Names.antt =====
-- The parts of a generated name, and its split at the last dot.
use art_store.Common.{
  zero, suc, none, ◌⊎◌, leb, ltb, ℕ, ◌-◌, ◌≡◌, refl, ap, Bool, true, false, List, [], ◌∷◌, ◌++◌,
  some, length, take, drop, ◌==◌, if◌then◌else◌, ok, Bool-cases, inl, inr,
}
use art_store.FileNaming.{
  Text, Parts, underscore, dot, dots, last_dot, stem_and_suffix, strip_start, strip_end,
  sanitize_filename, truncate_stem, or_file, fixed_length, assemble, generate_for,
  generate_storage_filename, joined,
}

-- A dot, and after it at least one character and no other dot.
abbrev pub has_no_dot : Text → Bool
has_no_dot [] = true
has_no_dot (c ∷ cs) = if c == dot then false else has_no_dot cs

abbrev pub IsSuffix : Text → Type 0
IsSuffix extension =
    (c : ℕ) × (rest : Text) × (extension ≡ dot ∷ c ∷ rest) × (has_no_dot (c ∷ rest) ≡ true)

last_dot-none : (s : Text) → has_no_dot s ≡ true → last_dot s ≡ none
unfolding last_dot
last_dot-none [] h = refl
last_dot-none (c ∷ cs) h = elim (Bool-cases (c == dot)) [
  | inl here ↦ absurd (cc (rw here at h))
  | inr other ↦ rw (last_dot-none cs (rw other at h), other) refl
]

last_dot-append : (s e : Text) → has_no_dot e ≡ true → last_dot (s ++ dot ∷ e) ≡ some (s, dot ∷ e)
unfolding last_dot
last_dot-append [] e h = rw (last_dot-none e h) refl
last_dot-append (c ∷ cs) e h = rw (last_dot-append cs e h) refl

-- The split of a name with an underscore before its suffix.
pub split_name :
    (before after extension : Text)
    → IsSuffix extension
    → stem_and_suffix
        ((before ++ underscore ∷ after) ++ extension)
        (last_dot ((before ++ underscore ∷ after) ++ extension))
      ≡ (before ++ underscore ∷ after, extension)
split_name [] after extension (c, rest, e, h) =
    rw (e, last_dot-append (underscore ∷ after) (c ∷ rest) h) refl
split_name (b ∷ bs) after extension (c, rest, e, h) =
    rw (e, last_dot-append (b ∷ (bs ++ underscore ∷ after)) (c ∷ rest) h) refl

-- The clean name of the user.
abbrev pub clean_name : (ℕ → Bool) → Text → Text
clean_name is_space username =
    sanitize_filename (strip_end is_space (strip_start is_space username))

-- The stem, or a beginning of it and three dots.
abbrev pub IsKept : Text → Text → Type 0
IsKept before stem =
    (before ≡ stem) ⊎ ((front back : Text) × (stem ≡ front ++ back) × (before ≡ front ++ dots))

take-drop : {A : Type 0} (n : ℕ) (xs : List A) → xs ≡ take n xs ++ drop n xs
take-drop zero xs = refl
take-drop (suc n) [] = refl
take-drop (suc n) (x ∷ xs) = ap (λ l. x ∷ l) (take-drop n xs)

truncate_stem-IsKept : (stem : Text) (bound : ℕ) → IsKept (truncate_stem stem bound) stem
unfolding truncate_stem
truncate_stem-IsKept stem bound = elim (Bool-cases (leb (length stem) bound)) [
  | inl fits ↦ rw fits (inl refl)
  | inr longer ↦ elim (Bool-cases (leb 3 bound)) [
    | inl wide ↦
        rw (longer, wide)
          (inr (take (bound - 3) stem, drop (bound - 3) stem, take-drop (bound - 3) stem, refl))
    | inr narrow ↦
        let n = length stem - (3 - bound) in
        rw (longer, narrow) (inr (take n stem, drop n stem, take-drop n stem, refl))
  ]
]

assemble-joined :
    (stem : Text) (p : Parts) (max_total_length : ℕ) (name : Text)
    → assemble stem p max_total_length ≡ ok name
    → (before : Text) × IsKept before stem
      × (name ≡ joined before p.username p.timestamp p.uuid ++ p.extension)
unfolding assemble
assemble-joined stem p max_total_length name made =
    elim (Bool-cases (leb max_total_length (fixed_length p))) [
      | inl full ↦ absurd (cc (rw full at made))
      | inr room ↦
          let available = max_total_length - fixed_length p in
          elim (Bool-cases (ltb available (length stem))) [
            | inl longer ↦ (
              truncate_stem stem available,
              truncate_stem-IsKept stem available,
              cc (rw (room, longer) at made),
            )
            | inr fits ↦ (stem, inl refl, cc (rw (room, fits) at made))
          ]
    ]

generate_for-joined :
    (stripped cleaned stem extension timestamp uuid : Text) (max_total_length : ℕ) (name : Text)
    → generate_for stripped cleaned stem extension timestamp uuid max_total_length ≡ ok name
    → (before : Text) × IsKept before stem
      × (name ≡ joined before cleaned timestamp uuid ++ extension)
unfolding generate_for
generate_for-joined [] cleaned stem extension timestamp uuid n name made = absurd (cc made)
generate_for-joined (c ∷ cs) [] stem extension timestamp uuid n name made = absurd (cc made)
generate_for-joined (c ∷ cs) (u ∷ us) stem extension timestamp uuid n name made =
    assemble-joined stem
      (record { username = u ∷ us; timestamp = timestamp; uuid = uuid; extension = extension }) n
      name made

pub generated-joined :
    (is_space : ℕ → Bool) (stem extension username timestamp uuid : Text) (max_total_length : ℕ)
    (name : Text)
    → generate_storage_filename is_space stem extension username timestamp uuid max_total_length
      ≡ ok name
    → (before : Text) × IsKept before (or_file (sanitize_filename stem))
      × (name ≡ joined before (clean_name is_space username) timestamp uuid ++ extension)
unfolding generate_storage_filename
generated-joined is_space stem extension username timestamp uuid n name made =
    generate_for-joined (strip_end is_space (strip_start is_space username))
      (clean_name is_space username) (or_file (sanitize_filename stem)) extension timestamp uuid n
      name made
