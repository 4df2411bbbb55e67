-- ===== src/FileNaming/Parsing.antt =====
-- Reading the parts back from a generated name.
use art_store.Common.{
  ==_iff, ltb, ◌≤◌, ℕ, ◌+◌, ◌-◌, ◌≡◌, refl, sym, ap, ◌∙◌, Bool, true, false, List, [], ◌∷◌, ◌++◌,
  Option, some, length, length-append, take, drop, ◌==◌, if◌then◌else◌, arith, ok, raise,
  Bool-cases, inl, inr,
}
use art_store.FileNaming.{
  format_invalid, Text, underscore, sanitize_filename, or_file, generate_storage_filename,
  parse_parts, joined, split, join, cons_first, parse_last, parse_storage_filename,
}
use art_store.FileNaming.Names.{IsSuffix, split_name, clean_name, IsKept, generated-joined}

-- The text holds no underscore.
abbrev pub is_one_part : Text → Bool
is_one_part [] = true
is_one_part (c ∷ cs) = if c == underscore then false else is_one_part cs

split-part : (s : Text) → is_one_part s ≡ true → split s ≡ s ∷ []
unfolding split
split-part [] h = refl
split-part (c ∷ cs) h = ground (arith, split-part cs)

-- A text always has a first part.
split-cons : (s : Text) → (w : Text) × (ws : List Text) × (split s ≡ w ∷ ws)
unfolding split
split-cons [] = ([], [], refl)
split-cons (c ∷ cs) = elim (Bool-cases (c == underscore)) [
  | inl cut ↦ rw cut ([], split cs, refl)
  | inr other ↦ let (w, ws, e) = split-cons cs in rw (other, e) (c ∷ w, ws, refl)
]

cons_first-append :
    (c : ℕ) (xs ys : List Text) (w : Text) (ws : List Text)
    → xs ≡ w ∷ ws
    → cons_first c (xs ++ ys) ≡ cons_first c xs ++ ys
cons_first-append c xs ys w ws e = rw e refl

split-append : (a b : Text) → split (a ++ underscore ∷ b) ≡ split a ++ split b
unfolding split
split-append [] b = refl
split-append (c ∷ cs) b = elim (Bool-cases (c == underscore)) [
  | inl cut ↦ rw (cut, split-append cs b) refl
  | inr other ↦
      let (w, ws, e) = split-cons cs in
      rw (other, split-append cs b) (cons_first-append c (split cs) (split b) w ws e)
]

join-cons_first :
    (c : ℕ) (w : Text) (ws : List Text) → join (cons_first c (w ∷ ws)) ≡ c ∷ join (w ∷ ws)
unfolding join
join-cons_first c w [] = refl
join-cons_first c w (v ∷ ws) = refl

join-split : (s : Text) → join (split s) ≡ s
unfolding split join
join-split [] = refl
join-split (c ∷ cs) =
    let (w, ws, e) = split-cons cs in
    let rest : join (w ∷ ws) ≡ cs = ap join (sym e) ∙ join-split cs in
    elim (Bool-cases (c == underscore)) [
      | inl cut ↦
          rw (cut, e)
            (ap (λ l. underscore ∷ l) rest ∙ ap (λ k. k ∷ cs) (sym ((==_iff c underscore).0 cut)))
      | inr other ↦ rw (other, e) (join-cons_first c w ws ∙ ap (λ l. c ∷ l) rest)
    ]

take-append : {A : Type 0} (xs ys : List A) → take (length xs) (xs ++ ys) ≡ xs
take-append [] ys = refl
take-append (x ∷ xs) ys = ap (λ l. x ∷ l) (take-append xs ys)

drop-append : {A : Type 0} (xs ys : List A) → drop (length xs) (xs ++ ys) ≡ ys
drop-append [] ys = refl
drop-append (x ∷ xs) ys = drop-append xs ys

module _ (parse_time parse_uuid : Text → Option ℕ) (time uuid : ℕ) (time_text uuid_text : Text)
    (time_read : parse_time time_text ≡ some time) (uuid_read : parse_uuid uuid_text ≡ some uuid)
    (time_part : is_one_part time_text ≡ true) (uuid_part : is_one_part uuid_text ≡ true) where
  split-joined :
      (before name_part : Text)
      → is_one_part name_part ≡ true
      → split (joined before name_part time_text uuid_text)
        ≡ split before ++ name_part ∷ time_text ∷ uuid_text ∷ []
  split-joined before name_part part =
      rw
        (
          split-append before (name_part ++ underscore ∷ (time_text ++ underscore ∷ uuid_text)),
          split-append name_part (time_text ++ underscore ∷ uuid_text),
          split-append time_text uuid_text,
          split-part name_part part,
          split-part time_text time_part,
          split-part uuid_text uuid_part,
        )
        refl

  parse_split :
      (before name_part extension : Text) (parts : List Text)
      → parts ≡ split before ++ name_part ∷ time_text ∷ uuid_text ∷ []
      → (if ltb (length parts) 4
          then raise format_invalid
          else parse_last parse_time parse_uuid
              (take (length parts - 3) parts)
              (drop (length parts - 3) parts)
              extension)
        ≡ ok (record {
          original_stem = before;
          username = name_part;
          timestamp = time;
          uuid = uuid;
          extension = extension;
        })
  unfolding parse_last
  parse_split before name_part extension parts e =
      let (w, ws, first) = split-cons before in
      let total : length parts ≡ length (split before) + 3 =
        rw e (length-append (split before) (name_part ∷ time_text ∷ uuid_text ∷ [])) in
      let some_part : 1 ≤ length (split before) = rw first (omega arith) in
      let enough : ltb (length parts) 4 ≡ false = ground arith in
      let at_ : length parts - 3 ≡ length (split before) = omega arith in
      let last_parts = name_part ∷ time_text ∷ uuid_text ∷ [] in
      rw
        (
          enough,
          at_,
          e,
          take-append (split before) last_parts,
          drop-append (split before) last_parts,
        )
        (rw (time_read, parse_last) (rw (uuid_read, parse_last) (rw (join-split before) refl)))

  parse_parts-joined :
      (before name_part extension : Text)
      → is_one_part name_part ≡ true
      → parse_parts parse_time parse_uuid (joined before name_part time_text uuid_text, extension)
        ≡ ok (record {
          original_stem = before;
          username = name_part;
          timestamp = time;
          uuid = uuid;
          extension = extension;
        })
  unfolding parse_parts
  parse_parts-joined before name_part extension part =
      parse_split before name_part extension (split (joined before name_part time_text uuid_text))
        (split-joined before name_part part)

  -- A name with a suffix is read back as its parts.
  pub parse_storage_filename-joined :
      (before name_part extension : Text)
      → is_one_part name_part ≡ true
      → IsSuffix extension
      → parse_storage_filename parse_time parse_uuid
          (joined before name_part time_text uuid_text ++ extension)
        ≡ ok (record {
          original_stem = before;
          username = name_part;
          timestamp = time;
          uuid = uuid;
          extension = extension;
        })
  unfolding parse_storage_filename
  parse_storage_filename-joined before name_part extension part suffix =
      ap (parse_parts parse_time parse_uuid) (
        split_name before (name_part ++ underscore ∷ (time_text ++ underscore ∷ uuid_text))
          extension suffix)
      ∙ parse_parts-joined before name_part extension part

  -- A generated name is read back: the clean name of the user, if it holds no underscore, the time, the
  -- UUID and the extension, if it is a suffix of a name, and the clean stem, or as much of it as was kept,
  -- followed by three dots.
  pub parse_storage_filename-generated :
      (is_space : ℕ → Bool) (stem extension username : Text) (max_total_length : ℕ) (name : Text)
      → is_one_part (clean_name is_space username) ≡ true
      → IsSuffix extension
      → generate_storage_filename is_space stem extension username time_text uuid_text
          max_total_length
        ≡ ok name
      → (before : Text) × IsKept before (or_file (sanitize_filename stem))
        × (parse_storage_filename parse_time parse_uuid name
            ≡ ok (record {
              original_stem = before;
              username = clean_name is_space username;
              timestamp = time;
              uuid = uuid;
              extension = extension;
            }))
  parse_storage_filename-generated is_space stem extension username max_total_length name part
        suffix made =
      let (before, kept, same) =
        generated-joined is_space stem extension username time_text uuid_text max_total_length name
          made in
      (
        before,
        kept,
        ap (parse_storage_filename parse_time parse_uuid) same
            ∙ parse_storage_filename-joined before (clean_name is_space username) extension part
                suffix,
      )
