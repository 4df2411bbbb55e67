-- ===== src/FileNaming.antt =====
-- storage-element/app/utils/file_naming.py: the names of the files in a store. A text is the list of
-- its code points.
pub mod Sanitized
pub mod Lengths
pub mod Names
pub mod Parsing
use art_store.Common.{
  ℕ, ◌+◌, ◌-◌, String, Bool, true, false, not, ◌&&◌, ◌||◌, List, [], ◌∷◌, ◌++◌, map, Option, none,
  some, length, take, drop, ltb, leb, ◌==◌, if◌then◌else◌, Result, ok, raise,
}

abbrev pub Text : Type 0
Text = List ℕ

abbrev pub underscore : ℕ
underscore = 95

-- `<>:"/\|?*`
abbrev pub invalid_marks : List ℕ
invalid_marks = 60 ∷ 62 ∷ 58 ∷ 34 ∷ 47 ∷ 92 ∷ 124 ∷ 63 ∷ 42 ∷ []

abbrev pub has_code : ℕ → List ℕ → Bool
has_code c [] = false
has_code c (d ∷ ds) = c == d || has_code c ds

-- `invalid_chars`
abbrev pub invalid : ℕ → Bool
invalid c = leb c 31 || has_code c invalid_marks

abbrev pub replaced : ℕ → ℕ
replaced c = if invalid c then underscore else c

-- `re.sub(r'_+', '_', …)`
unfoldable pub collapse : Text → Text
collapse [] = []
collapse (c ∷ []) = c ∷ []
collapse (c ∷ d ∷ cs) =
    let rest = collapse (d ∷ cs) in if c == underscore && d == underscore then rest else c ∷ rest

-- `str.strip`, of the code points that pass a test.
unfoldable pub strip_start : (ℕ → Bool) → Text → Text
strip_start p [] = []
strip_start p (c ∷ cs) = let rest = strip_start p cs in if p c then rest else c ∷ cs

abbrev pub keep_start : (ℕ → Bool) → ℕ → Text → Text
keep_start p c [] = if p c then [] else c ∷ []
keep_start p c (d ∷ ds) = c ∷ d ∷ ds

unfoldable pub strip_end : (ℕ → Bool) → Text → Text
strip_end p [] = []
strip_end p (c ∷ cs) = keep_start p c (strip_end p cs)

abbrev pub is_underscore : ℕ → Bool
is_underscore c = c == underscore

unfoldable pub sanitize_filename : Text → Text
unfolding collapse strip_start strip_end
sanitize_filename filename =
    strip_end is_underscore (strip_start is_underscore (collapse (map replaced filename)))

abbrev pub dots : Text
dots = 46 ∷ 46 ∷ 46 ∷ []

-- `truncate_stem`: a bound below 3 makes the end of the slice negative, which counts from the end of
-- the stem.
unfoldable pub truncate_stem : Text → ℕ → Text
truncate_stem stem max_length =
    if leb (length stem) max_length
    then stem
    else if leb 3 max_length
    then take (max_length - 3) stem ++ dots
    else take (length stem - (3 - max_length)) stem ++ dots

pub data NameError : Type 0 where
  username_empty username_invalid format_invalid timestamp_invalid uuid_invalid : NameError
  fixed_part_too_long : ℕ → NameError

abbrev pub or_file : Text → Text
or_file [] = 102 ∷ 105 ∷ 108 ∷ 101 ∷ []
or_file (c ∷ cs) = c ∷ cs

abbrev pub joined : Text → Text → Text → Text → Text
joined stem username timestamp uuid =
    stem ++ underscore ∷ (username ++ underscore ∷ (timestamp ++ underscore ∷ uuid))

-- The parts of a name that are not cut: the user's name, the texts of time and UUID, the extension.
pub record Parts : Type 0 where
  pub username : Text
  pub timestamp : Text
  pub uuid : Text
  pub extension : Text

abbrev pub fixed_length : Parts → ℕ
fixed_length p =
    1 + length p.username + 1 + length p.timestamp + 1 + length p.uuid + length p.extension

-- The end of `generate_storage_filename`, on the clean stem and the clean name of the user.
unfoldable pub assemble : Text → Parts → ℕ → Result NameError Text
unfolding truncate_stem
assemble stem p max_total_length =
    let available = max_total_length - fixed_length p in
    if leb max_total_length (fixed_length p)
    then raise (fixed_part_too_long (fixed_length p))
    else ok (
        joined (if ltb available (length stem) then truncate_stem stem available else stem)
          p.username p.timestamp p.uuid
        ++ p.extension)

-- The two tests of the user's name, with the name after each step.
unfoldable pub generate_for : Text → Text → Text → Text → Text → Text → ℕ → Result NameError Text
unfolding assemble
generate_for [] cleaned stem extension timestamp uuid max_total_length = raise username_empty
generate_for (c ∷ cs) [] stem extension timestamp uuid max_total_length = raise username_invalid
generate_for (c ∷ cs) (u ∷ us) stem extension timestamp uuid max_total_length =
    assemble stem
      (record { username = u ∷ us; timestamp = timestamp; uuid = uuid; extension = extension })
      max_total_length

-- `generate_storage_filename`: `stem` and `extension` are those of `Path(original_filename)`, and
-- `is_space` is the test of `str.strip`.
unfoldable pub generate_storage_filename :
    (ℕ → Bool) → Text → Text → Text → Text → Text → ℕ → Result NameError Text
unfolding generate_for sanitize_filename
generate_storage_filename is_space stem extension username timestamp uuid max_total_length =
    let stripped = strip_end is_space (strip_start is_space username) in
    generate_for stripped (sanitize_filename stripped) (or_file (sanitize_filename stem)) extension
      timestamp uuid max_total_length

abbrev pub dot : ℕ
dot = 46

-- `rfind('.')`, with what stands before the last dot and the text from it on.
abbrev pub or_here : ℕ → Text → Option (Text × Text) → Option (Text × Text)
or_here c cs (some (before, from_dot)) = some (c ∷ before, from_dot)
or_here c cs none = if c == dot then some ([], c ∷ cs) else none

unfoldable pub last_dot : Text → Option (Text × Text)
last_dot [] = none
last_dot (c ∷ cs) = or_here c cs (last_dot cs)

-- `Path.stem` and `Path.suffix` of a name: a dot at its start or at its end makes no suffix.
abbrev pub stem_and_suffix : Text → Option (Text × Text) → Text × Text
stem_and_suffix name none = (name, [])
stem_and_suffix name (some ([], from_dot)) = (name, [])
stem_and_suffix name (some (c ∷ cs, [])) = (name, [])
stem_and_suffix name (some (c ∷ cs, d ∷ [])) = (name, [])
stem_and_suffix name (some (c ∷ cs, d ∷ e ∷ es)) = (c ∷ cs, d ∷ e ∷ es)

-- `split('_')`
abbrev pub cons_first : ℕ → List Text → List Text
cons_first c [] = (c ∷ []) ∷ []
cons_first c (w ∷ ws) = (c ∷ w) ∷ ws

unfoldable pub split : Text → List Text
split [] = [] ∷ []
split (c ∷ cs) = let rest = split cs in if c == underscore then [] ∷ rest else cons_first c rest

-- `'_'.join(…)`
unfoldable pub join : List Text → Text
join [] = []
join (w ∷ []) = w
join (w ∷ v ∷ ws) = w ++ underscore ∷ join (v ∷ ws)

pub record ParsedName : Type 0 where
  pub original_stem : Text
  pub username : Text
  pub timestamp : ℕ
  pub uuid : ℕ
  pub extension : Text

module _ (parse_time parse_uuid : Text → Option ℕ) where
  -- The end of `parse_storage_filename`, on the first parts and the last three.
  unfoldable pub parse_last : List Text → List Text → Text → Result NameError ParsedName
  parse_last first (username ∷ timestamp_str ∷ uuid_str ∷ []) extension =
      elim (parse_time timestamp_str) [
        | none ↦ raise timestamp_invalid
        | some timestamp ↦ elim (parse_uuid uuid_str) [
          | none ↦ raise uuid_invalid
          | some uuid ↦ ok (record {
            original_stem = join first;
            username = username;
            timestamp = timestamp;
            uuid = uuid;
            extension = extension;
          })
        ]
      ]
  parse_last first other extension = raise format_invalid

  -- The body of `parse_storage_filename` after its first lines.
  unfoldable pub parse_parts : Text × Text → Result NameError ParsedName
  unfolding parse_last split
  parse_parts (filename_without_ext, extension) =
      let parts = split filename_without_ext in
      let n = length parts - 3 in
      if ltb (length parts) 4
      then raise format_invalid
      else parse_last (take n parts) (drop n parts) extension

  -- `parse_storage_filename`, on the last component of the path; `strptime` and `UUID` are parameters.
  unfoldable pub parse_storage_filename : Text → Result NameError ParsedName
  unfolding parse_parts last_dot
  parse_storage_filename storage_filename =
      parse_parts (stem_and_suffix storage_filename (last_dot storage_filename))
