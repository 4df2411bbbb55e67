-- ===== src/Tests/Names.antt =====
-- The names of files: `report_ann_T1_U2.pdf`, with short texts for time and UUID.
use art_store.Common.{◌==◌, ℕ, ◌≡◌, refl, [], ◌∷◌, ◌++◌, Option, some, none, ok}
use art_store.FileNaming.{
  generate_storage_filename, assemble, generate_for, Text, Parts, joined, sanitize_filename,
  parse_storage_filename, collapse, strip_start, strip_end,
}
use art_store.FileNaming.Names.{IsKept}
use art_store.FileNaming.Parsing.{parse_storage_filename-generated}

-- `/a__b/`
abbrev messy : Text
messy = 47 ∷ 97 ∷ 95 ∷ 95 ∷ 98 ∷ 47 ∷ []

sanitizes : sanitize_filename messy ≡ 97 ∷ 95 ∷ 98 ∷ []
unfolding sanitize_filename collapse strip_start strip_end
sanitizes = refl

abbrev stem : Text
stem = 114 ∷ 101 ∷ 112 ∷ 111 ∷ 114 ∷ 116 ∷ []

abbrev ann : Text
ann = 97 ∷ 110 ∷ 110 ∷ []

abbrev time_text : Text
time_text = 84 ∷ 49 ∷ []

abbrev uuid_text : Text
uuid_text = 85 ∷ 50 ∷ []

abbrev pdf : Text
pdf = 46 ∷ 112 ∷ 100 ∷ 102 ∷ []

abbrev parts : Parts
parts = record { username = ann; timestamp = time_text; uuid = uuid_text; extension = pdf }

-- The parts that are not cut have 14 characters. Of a stem of six, a bound of 18 keeps one.
abbrev short_name : Text
short_name = joined (114 ∷ 46 ∷ 46 ∷ 46 ∷ []) ann time_text uuid_text ++ pdf

-- With a bound of 15 the name has 21.
abbrev long_name : Text
long_name = joined (114 ∷ 101 ∷ 112 ∷ 111 ∷ 46 ∷ 46 ∷ 46 ∷ []) ann time_text uuid_text ++ pdf

abbrev read_time : Text → Option ℕ
read_time [] = none
read_time (c ∷ cs) = some 1

abbrev read_uuid : Text → Option ℕ
read_uuid [] = none
read_uuid (c ∷ cs) = some 2

parse_storage_filename-generated_example :
    (before : Text) × IsKept before stem
    × (parse_storage_filename read_time read_uuid (joined stem ann time_text uuid_text ++ pdf)
        ≡ ok (record {
          original_stem = before;
          username = ann;
          timestamp = 1;
          uuid = 2;
          extension = pdf;
        }))
unfolding generate_storage_filename assemble generate_for sanitize_filename collapse strip_start
    strip_end
parse_storage_filename-generated_example =
    parse_storage_filename-generated read_time read_uuid 1 2 time_text uuid_text refl refl refl refl
      (λ c. c == 32) stem pdf ann 200 (joined stem ann time_text uuid_text ++ pdf) refl
      (112, 100 ∷ 102 ∷ [], refl, refl) refl
