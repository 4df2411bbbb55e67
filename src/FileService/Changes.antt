-- ===== src/FileService/Changes.antt =====
-- What an update of a file is to make of its row and of its attribute file, and that the code makes it.
use art_store.Common.{◌≡◌, refl, ap, ◌∙◌, Option, none, some}
use art_store.FileService.Defs.{
  FileAttributes, FileMetadata, Change, override, set_if_given, changed_row, changed_attributes,
}

abbrev pub given_or {ℓ} : {A : Type ℓ} → A → Option A → A
given_or old none = old
given_or old (some new) = new

abbrev pub given_first {ℓ} : {A : Type ℓ} → Option A → Option A → Option A
given_first old none = old
given_first old (some new) = some new

abbrev pub updated_row : Change → FileMetadata → FileMetadata
updated_row c m = record {
  file_id = m.file_id;
  original_filename = m.original_filename;
  storage_filename = m.storage_filename;
  file_size = m.file_size;
  content_type = m.content_type;
  created_at = m.created_at;
  updated_at = c.row_time;
  created_by_id = m.created_by_id;
  created_by_username = m.created_by_username;
  created_by_fullname = m.created_by_fullname;
  description = given_first m.description c.description;
  version = given_first m.version c.version;
  storage_path = m.storage_path;
  checksum = m.checksum;
  metadata_json = given_first m.metadata_json c.metadata;
  cache_updated_at = c.database_time;
}

abbrev pub updated_attributes : Change → FileAttributes → FileAttributes
updated_attributes c a = record {
  file_id = a.file_id;
  original_filename = a.original_filename;
  storage_filename = a.storage_filename;
  file_size = a.file_size;
  content_type = a.content_type;
  created_at = a.created_at;
  updated_at = c.attr_time;
  created_by_id = a.created_by_id;
  created_by_username = a.created_by_username;
  created_by_fullname = a.created_by_fullname;
  description = given_first a.description c.description;
  version = given_first a.version c.version;
  storage_path = a.storage_path;
  checksum = a.checksum;
  metadata = given_or a.metadata c.metadata;
}

override-given : {A : Type 0} (old given : Option A) → override given old ≡ given_first old given
override-given old none = refl
override-given old (some new) = refl

set_if_given-given :
    {A : Type 0} (old : A) (given : Option A) → set_if_given given old ≡ given_or old given
set_if_given-given old none = refl
set_if_given-given old (some new) = refl

pub changed_attributes-updated :
    (c : Change) (a : FileAttributes) → changed_attributes c a ≡ updated_attributes c a
changed_attributes-updated c a =
    ap (λ x. record (changed_attributes c a) { description = x })
      (override-given a.description c.description)
    ∙ ap
        (λ x. record (changed_attributes c a) {
          description = given_first a.description c.description;
          version = x;
        })
        (override-given a.version c.version)
    ∙ ap (λ x. record (updated_attributes c a) { metadata = x })
        (set_if_given-given a.metadata c.metadata)

pub changed_row-updated : (c : Change) (m : FileMetadata) → changed_row c m ≡ updated_row c m
changed_row-updated c m =
    ap (λ x. record (changed_row c m) { description = x })
      (override-given m.description c.description)
    ∙ ap
        (λ x. record (changed_row c m) {
          description = given_first m.description c.description;
          version = x;
        })
        (override-given m.version c.version)
    ∙ ap (λ x. record (updated_row c m) { metadata_json = x })
        (override-given m.metadata_json c.metadata)
