-- ===== src/FileService/Refinement/Abstract.antt =====
-- The store of files by their ids that the file service implements, and what a world shows of it.
use art_store.Common.{
  ℕ, ◌≡◌, String, false, List, [], ◌∷◌, Option, none, some, if◌then◌else◌, ◌==◌, str_eq,
}
use art_store.Common.Json.{get}
use art_store.Storage.{Bytes}
use art_store.FileService.Changes.{updated_attributes}
use art_store.FileService.Defs.{World, FileAttributes, FileMetadata, Change, select_file, path_of}

-- The abstract store: the bytes and the attributes of each id.
abbrev pub Entry : Type 0
Entry = Bytes × FileAttributes

abbrev pub Store : Type 0
Store = ℕ → Option Entry

pub data Operation : Type 0 where
  put_file : ℕ → Entry → Operation
  change_file : ℕ → Change → Operation
  remove_file : ℕ → Operation
  do_nothing : Operation

abbrev pub change_entry : Change → Option Entry → Option Entry
change_entry c none = none
change_entry c (some (b, a)) = some (b, updated_attributes c a)

abbrev pub apply : Operation → Store → Store
apply (put_file id e) s j = if j == id then some e else s j
apply (change_file id c) s j = if j == id then change_entry c (s j) else s j
apply (remove_file id) s j = if j == id then none else s j
apply do_nothing s j = s j

abbrev pub apply_all : List Operation → Store → Store
apply_all [] s = s
apply_all (o ∷ os) s = apply_all os (apply o s)

-- What a world shows: a row with its data file and its attribute file.
abbrev pub both_files : Option Bytes → Option FileAttributes → Option Entry
both_files none a = none
both_files (some b) none = none
both_files (some b) (some a) = some (b, a)

abbrev pub view_row : World → Option FileMetadata → Option Entry
view_row w none = none
view_row w (some m) = both_files (get (path_of m) w.blobs) (get (path_of m) w.attrs)

abbrev pub view : World → Store
view w id = view_row w (select_file id w.cache)

-- No two rows have one data file.
abbrev pub Separate : World → Type 0
Separate w =
    (i j : ℕ) (m n : FileMetadata)
    → select_file i w.cache ≡ some m
    → select_file j w.cache ≡ some n
    → path_of m ≡ path_of n
    → i ≡ j

-- No row has the data file yet.
abbrev pub IsFree : String → World → Type 0
IsFree path w =
    (j : ℕ) (n : FileMetadata) → select_file j w.cache ≡ some n → str_eq path (path_of n) ≡ false
