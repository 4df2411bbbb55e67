-- ===== src/Tests/Sequences.antt =====
-- A failed creation, a creation, an update and a deletion in a row.
use art_store.Common.{List, [], ◌∷◌, none}
use art_store.FileService.{World, create_at, delete_file_by_id, update_file_metadata}
use art_store.FileService.Refinement.{Operation, put_file, change_file, remove_file, do_nothing}
use art_store.Tests.Files.{
  env, fine, upload, generated, failed_create, attr_down, change, the_attributes,
}
use art_store.Tests.Log.{at_}

-- The world after the failed creation, which has a rolled back transaction.
abbrev w1 : World
w1 = failed_create.0

abbrev w2 : World
w2 =
    (create_at env fine (record upload { file_id = none }) (record generated { transaction_id = 8 })
      42 "report_ann.pdf" w1).0

abbrev w3 : World
w3 = (update_file_metadata env fine (at_ 7) change 11 42 "u1" w2).0

abbrev w4 : World
w4 = (update_file_metadata env attr_down (at_ 7) change 13 42 "u1" w3).0

abbrev w5 : World
w5 = (delete_file_by_id env fine (at_ 8) 12 42 "u1" w4).0

abbrev operations : List Operation
operations =
    do_nothing
    ∷ put_file 42 (1 ∷ 2 ∷ 3 ∷ [], the_attributes)
    ∷ change_file 42 change
    ∷ do_nothing
    ∷ remove_file 42
    ∷ []
