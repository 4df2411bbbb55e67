-- ===== src/FileService/Refinement/Views.antt =====
-- How one step changes what a world shows of its files.
use art_store.Common.{
  ℕ, ◌≡◌, ◌≢◌, refl, sym, ap, ◌∙◌, inl, inr, String, false, List, [], ◌∷◌, ◌++◌, Option, none, some,
  arith, if◌then◌else◌, ◌==◌, str_eq, str_eq_iff, str_eq_refl, ==_iff, Bool-cases, ==-cases,
}
use art_store.Common.Json.{Dict, get}
use art_store.Storage.{Bytes}
use art_store.FileService.Changes.{updated_row, updated_attributes}
use art_store.FileService.Defs.{
  World, FileAttributes, FileMetadata, Change, select_file, delete_row, path_of,
}
use art_store.FileService.Refinement.Abstract.{
  change_entry, both_files, view_row, view, Separate, IsFree,
}

select-append :
    (j : ℕ) (row : FileMetadata) (cache : List FileMetadata)
    → select_file row.file_id cache ≡ none
    → select_file j (cache ++ row ∷ [])
      ≡ (if j == row.file_id then some row else select_file j cache)
select-append j row [] h = ground (arith, ==_iff row.file_id j, ==_iff j row.file_id)
select-append j row (m ∷ ms) h = ground (arith, h, select-append j row ms)

select-delete :
    (j id : ℕ) (cache : List FileMetadata)
    → select_file j (delete_row id cache) ≡ (if j == id then none else select_file j cache)
select-delete j id [] = ground arith
select-delete j id (m ∷ ms) = ground (arith, select-delete j id ms)

-- What a step leaves of the entries of `path`, and what it makes of them.
abbrev pub Sets : {V : Type 0} → String → Option V → Dict V → Dict V → Type 0
Sets path new before after =
    (k : String) → get k after ≡ (if str_eq path k then new else get k before)

set_here :
    {V : Type 0} (path : String) (new : Option V) (before after : Dict V)
    → Sets path new before after
    → get path after ≡ new
set_here path new before after h = rw (h path, str_eq_refl path) refl

set_away :
    {V : Type 0} (path k : String) (new : Option V) (before after : Dict V)
    → Sets path new before after
    → str_eq path k ≡ false
    → get k after ≡ get k before
set_away path k new before after h away = rw (h k, away) refl

apart : (p q : String) → (p ≡ q → ⊥) → str_eq p q ≡ false
apart p q h = elim (Bool-cases (str_eq p q)) [
  | inl same ↦ absurd (h ((str_eq_iff p q).0 same))
  | inr other ↦ other
]

module _ (w v : World) (path : String) (x : Option Bytes) (y : Option FileAttributes)
    (bytes : Sets path x w.blobs v.blobs) (attributes : Sets path y w.attrs v.attrs) where
  view_row-away :
      (n : FileMetadata)
      → str_eq path (path_of n) ≡ false
      → view_row v (some n) ≡ view_row w (some n)
  view_row-away n away =
      rw
        (
          set_away path (path_of n) x w.blobs v.blobs bytes away,
          set_away path (path_of n) y w.attrs v.attrs attributes away,
        )
        refl

  view_row-free :
      (o : Option FileMetadata)
      → ((n : FileMetadata) → o ≡ some n → str_eq path (path_of n) ≡ false)
      → view_row v o ≡ view_row w o
  view_row-free none h = refl
  view_row-free (some n) h = view_row-away n (h n refl)

  view_row-here : (n : FileMetadata) → path_of n ≡ path → view_row v (some n) ≡ both_files x y
  view_row-here n e =
      ap (λ k. both_files (get k v.blobs) (get k v.attrs)) e
      ∙ rw (set_here path x w.blobs v.blobs bytes, set_here path y w.attrs v.attrs attributes) refl

  module _ (row : FileMetadata) (at_path : path_of row ≡ path)
      (fresh : select_file row.file_id w.cache ≡ none) (free : IsFree path w)
      (added : v.cache ≡ w.cache ++ row ∷ []) where
    select-added :
        (j : ℕ)
        → select_file j v.cache ≡ (if j == row.file_id then some row else select_file j w.cache)
    select-added j = rw added (select-append j row w.cache fresh)

    pub added-view : (j : ℕ) → view v j ≡ (if j == row.file_id then both_files x y else view w j)
    added-view j = elim (Bool-cases (j == row.file_id)) [
      | inl same ↦ rw (select-added j, same) (view_row-here row at_path)
      | inr other ↦
          rw (select-added j, other) (view_row-free (select_file j w.cache) (λ n h. free j n h))
    ]

    pub added-Separate : Separate w → Separate v
    added-Separate sep i j m n hi hj e = elim (Bool-cases (i == row.file_id)) [
      | inl same_i ↦ elim (Bool-cases (j == row.file_id)) [
        | inl same_j ↦ (==_iff i row.file_id).0 same_i ∙ sym ((==_iff j row.file_id).0 same_j)
        | inr other_j ↦
            let m_row : row ≡ m = cc (rw (select-added i, same_i) at hi) in
            let n_old : select_file j w.cache ≡ some n = rw (select-added j, other_j) at hj in
            absurd (
              cc (
                free j n n_old,
                (str_eq_iff path (path_of n)).1 (sym at_path ∙ (ap (λ k. path_of k) m_row ∙ e)),
              ))
      ]
      | inr other_i ↦
          let m_old : select_file i w.cache ≡ some m = rw (select-added i, other_i) at hi in
          elim (Bool-cases (j == row.file_id)) [
            | inl same_j ↦
                let n_row : row ≡ n = cc (rw (select-added j, same_j) at hj) in
                absurd (
                  cc (
                    free i m m_old,
                    (str_eq_iff path (path_of m)).1
                        (sym at_path ∙ (ap (λ k. path_of k) n_row ∙ sym e)),
                  ))
            | inr other_j ↦ sep i j m n m_old (rw (select-added j, other_j) at hj) e
          ]
    ]

  module _ (id : ℕ) (m : FileMetadata) (found : select_file id w.cache ≡ some m)
      (at_path : path_of m ≡ path) (sep : Separate w) where
    -- Another row has another data file.
    other_path :
        (j : ℕ)
        → (j == id) ≡ false
        → (n : FileMetadata) → select_file j w.cache ≡ some n
        → str_eq path (path_of n) ≡ false
    other_path j other n h =
        apart path (path_of n)
          (λ e. ground (arith, other, ==_iff j id, sep j id n m h found (sym e ∙ sym at_path)))

    pub removed-view :
        v.cache ≡ delete_row id w.cache → (j : ℕ) → view v j ≡ (if j == id then none else view w j)
    removed-view gone j = elim (Bool-cases (j == id)) [
      | inl same ↦ rw (gone, select-delete j id w.cache, same) refl
      | inr other ↦
          rw (gone, select-delete j id w.cache, other)
            (view_row-free (select_file j w.cache) (λ n h. other_path j other n h))
    ]

    pub removed-Separate : v.cache ≡ delete_row id w.cache → Separate v
    removed-Separate gone i j p q hi hj e = sep i j p q (still i p hi) (still j q hj) e
      where
        still :
            (k : ℕ) (r : FileMetadata)
            → select_file k v.cache ≡ some r
            → select_file k w.cache ≡ some r
        still k r h = elim (Bool-cases (k == id)) [
          | inl same ↦ absurd (cc (rw (gone, select-delete k id w.cache, same) at h))
          | inr other ↦ rw (gone, select-delete k id w.cache, other) at h
        ]

change_both :
    (c : Change) (x : Option Bytes) (a : FileAttributes)
    → both_files x (some (updated_attributes c a)) ≡ change_entry c (both_files x (some a))
change_both c none a = refl
change_both c (some b) a = refl

unchanged-Sets :
    {V : Type 0} (path : String) (before after : Dict V)
    → after ≡ before
    → Sets path (get path before) before after
unchanged-Sets path before after e k = elim (Bool-cases (str_eq path k)) [
  | inl same ↦ rw (e, same) (ap (λ q. get q before) (sym ((str_eq_iff path k).0 same)))
  | inr other ↦ rw (e, other) refl
]

module _ (w v : World) (c : Change) (id : ℕ) (m : FileMetadata) (a : FileAttributes)
    (found : select_file id w.cache ≡ some m) (there : get (path_of m) w.attrs ≡ some a)
    (attributes : Sets (path_of m) (some (updated_attributes c a)) w.attrs v.attrs)
    (row_changed : select_file id v.cache ≡ some (updated_row c m))
    (rows_kept : (j : ℕ) → j ≢ id → select_file j v.cache ≡ select_file j w.cache)
    (kept : v.blobs ≡ w.blobs) (sep : Separate w) where
  bytes : Sets (path_of m) (get (path_of m) w.blobs) w.blobs v.blobs
  bytes = unchanged-Sets (path_of m) w.blobs v.blobs kept

  pub changed-view : (j : ℕ) → view v j ≡ (if j == id then change_entry c (view w j) else view w j)
  changed-view j = elim (Bool-cases (j == id)) [
    | inl same ↦
        let e : j ≡ id = (==_iff j id).0 same in
        let before : view w id ≡ both_files (get (path_of m) w.blobs) (some a) =
          rw (found, there) refl in
        let after : view v id
            ≡ both_files (get (path_of m) w.blobs) (some (updated_attributes c a)) =
          ap (view_row v) row_changed
          ∙ view_row-here w v (path_of m) (get (path_of m) w.blobs) (some (updated_attributes c a))
              bytes attributes (updated_row c m) refl in
        rw (same, e, before, after) (change_both c (get (path_of m) w.blobs) a)
    | inr other ↦
        rw (other, rows_kept j (λ e. ground (arith, other, ==_iff j id, e)))
          (view_row-free w v (path_of m) (get (path_of m) w.blobs) (some (updated_attributes c a))
            bytes attributes (select_file j w.cache)
            (λ n h.
              other_path w v (path_of m) (get (path_of m) w.blobs) (some (updated_attributes c a))
                bytes attributes id m found refl sep j other n h))
  ]

module _ (w v : World) (c : Change) (id : ℕ) (m : FileMetadata)
    (found : select_file id w.cache ≡ some m)
    (row_changed : select_file id v.cache ≡ some (updated_row c m))
    (rows_kept : (j : ℕ) → j ≢ id → select_file j v.cache ≡ select_file j w.cache)
    (sep : Separate w) where
  -- The row of an id before the change, with the same path.
  old_row :
      (j : ℕ) (n : FileMetadata)
      → select_file j v.cache ≡ some n
      → (o : FileMetadata) × ((select_file j w.cache ≡ some o) × (path_of n ≡ path_of o))
  old_row j n h = elim (==-cases j id) [
    | inl same ↦
        let row : updated_row c m ≡ n = cc (row_changed, ap (λ k. select_file k v.cache) same, h) in
        (m, (ap (λ k. select_file k w.cache) same ∙ found, ap (λ r. path_of r) (sym row)))
    | inr other ↦ (n, (sym (rows_kept j other) ∙ h, refl))
  ]

  pub row_changed-Separate : Separate v
  row_changed-Separate i j p q hi hj e =
      let (o, (ho, eo)) = old_row i p hi in
      let (r, (hr, er)) = old_row j q hj in sep i j o r ho hr (sym eo ∙ (e ∙ er))
