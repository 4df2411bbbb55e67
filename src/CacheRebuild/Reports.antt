-- ===== src/CacheRebuild/Reports.antt =====
-- What a check of the consistency says after a full rebuild.
use art_store.Common.{
  ℕ, ◌≡◌, refl, sym, ap, ap₂, ◌∙◌, subst, String, true, false, List, [], ◌∷◌, Option, some,
  contains, Bool-cases, inl, inr, map, ok, Memᴰ, length, keep_if, str_eq, str_eq_iff,
}
use art_store.Common.Json.{Json, Dict}
use art_store.CacheLock.{manual_check, Redis, acquire_lock}
use art_store.CacheRebuild.Defs.Model.{Entry, AttrFileInfo, Env, Db}
use art_store.CacheRebuild.Defs.Scan.{made}
use art_store.CacheRebuild.Defs.Run.{
  is_expired, report_of, RebuildResult, World, ConsistencyReport, distinct, without, cache_ids,
  report, rebuild_cache_full, check_consistency,
}
use art_store.CacheRebuild.Scans.{made_rows, with_row}
use art_store.CacheRebuild.Outcomes.{gave, rebuild_cache_full-Rebuilt}

without_self :
    (xs ys : List String) → ((x : String) → Memᴰ x xs → contains x ys ≡ true) → without xs ys ≡ []
without_self [] ys h = refl
without_self (x ∷ xs) ys h =
    rw (h x (Memᴰ.head refl), keep_if) (without_self xs ys (λ z m. h z (Memᴰ.tail m)))

mem-contains : (x : String) (xs : List String) → Memᴰ x xs → contains x xs ≡ true
mem-contains x [] m = elim m [ ]
mem-contains x (y ∷ ys) (Memᴰ.head e) = rw ((str_eq_iff x y).1 e) refl
mem-contains x (y ∷ ys) (Memᴰ.tail m) = elim (Bool-cases (str_eq x y)) [
  | inl here ↦ rw here refl
  | inr other ↦ rw other (mem-contains x ys m)
]

-- The row of each listed file is made, with the id that its name shows.
abbrev pub Named : Env → World → Type 0
Named env w =
    (i : AttrFileInfo)
    → Memᴰ i w.listed
    → (e : Entry) × (made env w.read i ≡ some (some e)) × (env.uuid_text e.file_id ≡ i.file_id)

module _ (env : Env) (read : String → Option (Dict Json)) where
  row_ids-listed :
      (infos : List AttrFileInfo) (table : List Entry)
      → ((i : AttrFileInfo)
          → Memᴰ i infos
          → (e : Entry) × (made env read i ≡ some (some e)) × (env.uuid_text e.file_id ≡ i.file_id))
      → map some table ≡ made_rows env read [] infos
      → map (λ e. env.uuid_text e.file_id) table ≡ map (λ i. i.file_id) infos
  row_ids-listed [] [] h e = refl
  row_ids-listed [] (t ∷ ts) h e = absurd (cc e)
  row_ids-listed (i ∷ rest) table h e =
      let (row, row_made, named) = h i (Memᴰ.head refl) in
      same_rows i rest table row
        (rw (ap (λ o. with_row o (made_rows env read [] rest)) row_made) at e) named
        (λ ts. row_ids-listed rest ts (λ j m. h j (Memᴰ.tail m)))
    where
      same_rows :
          (i : AttrFileInfo) (rest : List AttrFileInfo) (table : List Entry) (row : Entry)
          → map some table ≡ some row ∷ made_rows env read [] rest
          → env.uuid_text row.file_id ≡ i.file_id
          → ((ts : List Entry)
              → map some ts ≡ made_rows env read [] rest
              → map (λ e. env.uuid_text e.file_id) ts ≡ map (λ i. i.file_id) rest)
          → map (λ e. env.uuid_text e.file_id) table ≡ i.file_id ∷ map (λ i. i.file_id) rest
      same_rows i rest [] row e named ih = absurd (cc e)
      same_rows i rest (t ∷ ts) row e named ih =
          let first : t ≡ row = cc e in
          let later : map some ts ≡ made_rows env read [] rest = cc e in
          ap₂ ◌∷◌ (ap (λ (x : Entry). env.uuid_text x.file_id) first ∙ named) (ih ts later)

-- No ids stand on one side only, if the sides list the same ones.
no_orphans : (xs : List String) → without (distinct xs) (distinct xs) ≡ []
no_orphans xs = without_self (distinct xs) (distinct xs) (λ x m. mem-contains x (distinct xs) m)

-- What a report says where the table lists the ids that the attribute files show.
pub record IsClean (c : ConsistencyReport) : Type 0 where
  pub consistent : c.is_consistent ≡ true
  pub no_orphan_rows : c.orphan_cache_entries ≡ []
  pub no_orphan_files : c.orphan_attr_files ≡ []

report_of-IsClean :
    (total : ℕ) (xs : List String) (expired : List String)
    → IsClean (report_of total (distinct xs) (distinct xs) expired)
report_of-IsClean total xs expired = record {
  consistent = rw (no_orphans xs) refl;
  no_orphan_rows = no_orphans xs;
  no_orphan_files = no_orphans xs;
}

module _ (env : Env) (w : World) where
  report-IsClean :
      (db : Db) (c : ConsistencyReport)
      → cache_ids env w db ≡ map (λ i. i.file_id) w.listed
      → (report env w db).1 ≡ ok c
      → IsClean c
  unfolding report
  report-IsClean db c same h = elim (Bool-cases w.list_raises) [
    | inl raises ↦ absurd (cc (rw (raises, report) at h))
    | inr ends ↦ elim (Bool-cases w.first_ok) [
      | inr fails ↦ absurd (cc (rw (ends, fails, report) at h))
      | inl works ↦
          let expired =
            map (λ e. env.uuid_text e.file_id) (keep_if (is_expired env.now) db.table) in
          let listed = map (λ (i : AttrFileInfo). i.file_id) w.listed in
          let e : report_of (length w.listed) (distinct listed) (distinct (cache_ids env w db))
                expired
              ≡ c =
            cc (rw (ends, works, report) at h) in
          subst IsClean
            (ap
                (λ (ids : List String).
                  report_of (length w.listed) (distinct listed) (distinct ids) expired)
                (sym same)
              ∙ e)
            (report_of-IsClean (length w.listed) listed expired)
    ]
  ]

  -- After a full rebuild that returned, where the row of each attribute file can be made with the id that its
  -- name shows, each check of the consistency that returns finds the table consistent, with no orphans.
  pub check_consistency-IsClean :
      (r : Redis) (prefix : String) (s s' : r.Store) (db : Db) (result : RebuildResult)
      (c : ConsistencyReport)
      → Named env w
      → db.pending ≡ []
      → (rebuild_cache_full r prefix env w s db).2 ≡ ok result
      → (check_consistency r prefix env w s' (rebuild_cache_full r prefix env w s db).1).2 ≡ ok c
      → IsClean c
  unfolding check_consistency
  check_consistency-IsClean r prefix s s' db result c named fresh done checked =
      let db' = (rebuild_cache_full r prefix env w s db).1 in
      let call = acquire_lock r prefix manual_check 600 false 0 s' in
      let (reported, _) =
        gave r prefix manual_check 600 (report env w) s' db' call.0 call.1 c refl checked in
      report-IsClean db' c
        (row_ids-listed env w.read w.listed db'.table named
          ((rebuild_cache_full-Rebuilt r prefix env w s db result fresh done).rows))
        reported
