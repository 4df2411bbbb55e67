-- ===== src/CacheRebuild/Scans.antt =====
-- What a scan of the attribute files leaves in the session.
use art_store.Common.{
  ℕ, suc, ◌+◌, ◌%◌, ◌≡◌, refl, sym, ap, ◌∙◌, String, Bool, false, List, [], ◌∷◌, ◌++◌, Option, none,
  some, contains, ◌==◌, if◌then◌else◌, arith, Bool-cases, inl, inr, map, append-nil, append_assoc,
  length, length-append,
}
use art_store.Common.Json.{Json, Dict}
use art_store.CacheRebuild.Defs.Model.{Entry, AttrFileInfo, Env, commit, add}
use art_store.CacheRebuild.Defs.Scan.{
  Progress, counted, with_error, commit_some, made, add_entry, scan_file, scan,
}
use art_store.CacheRebuild.Commits.{commit-IsCommitted}

abbrev pub with_row : Option (Option Entry) → List (Option Entry) → List (Option Entry)
with_row none rows = rows
with_row (some e) rows = e ∷ rows

abbrev pub with_bad : String → Option (Option Entry) → List String → List String
with_bad path none bad = path ∷ bad
with_bad path (some e) bad = bad

with_row-append :
    (rows : List (Option Entry)) (m : Option (Option Entry)) (rest : List (Option Entry))
    → (rows ++ with_row m []) ++ rest ≡ rows ++ with_row m rest
with_row-append rows none rest = ap (λ (xs : List (Option Entry)). xs ++ rest) (append-nil rows)
with_row-append rows (some e) rest = append_assoc rows (e ∷ []) rest

with_bad-append :
    (bad : List String) (path : String) (m : Option (Option Entry)) (rest : List String)
    → (bad ++ with_bad path m []) ++ rest ≡ bad ++ with_bad path m rest
with_bad-append bad path none rest = append_assoc bad (path ∷ []) rest
with_bad-append bad path (some e) rest = ap (λ (xs : List String). xs ++ rest) (append-nil bad)

-- What the entries of the files that are not known make: their rows, and the paths of those that raise.
module _ (env : Env) (read : String → Option (Dict Json)) (known : List String) where
  abbrev pub made_rows : List AttrFileInfo → List (Option Entry)
  made_rows [] = []
  made_rows (i ∷ rest) =
      if contains i.file_id known
      then made_rows rest
      else with_row (made env read i) (made_rows rest)

  abbrev pub unreadable : List AttrFileInfo → List String
  unreadable [] = []
  unreadable (i ∷ rest) =
      if contains i.file_id known
      then unreadable rest
      else with_bad i.relative_path (made env read i) (unreadable rest)

-- The session after the scan of some files, from a table `base` on, as long as no commit has failed.
pub record Tracks (base : List Entry) (p : Progress) (rows : List (Option Entry))
    (bad : List String) : Type 0 where
  pub created : p.entries_created ≡ length rows
  pub whole_rows : p.db.broken ≡ false → map some p.db.table ++ p.db.pending ≡ map some base ++ rows
  pub whole_errors : p.db.broken ≡ false → p.errors ≡ bad

module _ (env : Env) (read : String → Option (Dict Json)) (answers : ℕ → Bool) where
  error-Tracks :
      (base : List Entry) (p : Progress) (rows : List (Option Entry)) (bad : List String)
      (path : String)
      → Tracks base p rows bad
      → Tracks base (with_error path p) rows (bad ++ path ∷ [])
  error-Tracks base p rows bad path t = record {
    created = t.created;
    whole_rows = t.whole_rows;
    whole_errors = λ h. ap (λ (xs : List String). xs ++ path ∷ []) (t.whole_errors h);
  }

  commit_some-Tracks :
      (base : List Entry) (p : Progress) (rows : List (Option Entry)) (bad : List String)
      (path : String)
      → Tracks base p rows bad
      → Tracks base (commit_some env read answers path p) rows bad
  unfolding commit_some
  commit_some-Tracks base p rows bad path t = elim (Bool-cases (p.entries_created % 100 == 0)) [
    | inr later ↦ rw later t
    | inl now ↦
        let after = commit (answers p.entries_created) p.db in
        let done = commit-IsCommitted (answers p.entries_created) p.db in
        rw now (elim (Bool-cases after.1) [
          | inl committed ↦
              let (whole, _, none_left, wrote) = done.wrote committed in
              rw committed (record {
                created = t.created;
                whole_rows = λ h. rw none_left (append-nil _) ∙ wrote ∙ t.whole_rows whole;
                whole_errors = λ h. t.whole_errors whole;
              })
          | inr failed ↦
              let broken = done.failed failed in
              rw failed (record {
                created = t.created;
                whole_rows = λ h. absurd (cc (sym h ∙ broken));
                whole_errors = λ h. absurd (cc (sym h ∙ broken));
              })
        ])
  ]

  add_entry-Tracks :
      (base : List Entry) (p : Progress) (rows : List (Option Entry)) (bad : List String)
      (path : String) (m : Option (Option Entry))
      → Tracks base p rows bad
      → Tracks base
          (add_entry env read answers path m p)
          (rows ++ with_row m [])
          (bad ++ with_bad path m [])
  unfolding add_entry add
  add_entry-Tracks base p rows bad path none t =
      rw (append-nil rows) (error-Tracks base p rows bad path t)
  add_entry-Tracks base p rows bad path (some e) t =
      let added = record p { db = add e p.db; entries_created = suc p.entries_created } in
      rw (append-nil bad) (
        commit_some-Tracks base added (rows ++ e ∷ []) bad path (record {
          created = omega (arith, t.created, length-append rows (e ∷ []));
          whole_rows = λ h.
              sym (append_assoc (map some p.db.table) p.db.pending (e ∷ []))
              ∙ ap (λ (xs : List (Option Entry)). xs ++ e ∷ []) (t.whole_rows h)
              ∙ append_assoc (map some base) rows (e ∷ []);
          whole_errors = t.whole_errors;
        }))

  counted-Tracks :
      (base : List Entry) (p : Progress) (rows : List (Option Entry)) (bad : List String)
      → Tracks base p rows bad
      → Tracks base (counted p) rows bad
  counted-Tracks base p rows bad t = record {
    created = t.created;
    whole_rows = t.whole_rows;
    whole_errors = t.whole_errors;
  }

  pub scan-Tracks :
      (known : List String) (infos : List AttrFileInfo) (base : List Entry) (p : Progress)
      (rows : List (Option Entry)) (bad : List String)
      → Tracks base p rows bad
      → Tracks base
          (scan env read answers known infos p)
          (rows ++ made_rows env read known infos)
          (bad ++ unreadable env read known infos)
  unfolding scan scan_file
  scan-Tracks known [] base p rows bad t = rw (append-nil rows, append-nil bad) t
  scan-Tracks known (i ∷ rest) base p rows bad t = elim (Bool-cases (contains i.file_id known)) [
    | inl skip ↦
        rw skip
          (scan-Tracks known rest base (counted p) rows bad (counted-Tracks base p rows bad t))
    | inr fresh ↦
        let m = made env read i in
        let ih =
          scan-Tracks known rest base (add_entry env read answers i.relative_path m (counted p))
            (rows ++ with_row m []) (bad ++ with_bad i.relative_path m [])
            (add_entry-Tracks base (counted p) rows bad i.relative_path m
              (counted-Tracks base p rows bad t)) in
        rw fresh (
          rw
            (
              with_row-append rows m (made_rows env read known rest),
              with_bad-append bad i.relative_path m (unreadable env read known rest),
            )
            at ih)
  ]

  commit_some-scanned :
      (path : String) (p : Progress)
      → (commit_some env read answers path p).attr_files_scanned ≡ p.attr_files_scanned
  unfolding commit_some
  commit_some-scanned path p = elim (Bool-cases (p.entries_created % 100 == 0)) [
    | inr later ↦ rw later refl
    | inl now ↦ rw now (elim (Bool-cases (commit (answers p.entries_created) p.db).1) [
      | inl committed ↦ rw committed refl
      | inr failed ↦ rw failed refl
    ])
  ]

  add_entry-scanned :
      (path : String) (m : Option (Option Entry)) (p : Progress)
      → (add_entry env read answers path m p).attr_files_scanned ≡ p.attr_files_scanned
  unfolding add_entry
  add_entry-scanned path none p = refl
  add_entry-scanned path (some e) p = commit_some-scanned path _

  scan_file-scanned :
      (known : List String) (i : AttrFileInfo) (p : Progress)
      → (scan_file env read answers known i p).attr_files_scanned ≡ suc p.attr_files_scanned
  unfolding scan_file
  scan_file-scanned known i p = elim (Bool-cases (contains i.file_id known)) [
    | inl skip ↦ rw skip refl
    | inr fresh ↦ rw fresh (add_entry-scanned i.relative_path (made env read i) (counted p))
  ]

  pub scan-scanned :
      (known : List String) (infos : List AttrFileInfo) (p : Progress)
      → (scan env read answers known infos p).attr_files_scanned
        ≡ p.attr_files_scanned + length infos
  unfolding scan
  scan-scanned known [] p = omega arith
  scan-scanned known (i ∷ rest) p = omega (
    arith,
    scan-scanned known rest (scan_file env read answers known i p),
    scan_file-scanned known i p,
  )
