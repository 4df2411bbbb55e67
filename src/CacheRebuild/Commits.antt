-- ===== src/CacheRebuild/Commits.antt =====
-- What a commit of the session does to the table.
use art_store.Common.{
  ◌≡◌, refl, sym, ap, ◌∙◌, Bool, true, false, not, ◌&&◌, List, [], ◌∷◌, ◌++◌, Option, none, some,
  Bool-cases, inl, inr, map, append-nil, append_assoc, map-append,
}
use art_store.CacheRebuild.Defs.Model.{Entry, Db, commit, insert_all, written, is_taken}

insert_all-rows :
    (pending : List (Option Entry)) (table table' : List Entry)
    → insert_all pending table ≡ some table'
    → map some table' ≡ map some table ++ pending
unfolding insert_all
insert_all-rows [] table table' h = ap (map some) (cc h) ∙ sym (append-nil (map some table))
insert_all-rows (none ∷ rest) table table' h = absurd (cc h)
insert_all-rows (some e ∷ rest) table table' h = elim (Bool-cases (is_taken e table)) [
  | inl taken ↦ absurd (cc (rw taken at h))
  | inr free ↦
      insert_all-rows rest (table ++ e ∷ []) table' (rw free at h)
      ∙ ap (λ (xs : List (Option Entry)). xs ++ rest) (map-append some table (e ∷ []))
      ∙ append_assoc (map some table) (some e ∷ []) rest
]

-- A commit that succeeds has written every pending row, and one that fails leaves the session inactive.
pub record IsCommitted (db : Db) (after : Db × Bool) : Type 0 where
  pub wrote :
      after.1 ≡ true
      → (db.broken ≡ false)
        × (after.0.broken ≡ false)
        × (after.0.pending ≡ [])
        × (map some after.0.table ≡ map some db.table ++ db.pending)
  pub failed : after.1 ≡ false → after.0.broken ≡ true

written-IsCommitted :
    (db : Db) (o : Option (List Entry))
    → insert_all db.pending db.table ≡ o
    → db.broken ≡ false
    → IsCommitted db (written db o)
unfolding written
written-IsCommitted db none e whole = record { wrote = λ h. absurd (cc h); failed = λ h. refl }
written-IsCommitted db (some table) e whole = record {
  wrote = λ h. (whole, whole, refl, insert_all-rows db.pending db.table table e);
  failed = λ h. absurd (cc h);
}

and_not : (a b : Bool) → (a && not b) ≡ true → b ≡ false
and_not true false h = refl
and_not true true h = cc
and_not false b h = cc

pub commit-IsCommitted : (answered : Bool) (db : Db) → IsCommitted db (commit answered db)
unfolding commit
commit-IsCommitted answered db = elim (Bool-cases (answered && not db.broken)) [
  | inl try_ ↦ rw try_ (
      written-IsCommitted db (insert_all db.pending db.table) refl
        (and_not answered db.broken try_))
  | inr refused ↦ rw refused (record { wrote = λ h. absurd (cc h); failed = λ h. refl })
]
