-- ===== src/CacheRebuild/Inserts.antt =====
-- Which rows a commit inserts.
use art_store.Common.{
  All, ◌≡◌, ◌≢◌, refl, sym, ap, ◌∙◌, Bool, false, ◌||◌, List, [], ◌∷◌, ◌++◌, Option, none, some,
  ◌==◌, ==_iff, Bool-cases, inl, inr, map, append-nil, append_assoc, exists_in, str_eq, str_eq_iff,
}
use art_store.CacheRebuild.Defs.Model.{Entry, is_taken, insert_all}

-- No two rows share their id or the name of their content.
abbrev pub AreApart : List Entry → Type 0
AreApart [] = Unit
AreApart (e ∷ es) =
    All (λ x. (e.file_id ≢ x.file_id) × (e.storage_filename ≢ x.storage_filename)) es × AreApart es

differs :
    (e x : Entry)
    → e.file_id ≢ x.file_id
    → e.storage_filename ≢ x.storage_filename
    → (e.file_id == x.file_id || str_eq e.storage_filename x.storage_filename) ≡ false
differs e x ids names = elim (Bool-cases (e.file_id == x.file_id)) [
  | inl same ↦ absurd (ids ((==_iff e.file_id x.file_id).0 same))
  | inr other ↦ elim (Bool-cases (str_eq e.storage_filename x.storage_filename)) [
    | inl same ↦ absurd (names ((str_eq_iff e.storage_filename x.storage_filename).0 same))
    | inr apart ↦ rw (other, apart) refl
  ]
]

exists_in-append :
    (p : Entry → Bool) (xs : List Entry) (y : Entry)
    → exists_in p xs ≡ false
    → p y ≡ false
    → exists_in p (xs ++ y ∷ []) ≡ false
exists_in-append p [] y h last = rw last refl
exists_in-append p (x ∷ xs) y h last = elim (Bool-cases (p x)) [
  | inl here ↦ absurd (cc (rw (here, exists_in) at h))
  | inr other ↦ rw (other, exists_in) (exists_in-append p xs y (rw (other, exists_in) at h) last)
]

abbrev pub AreFree : List Entry → List Entry → Type 0
AreFree table = All (λ x. is_taken x table ≡ false)

AreFree-append :
    (table : List Entry) (e : Entry) (xs : List Entry)
    → AreFree table xs
    → All (λ x. (e.file_id ≢ x.file_id) × (e.storage_filename ≢ x.storage_filename)) xs
    → AreFree (table ++ e ∷ []) xs
AreFree-append table e [] free apart = tt
AreFree-append table e (x ∷ xs) (here, free) ((ids, names), apart) = (
  exists_in-append (λ r. r.file_id == x.file_id || str_eq r.storage_filename x.storage_filename)
      table e here (differs e x ids names),
  AreFree-append table e xs free apart,
)

-- Rows that are apart from one another and from the table are all inserted.
pub insert_all-apart :
    (xs table : List Entry)
    → AreFree table xs
    → AreApart xs
    → insert_all (map some xs) table ≡ some (table ++ xs)
unfolding insert_all
insert_all-apart [] table free apart = ap some (sym (append-nil table))
insert_all-apart (x ∷ xs) table (here, free) (apart, rest) = rw here (
    insert_all-apart xs (table ++ x ∷ []) (AreFree-append table x xs free apart) rest
    ∙ ap some (append_assoc table (x ∷ []) xs))

pub AreFree-nil : (xs : List Entry) → AreFree [] xs
AreFree-nil [] = tt
AreFree-nil (x ∷ xs) = (refl, AreFree-nil xs)

pub insert_all-append :
    (xs ys : List (Option Entry)) (table whole : List Entry)
    → insert_all (xs ++ ys) table ≡ some whole
    → (part : List Entry) × (insert_all xs table ≡ some part) × (insert_all ys part ≡ some whole)
unfolding insert_all
insert_all-append [] ys table whole h = (table, refl, h)
insert_all-append (none ∷ xs) ys table whole h = absurd (cc h)
insert_all-append (some x ∷ xs) ys table whole h = elim (Bool-cases (is_taken x table)) [
  | inl taken ↦ absurd (cc (rw taken at h))
  | inr free ↦ rw free (insert_all-append xs ys (table ++ x ∷ []) whole (rw free at h))
]
