-- ===== src/Common/Sorting.antt =====
-- Sorting by insertion before the first element that the new one goes before.
use art_store.Common.Tests.{if◌then◌else◌, Bool-cases}
use art_store.Common.Lists.{All, All-mem, mem-All, find_first}
use mathlib.Core.Option.{some}
use mathlib.Core.Path.{◌≡◌, ap, ◌∙◌}
use mathlib.Core.Logic.{◌⊎◌, inl, inr}
use mathlib.Core.Bool.{Bool, true, false}
use mathlib.Core.List.{List, [], ◌∷◌, Memᴰ}

module _ {ℓ} {A : Type ℓ} (first : A → A → Bool) where
  abbrev pub insert_where : A → List A → List A
  insert_where x [] = x ∷ []
  insert_where x (y ∷ ys) = if first x y then x ∷ y ∷ ys else y ∷ insert_where x ys

  abbrev pub sort_where : List A → List A
  sort_where [] = []
  sort_where (x ∷ xs) = insert_where x (sort_where xs)

  under : (z x : A) (xs ys : List A) → (Memᴰ z xs → Memᴰ z ys) → Memᴰ z (x ∷ xs) → Memᴰ z (x ∷ ys)
  under z x xs ys f (Memᴰ.head e) = Memᴰ.head e
  under z x xs ys f (Memᴰ.tail n) = Memᴰ.tail (f n)

  swap : (z x y : A) (ys : List A) → Memᴰ z (x ∷ y ∷ ys) → Memᴰ z (y ∷ x ∷ ys)
  swap z x y ys (Memᴰ.head e) = Memᴰ.tail (Memᴰ.head e)
  swap z x y ys (Memᴰ.tail (Memᴰ.head e)) = Memᴰ.head e
  swap z x y ys (Memᴰ.tail (Memᴰ.tail n)) = Memᴰ.tail (Memᴰ.tail n)

  pub mem-insert_where : (z x : A) (ys : List A) → Memᴰ z (insert_where x ys) → Memᴰ z (x ∷ ys)
  mem-insert_where z x [] m = m
  mem-insert_where z x (y ∷ ys) m = elim (Bool-cases (first x y)) [
    | inl now ↦ rw (now, insert_where) at m
    | inr later ↦ swap z y x ys (
        under z y (insert_where x ys) (x ∷ ys) (mem-insert_where z x ys)
          (rw (later, insert_where) at m))
  ]

  mem-in_insert_where : (z x : A) (ys : List A) → Memᴰ z (x ∷ ys) → Memᴰ z (insert_where x ys)
  mem-in_insert_where z x [] m = m
  mem-in_insert_where z x (y ∷ ys) m = elim (Bool-cases (first x y)) [
    | inl now ↦ rw (now, insert_where) m
    | inr later ↦
        rw (later, insert_where)
          (under z y (x ∷ ys) (insert_where x ys) (mem-in_insert_where z x ys) (swap z x y ys m))
  ]

  pub mem-sort_where : (z : A) (xs : List A) → Memᴰ z (sort_where xs) → Memᴰ z xs
  mem-sort_where z [] m = m
  mem-sort_where z (x ∷ xs) m =
      under z x (sort_where xs) xs (mem-sort_where z xs) (mem-insert_where z x (sort_where xs) m)

  pub mem-in_sort_where : (z : A) (xs : List A) → Memᴰ z xs → Memᴰ z (sort_where xs)
  mem-in_sort_where z [] m = m
  mem-in_sort_where z (x ∷ xs) m =
      mem-in_insert_where z x (sort_where xs)
        (under z x xs (sort_where xs) (mem-in_sort_where z xs) m)

module _ {ℓ κ} {A : Type ℓ} (R : A → A → Type κ) where
  -- Each element stands in the relation to all after it.
  abbrev pub IsSorted : List A → Type (ℓ ⊔ κ)
  IsSorted [] = Unit
  IsSorted (x ∷ xs) = All (R x) xs × IsSorted xs

  module _ (first : A → A → Bool) (before : (x y : A) → first x y ≡ true → R x y)
      (after : (x y : A) → first x y ≡ false → R y x)
      (trans : (x y z : A) → R x y → R y z → R x z) where
    insert_where-IsSorted : (x : A) (ys : List A) → IsSorted ys → IsSorted (insert_where first x ys)
    insert_where-IsSorted x [] h = (tt, tt)
    insert_where-IsSorted x (y ∷ ys) h = elim (Bool-cases (first x y)) [
      | inl now ↦
          rw (now, insert_where)
            (
              (
                before x y now,
                mem-All (R x) ys (λ z m. trans x y z (before x y now) (All-mem (R y) z ys h.0 m)),
              ),
              h,
            )
      | inr later ↦
          rw (later, insert_where)
            (
              mem-All (R y) (insert_where first x ys) (λ z m.
                  All-mem (R y) z (x ∷ ys) (after x y later, h.0)
                    (mem-insert_where first z x ys m)),
              insert_where-IsSorted x ys h.1,
            )
    ]

    pub sort_where-IsSorted : (xs : List A) → IsSorted (sort_where first xs)
    sort_where-IsSorted [] = tt
    sort_where-IsSorted (x ∷ xs) =
        insert_where-IsSorted x (sort_where first xs) (sort_where-IsSorted xs)

  -- The first element of a sorted list that passes a test stands in the relation to all others that do.
  pub find_first-least :
      (p : A → Bool) (x : A) (xs : List A)
      → IsSorted xs
      → find_first p xs ≡ some x
      → (y : A) → Memᴰ y xs
      → p y ≡ true
      → (y ≡ x) ⊎ R x y
  find_first-least p x [] h e y m q = elim m [ ]
  find_first-least p x (z ∷ zs) h e y m q = elim (Bool-cases (p z)) [
    | inl here ↦ least_here z zs h.0 (cc (rw (here, find_first) at e)) y m
    | inr other ↦
        least_later z zs y m q other (find_first-least p x zs h.1 (rw (other, find_first) at e) y)
  ]
    where
      least_here :
          (z : A) (zs : List A) → All (R z) zs → z ≡ x → (y : A) → Memᴰ y (z ∷ zs) → (y ≡ x) ⊎ R x y
      least_here z zs all same y (Memᴰ.head e) = inl (e ∙ same)
      least_here z zs all same y (Memᴰ.tail m) = inr (rw (← same) (All-mem (R z) y zs all m))

      least_later :
          (z : A) (zs : List A) (y : A)
          → Memᴰ y (z ∷ zs)
          → p y ≡ true
          → p z ≡ false
          → (Memᴰ y zs → p y ≡ true → (y ≡ x) ⊎ R x y)
          → (y ≡ x) ⊎ R x y
      least_later z zs y (Memᴰ.head e) q other rest = absurd (cc (ap p e, q, other))
      least_later z zs y (Memᴰ.tail m) q other rest = rest m q
