-- ===== src/Common/Lists.antt =====
-- Lists measured by native numbers, and predicates over lists by recursion.
use art_store.Common.Tests.{Bool-cases}
use Prim.Native.Nat.{ℕ, zero, suc, ◌+◌, ◌-◌, ◌≤◌}
use mathlib.Core.Path.{ap, ◌∙◌, refl, ◌≡◌, sym}
use mathlib.Core.Bool.{Bool, true, false}
use mathlib.Core.List.{List, [], ◌∷◌, ◌++◌}
use mathlib.Core.Option.{Option, none, some}
use mathlib.Core.List.{Memᴰ}
use mathlib.Core.Logic.{inl, inr}
use native.Mathlib.Omega.{arith}

module _ {ℓ} {A : Type ℓ} where
  abbrev pub length : List A → ℕ
  length [] = 0
  length (x ∷ xs) = suc (length xs)

  abbrev pub take : ℕ → List A → List A
  take zero xs = []
  take (suc n) [] = []
  take (suc n) (x ∷ xs) = x ∷ take n xs

  abbrev pub drop : ℕ → List A → List A
  drop zero xs = xs
  drop (suc n) [] = []
  drop (suc n) (x ∷ xs) = drop n xs

  abbrev pub keep_if : (A → Bool) → List A → List A
  keep_if p [] = []
  keep_if p (x ∷ xs) = elim (p x) [ true ↦ x ∷ keep_if p xs | false ↦ keep_if p xs ]

  -- The first element that passes the test.
  abbrev pub find_first : (A → Bool) → List A → Option A
  find_first p [] = none
  find_first p (x ∷ xs) = elim (p x) [ true ↦ some x | false ↦ find_first p xs ]

  abbrev pub exists_in : (A → Bool) → List A → Bool
  exists_in p [] = false
  exists_in p (x ∷ xs) = elim (p x) [ true ↦ true | false ↦ exists_in p xs ]

  pub length-append : (xs ys : List A) → length (xs ++ ys) ≡ length xs + length ys
  length-append [] ys = omega arith
  length-append (x ∷ xs) ys = omega (arith, length-append xs ys)

  pub length-drop : (n : ℕ) (xs : List A) → length (drop n xs) ≡ length xs - n
  length-drop zero xs = omega arith
  length-drop (suc n) [] = omega arith
  length-drop (suc n) (x ∷ xs) = omega (arith, length-drop n xs)

  pub length-take-le : (n : ℕ) (xs : List A) → length (take n xs) ≤ n
  length-take-le zero xs = omega arith
  length-take-le (suc n) [] = omega arith
  length-take-le (suc n) (x ∷ xs) = omega (arith, length-take-le n xs)

  pub length-keep_if-le : (p : A → Bool) (xs : List A) → length (keep_if p xs) ≤ length xs
  length-keep_if-le p [] = omega arith
  length-keep_if-le p (x ∷ xs) = ground (arith, length-keep_if-le p xs)

module _ {ℓ κ} {A : Type ℓ} (P : A → Type κ) where
  abbrev pub All : List A → Type κ
  All [] = Unit
  All (x ∷ xs) = P x × All xs

  pub All-append : (xs ys : List A) → All xs → All ys → All (xs ++ ys)
  All-append [] ys hx hy = hy
  All-append (x ∷ xs) ys hx hy = (hx.0, All-append xs ys hx.1 hy)

-- Membership in the lists that the helpers give.
module _ {ℓ} {A : Type ℓ} where
  pub mem-take : (n : ℕ) (x : A) (ys : List A) → Memᴰ x (take n ys) → Memᴰ x ys
  mem-take zero x ys h = elim h [ ]
  mem-take (suc n) x [] h = h
  mem-take (suc n) x (y ∷ ys) (Memᴰ.head e) = Memᴰ.head e
  mem-take (suc n) x (y ∷ ys) (Memᴰ.tail h) = Memᴰ.tail (mem-take n x ys h)

  mem-cons_kept :
      (p : A → Bool) (x y : A) (zs ys : List A)
      → p y ≡ true
      → (Memᴰ x zs → Memᴰ x ys × (p x ≡ true))
      → Memᴰ x (y ∷ zs)
      → Memᴰ x (y ∷ ys) × (p x ≡ true)
  mem-cons_kept p x y zs ys kept rest (Memᴰ.head e) = (Memᴰ.head e, rw e kept)
  mem-cons_kept p x y zs ys kept rest (Memᴰ.tail m) =
      let (there, still) = rest m in (Memᴰ.tail there, still)

  pub mem-keep_if :
      (p : A → Bool) (x : A) (ys : List A) → Memᴰ x (keep_if p ys) → Memᴰ x ys × (p x ≡ true)
  mem-keep_if p x [] h = elim h [ ]
  mem-keep_if p x (y ∷ ys) h = elim (Bool-cases (p y)) [
    | inr out ↦
        let (there, kept) = mem-keep_if p x ys (rw (out, keep_if) at h) in (Memᴰ.tail there, kept)
    | inl kept ↦
        mem-cons_kept p x y (keep_if p ys) ys kept (mem-keep_if p x ys) (rw (kept, keep_if) at h)
  ]

  pub All-mem {κ} : (P : A → Type κ) (x : A) (ys : List A) → All P ys → Memᴰ x ys → P x
  All-mem P x [] h m = elim m [ ]
  All-mem P x (y ∷ ys) h (Memᴰ.head e) = rw e h.0
  All-mem P x (y ∷ ys) h (Memᴰ.tail m) = All-mem P x ys h.1 m

  pub find_first-mem :
      (p : A → Bool) (x : A) (ys : List A) → find_first p ys ≡ some x → Memᴰ x ys × (p x ≡ true)
  find_first-mem p x [] h = absurd (cc h)
  find_first-mem p x (y ∷ ys) h = elim (Bool-cases (p y)) [
    | inl here ↦
        let e : y ≡ x = cc (rw (here, find_first) at h) in (Memᴰ.head (sym e), rw (← e) here)
    | inr other ↦
        let (there, found) = find_first-mem p x ys (rw (other, find_first) at h) in
        (Memᴰ.tail there, found)
  ]

  pub mem-All {κ} : (P : A → Type κ) (ys : List A) → ((x : A) → Memᴰ x ys → P x) → All P ys
  mem-All P [] h = tt
  mem-All P (y ∷ ys) h = (h y (Memᴰ.head refl), mem-All P ys (λ x m. h x (Memᴰ.tail m)))

  pub exists_in-mem :
      (p : A → Bool) (x : A) (ys : List A) → Memᴰ x ys → p x ≡ true → exists_in p ys ≡ true
  exists_in-mem p x [] m h = elim m [ ]
  exists_in-mem p x (y ∷ ys) (Memᴰ.head e) h =
      let here : p y ≡ true = rw (← e) h in rw (here, exists_in) refl
  exists_in-mem p x (y ∷ ys) (Memᴰ.tail m) h = elim (Bool-cases (p y)) [
    | inl here ↦ rw (here, exists_in) refl
    | inr other ↦ rw (other, exists_in) (exists_in-mem p x ys m h)
  ]

  pub exists_in_mono :
      (p q : A → Bool) (ys : List A)
      → ((x : A) → p x ≡ true → q x ≡ true)
      → exists_in p ys ≡ true
      → exists_in q ys ≡ true
  exists_in_mono p q [] f h = h
  exists_in_mono p q (y ∷ ys) f h = elim (Bool-cases (p y)) [
    | inl here ↦ rw (f y here, exists_in) refl
    | inr other ↦ elim (Bool-cases (q y)) [
      | inl there ↦ rw (there, exists_in) refl
      | inr neither ↦ rw (neither, exists_in) (exists_in_mono p q ys f (rw (other, exists_in) at h))
    ]
  ]

  pub mem-in_keep_if :
      (p : A → Bool) (x : A) (ys : List A) → Memᴰ x ys → p x ≡ true → Memᴰ x (keep_if p ys)
  mem-in_keep_if p x [] m h = elim m [ ]
  mem-in_keep_if p x (y ∷ ys) (Memᴰ.head e) h =
      let kept : p y ≡ true = rw (← e) h in rw (kept, keep_if) (Memᴰ.head e)
  mem-in_keep_if p x (y ∷ ys) (Memᴰ.tail m) h = elim (Bool-cases (p y)) [
    | inl kept ↦ rw (kept, keep_if) (Memᴰ.tail (mem-in_keep_if p x ys m h))
    | inr out ↦ rw (out, keep_if) (mem-in_keep_if p x ys m h)
  ]

  pub find_first-none :
      (p : A → Bool) (ys : List A) → find_first p ys ≡ none → (x : A) → Memᴰ x ys → p x ≡ false
  find_first-none p [] h x m = elim m [ ]
  find_first-none p (y ∷ ys) h x (Memᴰ.head e) = elim (Bool-cases (p y)) [
    | inl here ↦ absurd (cc (rw (here, find_first) at h))
    | inr other ↦ ap p e ∙ other
  ]
  find_first-none p (y ∷ ys) h x (Memᴰ.tail m) = elim (Bool-cases (p y)) [
    | inl here ↦ absurd (cc (rw (here, find_first) at h))
    | inr other ↦ find_first-none p ys (rw (other, find_first) at h) x m
  ]
