-- ===== src/PasswordPolicy/History.antt =====
-- How long a password is refused.
use art_store.Common.{
  ℕ, zero, suc, ◌+◌, ◌-◌, ◌<◌, ◌≤◌, ◌≡◌, refl, ap, String, Bool, true, List, [], ◌∷◌, ◌++◌, length,
  length-append, length-drop, drop, exists_in, ltb, if◌then◌else◌, arith, append_assoc, Bool-cases,
  inl, inr, ltb-false,
}
use art_store.PasswordPolicy.{Policy, last_of, check_reuse, add_to_history}

drop-within : (k : ℕ) (xs ys : List String) → k ≤ length xs → drop k (xs ++ ys) ≡ drop k xs ++ ys
drop-within zero xs ys h = refl
drop-within (suc k) [] ys h = absurd (omega arith)
drop-within (suc k) (x ∷ xs) ys h = drop-within k xs ys (omega arith)

exists_in-middle :
    (p : String → Bool) (xs : List String) (y : String) (ys : List String)
    → p y ≡ true
    → exists_in p (xs ++ y ∷ ys) ≡ true
exists_in-middle p [] y ys h = rw h refl
exists_in-middle p (x ∷ xs) y ys h = ground (arith, exists_in-middle p xs y ys h)

-- The hash stands in the history, with at most `m` after it.
abbrev pub Remembered : String → ℕ → List String → Type 0
Remembered h m history =
    (before after : List String) × (history ≡ before ++ h ∷ after) × (length after ≤ m)

last_of-Remembered :
    (n m : ℕ) (h : String) (history : List String)
    → m < n
    → Remembered h m history
    → Remembered h m (last_of n history)
last_of-Remembered zero m h history small r = r
last_of-Remembered (suc n) m h history small (before, after, e, few) =
    let k = length (before ++ h ∷ after) - suc n in
    let within : k ≤ length before = omega (arith, length-append before (h ∷ after)) in
    (drop k before, after, rw e (drop-within k before (h ∷ after) within), few)

cut-Remembered :
    (n m : ℕ) (h : String) (updated : List String)
    → m < n
    → Remembered h m updated
    → Remembered h m (if ltb n (length updated) then last_of n updated else updated)
cut-Remembered n m h updated small r = elim (Bool-cases (ltb n (length updated))) [
  | inl long ↦ rw long (last_of-Remembered n m h updated small r)
  | inr short ↦ rw short r
]

-- `add_to_history` for one hash after another.
unfoldable pub add_all : Policy → List String → List String → List String
unfolding add_to_history
add_all p [] history = history
add_all p (h ∷ hs) history = add_all p hs (add_to_history p h history)

add_to_history-Remembered :
    (p : Policy) (m : ℕ) (h x : String) (history : List String)
    → suc m < p.history_size
    → Remembered h m history
    → Remembered h (suc m) (add_to_history p x history)
unfolding add_to_history
add_to_history-Remembered p m h x history small (before, after, e, few) =
    cut-Remembered p.history_size (suc m) h (history ++ x ∷ []) small (
      before,
      after ++ x ∷ [],
      rw e (append_assoc before (h ∷ after) (x ∷ [])),
      omega (arith, length-append after (x ∷ [])),
    )

add_to_history-new :
    (p : Policy) (h : String) (history : List String)
    → 0 < p.history_size
    → Remembered h 0 (add_to_history p h history)
unfolding add_to_history
add_to_history-new p h history kept =
    cut-Remembered p.history_size 0 h (history ++ h ∷ []) kept (history, [], refl, omega arith)

check_reuse-Remembered :
    (verify : String → Bool) (p : Policy) (m : ℕ) (h : String) (history : List String)
    → m < p.history_size
    → Remembered h m history
    → verify h ≡ true
    → check_reuse verify p history ≡ true
unfolding check_reuse
check_reuse-Remembered verify p m h [] small (before, after, e, few) v =
    absurd (omega (arith, length-append before (h ∷ after), ap length e))
check_reuse-Remembered verify p m h (y ∷ ys) small r v =
    let (before, after, e, _) = last_of-Remembered p.history_size m h (y ∷ ys) small r in
    rw e (exists_in-middle verify before h after v)

add_all-Remembered :
    (p : Policy) (h : String) (later : List String) (m n : ℕ) (history : List String)
    → n ≡ m + length later
    → n < p.history_size
    → Remembered h m history
    → Remembered h n (add_all p later history)
unfolding add_all
add_all-Remembered p h [] m n history e small r = let same : n ≡ m = omega arith in rw same r
add_all-Remembered p h (x ∷ xs) m n history e small r =
    add_all-Remembered p h xs (suc m) n (add_to_history p x history) (omega arith) small
      (add_to_history-Remembered p m h x history (omega arith) r)

-- A password that was added to the history is refused until as many later ones were added as the
-- history holds.
pub check_reuse-add_all :
    (verify : String → Bool) (p : Policy) (h : String) (history later : List String)
    → length later < p.history_size
    → verify h ≡ true
    → check_reuse verify p (add_all p later (add_to_history p h history)) ≡ true
check_reuse-add_all verify p h history later small v =
    check_reuse-Remembered verify p (length later) h (add_all p later (add_to_history p h history))
      small
      (add_all-Remembered p h later 0 (length later) (add_to_history p h history) (omega arith)
        small (add_to_history-new p h history (omega arith)))
      v

length-last_of-le : (n : ℕ) (xs : List String) → 0 < n → length (last_of n xs) ≤ n
length-last_of-le zero xs h = absurd (omega arith)
length-last_of-le (suc n) xs h = omega (arith, length-drop (length xs - suc n) xs)

-- A history that holds at least one hash never grows beyond its size.
pub length-add_to_history-le :
    (p : Policy) (h : String) (history : List String)
    → 0 < p.history_size
    → length (add_to_history p h history) ≤ p.history_size
unfolding add_to_history
length-add_to_history-le p h history kept =
    let updated = history ++ h ∷ [] in
    elim (Bool-cases (ltb p.history_size (length updated))) [
      | inl long ↦ rw long (length-last_of-le p.history_size updated kept)
      | inr short ↦ rw short (ltb-false p.history_size (length updated) short)
    ]
