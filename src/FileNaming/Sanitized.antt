-- ===== src/FileNaming/Sanitized.antt =====
-- What `sanitize_filename` gives.
use art_store.Common.{
  ◌↔◌, ℕ, ◌≡◌, refl, ◌⊎◌, inl, inr, Bool, true, false, not, ◌&&◌, [], ◌∷◌, map, ◌==◌, arith,
  Bool-cases,
}
use art_store.FileNaming.{
  Text, underscore, invalid, replaced, collapse, strip_start, strip_end, keep_start, is_underscore,
  sanitize_filename,
}

-- No code point is invalid in a file name.
abbrev pub all_valid : Text → Bool
all_valid [] = true
all_valid (c ∷ cs) = not (invalid c) && all_valid cs

-- No two underscores stand side by side.
abbrev pub no_runs : Text → Bool
no_runs [] = true
no_runs (c ∷ []) = true
no_runs (c ∷ d ∷ cs) = not (c == underscore && d == underscore) && no_runs (d ∷ cs)

abbrev pub starts : Text → Bool
starts [] = false
starts (c ∷ cs) = c == underscore

abbrev pub ends : Text → Bool
ends [] = false
ends (c ∷ []) = c == underscore
ends (c ∷ d ∷ cs) = ends (d ∷ cs)

abbrev pub IsClean : Text → Type 0
IsClean s = (all_valid s ≡ true) × (no_runs s ≡ true) × (starts s ≡ false) × (ends s ≡ false)

replaced-valid : (c : ℕ) → invalid (replaced c) ≡ false
replaced-valid c = ground arith

map-all_valid : (s : Text) → all_valid (map replaced s) ≡ true
map-all_valid [] = refl
map-all_valid (c ∷ cs) = rw (replaced-valid c) (map-all_valid cs)

collapse-all_valid : (s : Text) → all_valid s ≡ true → all_valid (collapse s) ≡ true
unfolding collapse
collapse-all_valid [] h = h
collapse-all_valid (c ∷ []) h = h
collapse-all_valid (c ∷ d ∷ cs) h = ground (arith, collapse-all_valid (d ∷ cs))

-- A text and its collapse start with the same code point.
collapse-starts : (c : ℕ) (cs : Text) → starts (collapse (c ∷ cs)) ≡ (c == underscore)
unfolding collapse
collapse-starts c [] = refl
collapse-starts c (d ∷ cs) = ground (arith, collapse-starts d cs)

cons-no_runs :
    (c : ℕ) (s : Text)
    → (c == underscore) ≡ false ⊎ starts s ≡ false
    → no_runs s ≡ true
    → no_runs (c ∷ s) ≡ true
cons-no_runs c [] h k = refl
cons-no_runs c (d ∷ cs) h k = ground arith

collapse-no_runs : (s : Text) → no_runs (collapse s) ≡ true
unfolding collapse
collapse-no_runs [] = refl
collapse-no_runs (c ∷ []) = refl
collapse-no_runs (c ∷ d ∷ cs) = elim (Bool-cases (c == underscore && d == underscore)) [
  | inl both ↦ rw both (collapse-no_runs (d ∷ cs))
  | inr apart ↦ rw apart (
      cons-no_runs c (collapse (d ∷ cs)) (ground (arith, collapse-starts d cs))
        (collapse-no_runs (d ∷ cs)))
]

strip_start-all_valid :
    (s : Text) → all_valid s ≡ true → all_valid (strip_start is_underscore s) ≡ true
unfolding strip_start
strip_start-all_valid [] h = h
strip_start-all_valid (c ∷ cs) h = ground (arith, strip_start-all_valid cs)

tail-no_runs : (c : ℕ) (s : Text) → no_runs (c ∷ s) ≡ true → no_runs s ≡ true
tail-no_runs c [] h = refl
tail-no_runs c (d ∷ s) h = ground arith

strip_start-no_runs : (s : Text) → no_runs s ≡ true → no_runs (strip_start is_underscore s) ≡ true
unfolding strip_start
strip_start-no_runs [] h = h
strip_start-no_runs (c ∷ cs) h = ground (arith, strip_start-no_runs cs (tail-no_runs c cs h))

strip_start-starts : (s : Text) → starts (strip_start is_underscore s) ≡ false
unfolding strip_start
strip_start-starts [] = refl
strip_start-starts (c ∷ cs) = ground (arith, strip_start-starts cs)

keep-all_valid :
    (c : ℕ) (s : Text) → all_valid (c ∷ s) ≡ true → all_valid (keep_start is_underscore c s) ≡ true
keep-all_valid c [] h = ground arith
keep-all_valid c (d ∷ s) h = h

keep-no_runs :
    (c : ℕ) (s : Text) → no_runs (c ∷ s) ≡ true → no_runs (keep_start is_underscore c s) ≡ true
keep-no_runs c [] h = ground arith
keep-no_runs c (d ∷ s) h = h

keep-starts :
    (c : ℕ) (s : Text) → (c == underscore) ≡ false → starts (keep_start is_underscore c s) ≡ false
keep-starts c [] h = ground arith
keep-starts c (d ∷ s) h = h

keep-ends : (c : ℕ) (s : Text) → ends s ≡ false → ends (keep_start is_underscore c s) ≡ false
keep-ends c [] h = ground arith
keep-ends c (d ∷ s) h = h

strip_end-all_valid : (s : Text) → all_valid s ≡ true → all_valid (strip_end is_underscore s) ≡ true
unfolding strip_end
strip_end-all_valid [] h = h
strip_end-all_valid (c ∷ cs) h =
    keep-all_valid c (strip_end is_underscore cs) (ground (arith, strip_end-all_valid cs))

strip_end-ends : (s : Text) → ends (strip_end is_underscore s) ≡ false
unfolding strip_end
strip_end-ends [] = refl
strip_end-ends (c ∷ cs) = keep-ends c (strip_end is_underscore cs) (strip_end-ends cs)

-- What is left of a text by `strip_end` starts as the text does, or is empty.
strip_end-starts : (s : Text) → starts s ≡ false → starts (strip_end is_underscore s) ≡ false
unfolding strip_end
strip_end-starts [] h = h
strip_end-starts (c ∷ cs) h = keep-starts c (strip_end is_underscore cs) h

apart-strip_end :
    (c : ℕ) (cs : Text)
    → no_runs (c ∷ cs) ≡ true
    → (c == underscore) ≡ false ⊎ starts (strip_end is_underscore cs) ≡ false
unfolding strip_end
apart-strip_end c [] h = inr refl
apart-strip_end c (d ∷ cs) h = elim (Bool-cases (c == underscore)) [
  | inr other ↦ inl other
  | inl same ↦ inr (strip_end-starts (d ∷ cs) (ground arith))
]

strip_end-no_runs : (s : Text) → no_runs s ≡ true → no_runs (strip_end is_underscore s) ≡ true
unfolding strip_end
strip_end-no_runs [] h = h
strip_end-no_runs (c ∷ cs) h = keep-no_runs c (strip_end is_underscore cs) (
    cons-no_runs c (strip_end is_underscore cs) (apart-strip_end c cs h)
      (strip_end-no_runs cs (tail-no_runs c cs h)))

-- A sanitised name holds no invalid character and no two underscores side by side, and neither
-- starts nor ends with an underscore.
pub sanitize_filename-IsClean : (s : Text) → IsClean (sanitize_filename s)
unfolding sanitize_filename
sanitize_filename-IsClean s =
    let t = collapse (map replaced s) in
    let u = strip_start is_underscore t in
    let valid = strip_start-all_valid t (collapse-all_valid (map replaced s) (map-all_valid s)) in
    let single = strip_start-no_runs t (collapse-no_runs (map replaced s)) in
    (
      strip_end-all_valid u valid,
      strip_end-no_runs u single,
      strip_end-starts u (strip_start-starts t),
      strip_end-ends u,
    )

map-clean : (s : Text) → all_valid s ≡ true → map replaced s ≡ s
map-clean [] h = refl
map-clean (c ∷ cs) h =
    let same : replaced c ≡ c = ground arith in rw (same, map-clean cs (ground arith)) refl

collapse-clean : (s : Text) → no_runs s ≡ true → collapse s ≡ s
unfolding collapse
collapse-clean [] h = refl
collapse-clean (c ∷ []) h = refl
collapse-clean (c ∷ d ∷ cs) h = ground (arith, collapse-clean (d ∷ cs))

strip_start-clean : (s : Text) → starts s ≡ false → strip_start is_underscore s ≡ s
unfolding strip_start
strip_start-clean [] h = refl
strip_start-clean (c ∷ cs) h = ground arith

keep-clean : (c : ℕ) (s : Text) → ends (c ∷ s) ≡ false → keep_start is_underscore c s ≡ c ∷ s
keep-clean c [] h = ground arith
keep-clean c (d ∷ s) h = refl

strip_end-clean : (s : Text) → ends s ≡ false → strip_end is_underscore s ≡ s
unfolding strip_end
strip_end-clean [] h = refl
strip_end-clean (c ∷ []) h = ground arith
strip_end-clean (c ∷ d ∷ cs) h = rw (strip_end-clean (d ∷ cs) h) refl

sanitize_filename-clean : (s : Text) → IsClean s → sanitize_filename s ≡ s
unfolding sanitize_filename
sanitize_filename-clean s (valid, single, start, end_) =
    rw
      (
        map-clean s valid,
        collapse-clean s single,
        strip_start-clean s start,
        strip_end-clean s end_,
      )
      refl

-- A name is left as it is exactly if it is clean.
pub sanitize_filename-IsClean_iff : (s : Text) → (sanitize_filename s ≡ s) ↔ IsClean s
sanitize_filename-IsClean_iff s =
    (λ same. rw (← same) (sanitize_filename-IsClean s), sanitize_filename-clean s)
