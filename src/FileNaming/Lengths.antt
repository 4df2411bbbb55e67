-- ===== src/FileNaming/Lengths.antt =====
-- The length of a generated name.
use art_store.Common.{
  ltb→lt, leb-false, ltb-false, ◌∙◌, sym, ap, zero, suc, suc, ℕ, ◌+◌, ◌-◌, ◌<◌, ◌≤◌, ◌≡◌, refl,
  true, false, [], ◌∷◌, ◌++◌, length, take, ltb, leb, if◌then◌else◌, arith, length-append, ok,
  Bool-cases, inl, inr,
}
use art_store.FileNaming.{
  Text, Parts, underscore, dots, truncate_stem, joined, fixed_length, assemble,
}

length-take : (n : ℕ) (s : Text) → n ≤ length s → length (take n s) ≡ n
length-take zero s h = refl
length-take (suc n) [] h = absurd (omega arith)
length-take (suc n) (c ∷ cs) h = omega (arith, length-take n cs (omega arith))

length-joined :
    (stem : Text) (p : Parts)
    → length (joined stem p.username p.timestamp p.uuid ++ p.extension)
      ≡ length stem + fixed_length p
length-joined stem p =
    rw
      (
        length-append (joined stem p.username p.timestamp p.uuid) p.extension,
        length-append stem
            (underscore ∷ (p.username ++ underscore ∷ (p.timestamp ++ underscore ∷ p.uuid))),
        length-append p.username (underscore ∷ (p.timestamp ++ underscore ∷ p.uuid)),
        length-append p.timestamp (underscore ∷ p.uuid),
      )
      (omega arith)

length-truncate_stem :
    (stem : Text) (n : ℕ) → 3 ≤ n → n < length stem → length (truncate_stem stem n) ≡ n
unfolding truncate_stem
length-truncate_stem stem n wide h =
    let over : leb (length stem) n ≡ false = ground arith in
    let room : leb 3 n ≡ true = ground arith in
    rw (over, room)
      (length-append (take (n - 3) stem) dots
        ∙ omega (arith, length-take (n - 3) stem (omega arith)))

length-truncate_stem_narrow :
    (stem : Text) (n : ℕ)
    → 0 < n
    → n < 3
    → n < length stem
    → length (truncate_stem stem n) ≡ length stem + n
unfolding truncate_stem
length-truncate_stem_narrow stem n more narrow h =
    let over : leb (length stem) n ≡ false = ground arith in
    let tight : leb 3 n ≡ false = ground arith in
    rw (over, tight)
      (length-append (take (length stem - (3 - n)) stem) dots
        ∙ omega (arith, length-take (length stem - (3 - n)) stem (omega arith)))

abbrev cut_stem : Text → ℕ → Text
cut_stem stem n = if ltb n (length stem) then truncate_stem stem n else stem

length-cut_stem-le : (stem : Text) (n : ℕ) → 3 ≤ n → length (cut_stem stem n) ≤ n
length-cut_stem-le stem n wide = elim (Bool-cases (ltb n (length stem))) [
  | inl long ↦
      rw long (omega (arith, length-truncate_stem stem n wide (ltb→lt n (length stem) long)))
  | inr fits ↦ rw fits (ltb-false n (length stem) fits)
]

length-cut_stem_overlong :
    (stem : Text) (n : ℕ)
    → 0 < n
    → n < 3
    → n < length stem
    → length (cut_stem stem n) ≡ length stem + n
length-cut_stem_overlong stem n more narrow h =
    let long : ltb n (length stem) ≡ true = ground arith in
    rw long (length-truncate_stem_narrow stem n more narrow h)

assemble-length :
    (stem : Text) (p : Parts) (m : ℕ) (name : Text)
    → assemble stem p m ≡ ok name
    → (fixed_length p < m)
      × (length name ≡ length (cut_stem stem (m - fixed_length p)) + fixed_length p)
unfolding assemble
assemble-length stem p m name h = elim (Bool-cases (leb m (fixed_length p))) [
  | inl full ↦ absurd (cc (rw full at h))
  | inr room ↦
      let cut = cut_stem stem (m - fixed_length p) in
      let e : joined cut p.username p.timestamp p.uuid ++ p.extension ≡ name = cc (rw room at h) in
      (leb-false m (fixed_length p) room, ap length (sym e) ∙ length-joined cut p)
]

-- Where the parts that are not cut leave room for three characters or more, every name that is
-- generated has at most the length allowed.
pub length-assemble-le :
    (stem : Text) (p : Parts) (max_total_length : ℕ) (name : Text)
    → fixed_length p + 3 ≤ max_total_length
    → assemble stem p max_total_length ≡ ok name
    → length name ≤ max_total_length
unfolding assemble
length-assemble-le stem p m name room h =
    let (below, size) = assemble-length stem p m name h in
    omega (arith, size, length-cut_stem-le stem (m - fixed_length p) (omega arith))

-- Where the parts that are not cut leave room for one or two characters and the stem is longer
-- than this room, a name that is generated has the length of the whole stem more than is allowed.
pub length-assemble_overlong :
    (stem : Text) (p : Parts) (max_total_length : ℕ) (name : Text)
    → max_total_length < fixed_length p + 3
    → max_total_length - fixed_length p < length stem
    → assemble stem p max_total_length ≡ ok name
    → length name ≡ max_total_length + length stem
unfolding assemble
length-assemble_overlong stem p m name tight long h =
    let (below, size) = assemble-length stem p m name h in
    omega (
      arith,
      size,
      length-cut_stem_overlong stem (m - fixed_length p) (omega arith) (omega arith) long,
    )
