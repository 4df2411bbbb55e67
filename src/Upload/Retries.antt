-- ===== src/Upload/Retries.antt =====
-- Which elements an upload sends the file to, and how it ends.
use art_store.Common.{
  ℕ, zero, suc, ◌+◌, ◌≤◌, ◌<◌, ◌≡◌, refl, ap, ◌∙◌, String, false, List, [], ◌∷◌, Option, none, some,
  contains, ltb, ◌==◌, arith, length, Bool-cases, ==-cases, ==_iff, inl, inr, Result, ok, raise,
}
use art_store.Upload.{
  ElementInfo, RetentionPolicy, Network, PostAnswer, uploaded, http_error, unreachable, UploadError,
  insufficient_storage, element_unavailable, no_available_storage, size_limit_exceeded, Uploaded,
  answer_result, exhausted, after_post, after_selection, attempts, unless_none, upload_file,
  default_max_retries, max_file_size, select_storage_element,
}
use art_store.Upload.Selection.{select_storage_element-allowed}

-- No element stands twice in the list, and none in the excluded ones.
abbrev pub IsFresh : List String → List String → Type 0
IsFresh excluded [] = Unit
IsFresh excluded (x ∷ xs) = (contains x excluded ≡ false) × IsFresh (x ∷ excluded) xs

-- The answer that ends an upload, after `posts` of them.
module _ (n : Network) where
  abbrev pub EndsWith : ℕ → Result UploadError String → Type 0
  EndsWith posts (ok element) = (k : ℕ) × ((posts ≡ suc k) × (n.post k ≡ uploaded))
  EndsWith posts (raise element_unavailable) =
      (k : ℕ) × ((posts ≡ suc k) × (n.post k ≡ uploaded → ⊥))
  EndsWith posts (raise (insufficient_storage e)) =
      (k : ℕ) × ((posts ≡ suc k) × (n.post k ≡ http_error 507))
  EndsWith posts (raise no_available_storage) = posts ≡ 0
  EndsWith posts (raise size_limit_exceeded) = posts ≡ 0

  -- An upload with at most `left` further POSTs after `turn` of them.
  pub record IsBounded (left turn : ℕ) (excluded : List String) (r : Uploaded) : Type 0 where
    pub few : length r.sent ≤ left
    pub fresh : IsFresh excluded r.sent
    pub ended : EndsWith (turn + length r.sent) r.outcome
    pub all_before : (k : ℕ) → turn ≤ k → suc k < turn + length r.sent → n.post k ≡ http_error 507

  -- What the last 507 says before POST number `turn`.
  abbrev LastOf : ℕ → Option String → Type 0
  LastOf turn none = turn ≡ 0
  LastOf turn (some e) = (k : ℕ) × ((turn ≡ suc k) × (n.post k ≡ http_error 507))

  stopped-IsBounded :
      (left turn : ℕ) (excluded : List String) (last : Option String)
      → LastOf turn last
      → IsBounded left turn excluded (record { outcome = raise (exhausted n last); sent = [] })
  stopped-IsBounded left turn excluded none h = record {
    few = omega arith;
    fresh = tt;
    ended = omega (arith, h);
    all_before = λ k a b. absurd (omega arith);
  }
  stopped-IsBounded left turn excluded (some e) h =
      let (k, (t, p)) = h in
      record {
        few = omega arith;
        fresh = tt;
        ended = (k, (omega (arith, t), p));
        all_before = λ k a b. absurd (omega arith);
      }

  one-IsBounded :
      (left turn : ℕ) (excluded : List String) (element : String) (r : Result UploadError String)
      → contains element excluded ≡ false
      → EndsWith (turn + 1) r
      → IsBounded (suc left) turn excluded (record { outcome = r; sent = element ∷ [] })
  one-IsBounded left turn excluded element r allowed h = record {
    few = omega arith;
    fresh = (allowed, tt);
    ended = h;
    all_before = λ k a b. absurd (omega arith);
  }

  next-IsBounded :
      (left turn : ℕ) (excluded : List String) (element : String) (r : Uploaded)
      → contains element excluded ≡ false
      → n.post turn ≡ http_error 507
      → IsBounded left (suc turn) (element ∷ excluded) r
      → IsBounded (suc left) turn excluded (record { outcome = r.outcome; sent = element ∷ r.sent })
  next-IsBounded left turn excluded element r allowed full h = record {
    few = omega (arith, h.few);
    fresh = (allowed, h.fresh);
    ended =
        let shift : turn + suc (length r.sent) ≡ suc turn + length r.sent = omega arith in
        rw shift h.ended;
    all_before = λ k a b. elim (==-cases k turn) [
      | inl same ↦ rw same full
      | inr later ↦ h.all_before k (omega (arith, later)) (omega arith)
    ];
  }

  -- The POST of an attempt, and the attempts after a 507.
  post-IsBounded :
      (left turn : ℕ) (excluded : List String) (element : String) (v : PostAnswer) (next : Uploaded)
      → contains element excluded ≡ false
      → n.post turn ≡ v
      → (n.post turn ≡ http_error 507 → IsBounded left (suc turn) (element ∷ excluded) next)
      → IsBounded (suc left) turn excluded (after_post n element (answer_result n element v) next)
  post-IsBounded left turn excluded element uploaded next allowed e more =
      one-IsBounded left turn excluded element (ok element) allowed (turn, (omega arith, e))
  post-IsBounded left turn excluded element unreachable next allowed e more =
      one-IsBounded left turn excluded element (raise element_unavailable) allowed
        (turn, (omega arith, λ h. cc (e, h)))
  post-IsBounded left turn excluded element (http_error code) next allowed e more =
      elim (Bool-cases (code == 507)) [
        | inl full ↦
            let answered : n.post turn ≡ http_error 507 =
              e ∙ ap http_error ((==_iff code 507).0 full) in
            rw full
              (next-IsBounded left turn excluded element next allowed answered (more answered))
        | inr other ↦ rw other (
            one-IsBounded left turn excluded element (raise element_unavailable) allowed
              (turn, (omega arith, λ h. cc (e, h))))
      ]

  selection-IsBounded :
      (left turn : ℕ) (excluded : List String) (last : Option String) (next : String → Uploaded)
      (o : Option ElementInfo)
      → LastOf turn last
      → ((e : ElementInfo) → o ≡ some e → contains e.element_id excluded ≡ false)
      → ((element : String)
          → n.post turn ≡ http_error 507
          → IsBounded left (suc turn) (element ∷ excluded) (next element))
      → IsBounded (suc left) turn excluded (after_selection n turn last next o)
  selection-IsBounded left turn excluded last next none h allowed more =
      stopped-IsBounded (suc left) turn excluded last h
  selection-IsBounded left turn excluded last next (some e) h allowed more =
      post-IsBounded left turn excluded e.element_id (n.post turn) (next e.element_id)
        (allowed e refl) refl (more e.element_id)

  attempts-IsBounded :
      (left turn file_size : ℕ) (policy : RetentionPolicy) (excluded : List String)
      (last : Option String)
      → LastOf turn last
      → IsBounded left turn excluded (attempts n left turn file_size policy excluded last)
  unfolding attempts
  attempts-IsBounded zero turn file_size policy excluded last h =
      stopped-IsBounded zero turn excluded last h
  attempts-IsBounded (suc left) turn file_size policy excluded last h =
      selection-IsBounded left turn excluded last
        (λ id. attempts n left (suc turn) file_size policy (id ∷ excluded) (some id))
        (select_storage_element n (suc turn) file_size policy excluded) h
        (λ e g. select_storage_element-allowed n (suc turn) file_size policy excluded e g)
        (λ element full.
          attempts-IsBounded left (suc turn) file_size policy (element ∷ excluded) (some element)
            (turn, (refl, full)))

  -- Whatever the elements answer, an upload ends after at most three POSTs, which go to different elements.
  -- All but the last were answered 507, and the last one decides: the upload returns only if it was
  -- accepted, and raises for lack of space only if it was a 507 too. The upload raises that no element is
  -- available, or that the file is too large, only if it sent nothing.
  pub upload_file-IsBounded :
      (file_size : ℕ) (policy : RetentionPolicy)
      → IsBounded default_max_retries zero [] (upload_file n file_size policy)
  unfolding upload_file
  upload_file-IsBounded file_size policy = elim (Bool-cases (ltb max_file_size file_size)) [
    | inl big ↦ rw big (record {
      few = omega arith;
      fresh = tt;
      ended = refl;
      all_before = λ k a b. absurd (omega arith);
    })
    | inr fits ↦ rw fits (chosen_first (select_storage_element n 0 file_size policy []))
  ]
    where
      chosen_first :
          (o : Option ElementInfo)
          → IsBounded default_max_retries zero []
              (unless_none n o (attempts n default_max_retries zero file_size policy [] none))
      chosen_first none = stopped-IsBounded default_max_retries zero [] none refl
      chosen_first (some e) =
          attempts-IsBounded default_max_retries zero file_size policy [] none refl
