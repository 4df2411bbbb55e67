-- ===== src/RateLimit/Window.antt =====
-- What the window admits.
use art_store.Common.{
  ltb→lt, ℕ, ◌+◌, ◌*◌, ◌≤◌, ◌≡◌, refl, sym, ap, ◌∙◌, String, Bool, true, false, not, ◌&&◌, [], ◌∷◌,
  Option, leb, ltb, length, keep_if, length-keep_if-le, if◌then◌else◌, Result, ok, raise, arith,
  Bool-cases, inl, inr, Option-cases,
}
use art_store.Common.Json.{Dict, put}
use art_store.RateLimit.{
  SortedSets, Check, Verdict, window_start, refuse, admitted, added, decide, cleaned,
  check_rate_limit,
}

abbrev pub outside : ℕ → ℕ → String × ℕ → Bool
outside low high (member, score) = not (leb low score && leb score high)

-- What Redis documents of these calls: `entries k s` has the members of the set `k` with their scores.
pub record Documented (r : SortedSets) : Type 0 where
  pub entries : String → r.Store → Dict ℕ
  pub zrem-entries :
      (k : String) (low high : ℕ) (s : r.Store)
      → (r.zremrangebyscore k low high s).1 ≡ ok tt
      → entries k (r.zremrangebyscore k low high s).0 ≡ keep_if (outside low high) (entries k s)
  pub zcard-entries :
      (k : String) (s : r.Store) (n : ℕ) → r.zcard k s ≡ ok n → n ≡ length (entries k s)
  pub zadd-entries :
      (k member : String) (score : ℕ) (s : r.Store)
      → (r.zadd k member score s).1 ≡ ok tt
      → entries k (r.zadd k member score s).0 ≡ put member score (entries k s)
  pub expire-entries :
      (k : String) (seconds : ℕ) (s : r.Store)
      → (r.expire k seconds s).1 ≡ ok tt
      → entries k (r.expire k seconds s).0 ≡ entries k s

-- Every call is answered.
pub record Responds (r : SortedSets) : Type 0 where
  pub zrem-ok :
      (k : String) (low high : ℕ) (s : r.Store) → (r.zremrangebyscore k low high s).1 ≡ ok tt
  pub zcard-ok : (k : String) (s : r.Store) → (n : ℕ) × (r.zcard k s ≡ ok n)
  pub zrange-ok : (k : String) (s : r.Store) → (o : Option ℕ) × (r.zrange_first k s ≡ ok o)
  pub zadd-ok : (k member : String) (score : ℕ) (s : r.Store) → (r.zadd k member score s).1 ≡ ok tt
  pub expire-ok : (k : String) (seconds : ℕ) (s : r.Store) → (r.expire k seconds s).1 ≡ ok tt

length-put-le : (m : String) (v : ℕ) (d : Dict ℕ) → length (put m v d) ≤ length d + 1
length-put-le m v [] = omega arith
length-put-le m v ((k, w) ∷ d) = ground (arith, length-put-le m v d)

module _ (r : SortedSets) (doc : Documented r) (up : Responds r) (c : Check) where
  -- What a check decides of the requests that are in the window.
  abbrev pub Decided : Dict ℕ → r.Store × Verdict → Type 0
  Decided live p =
      (p.1.allowed ≡ ltb (length live) c.rate_limit)
      × (p.1.current_count ≡ (if p.1.allowed then length live + 1 else length live))
      × (doc.entries c.key p.0 ≡ (if p.1.allowed then put c.request_id c.now live else live))

  refuse-Decided :
      (s : r.Store) (live : Dict ℕ)
      → doc.entries c.key s ≡ live
      → ltb (length live) c.rate_limit ≡ false
      → Decided live (refuse r c (length live) s)
  unfolding refuse
  refuse-Decided s live e full =
      let (o, first) = up.zrange-ok c.key s in
      elim (Option-cases o) [
        | inl absent ↦ rw (first, refuse) (rw absent (sym full, refl, e))
        | inr (oldest, there) ↦ rw (first, refuse) (rw there (sym full, refl, e))
      ]

  admitted-Decided :
      (live : Dict ℕ) (p : r.Store × Result (Unit {0}) (Unit {0}))
      → p.1 ≡ ok tt
      → doc.entries c.key p.0 ≡ put c.request_id c.now live
      → ltb (length live) c.rate_limit ≡ true
      → Decided live (admitted r c (length live) p)
  unfolding admitted
  admitted-Decided live (s, raise e) h k room = absurd (cc h)
  admitted-Decided live (s, ok u) h k room = (sym room, refl, k)

  added-Decided :
      (live : Dict ℕ) (p : r.Store × Result (Unit {0}) (Unit {0}))
      → p.1 ≡ ok tt
      → doc.entries c.key p.0 ≡ put c.request_id c.now live
      → ltb (length live) c.rate_limit ≡ true
      → Decided live (added r c (length live) p)
  unfolding added
  added-Decided live (s, raise e) h k room = absurd (cc h)
  added-Decided live (s, ok u) h k room =
      let answered = up.expire-ok c.key (c.window_seconds * 2) s in
      admitted-Decided live (r.expire c.key (c.window_seconds * 2) s) answered
        (doc.expire-entries c.key (c.window_seconds * 2) s answered ∙ k) room

  decide-Decided :
      (s : r.Store) (live : Dict ℕ)
      → doc.entries c.key s ≡ live
      → Decided live (decide r c s (ok (length live)))
  unfolding decide
  decide-Decided s live e = elim (Bool-cases (leb c.rate_limit (length live))) [
    | inl full ↦ rw full (refuse-Decided s live e (ground arith))
    | inr room ↦
        let answered = up.zadd-ok c.key c.request_id c.now s in
        rw room (
          added-Decided live (r.zadd c.key c.request_id c.now s) answered
            (doc.zadd-entries c.key c.request_id c.now s answered ∙ ap (put c.request_id c.now) e)
            (ground arith))
  ]

  cleaned-Decided :
      (live : Dict ℕ) (p : r.Store × Result (Unit {0}) (Unit {0}))
      → p.1 ≡ ok tt
      → doc.entries c.key p.0 ≡ live
      → Decided live (cleaned r c p)
  unfolding cleaned
  cleaned-Decided live (s, raise e) h k = absurd (cc h)
  cleaned-Decided live (s, ok u) h k =
      let (n, counted) = up.zcard-ok c.key s in
      let same : n ≡ length live = doc.zcard-entries c.key s n counted ∙ ap length k in
      rw (counted, same) (decide-Decided s live k)

  -- With a Redis that answers, a request is admitted exactly if fewer requests than the limit stand in
  -- the window; it is then added to them, with its time, and the answer counts it. A refused request
  -- leaves those in the window as they are, and its answer counts them.
  pub check_rate_limit-Decided :
      (s : r.Store)
      → Decided
          (keep_if (outside 0 (window_start c)) (doc.entries c.key s))
          (check_rate_limit r c s)
  unfolding check_rate_limit
  check_rate_limit-Decided s =
      let answered = up.zrem-ok c.key 0 (window_start c) s in
      cleaned-Decided (keep_if (outside 0 (window_start c)) (doc.entries c.key s))
        (r.zremrangebyscore c.key 0 (window_start c) s) answered
        (doc.zrem-entries c.key 0 (window_start c) s answered)

  within :
      (live after : Dict ℕ) (allowed : Bool)
      → allowed ≡ ltb (length live) c.rate_limit
      → after ≡ (if allowed then put c.request_id c.now live else live)
      → length live ≤ c.rate_limit
      → length after ≤ c.rate_limit
  within live after true room e small = rw e (
      omega (
        arith,
        length-put-le c.request_id c.now live,
        ltb→lt (length live) c.rate_limit (sym room),
      ))
  within live after false room e small = rw e small

  -- A set that holds no more entries than the limit holds no more after a check.
  pub check_rate_limit-bounded :
      (s : r.Store)
      → length (doc.entries c.key s) ≤ c.rate_limit
      → length (doc.entries c.key (check_rate_limit r c s).0) ≤ c.rate_limit
  check_rate_limit-bounded s small =
      let old = doc.entries c.key s in
      let live = keep_if (outside 0 (window_start c)) old in
      let (decided, _, after) = check_rate_limit-Decided s in
      within live (doc.entries c.key (check_rate_limit r c s).0) (check_rate_limit r c s).1.allowed
        decided after (omega (arith, length-keep_if-le (outside 0 (window_start c)) old))
