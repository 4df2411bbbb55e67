-- ===== src/Tests/Rates.antt =====
-- The rate limit, over one sorted set that always answers.
use art_store.Common.{
  ℕ, ◌≡◌, refl, String, true, [], ◌∷◌, Option, some, none, ok, arith, length, keep_if,
}
use art_store.Common.Json.{Dict, put}
use art_store.RateLimit.{
  SortedSets, Check, check_rate_limit, cleaned, decide, refuse, added, admitted,
}
use art_store.RateLimit.Window.{Documented, Responds, Decided, outside, check_rate_limit-Decided}

abbrev first_score : Dict ℕ → Option ℕ
first_score [] = none
first_score ((k, v) ∷ d) = some v

abbrev one_set : SortedSets
one_set = record {
  Store = Dict ℕ;
  zremrangebyscore = λ k low high s. (keep_if (outside low high) s, ok tt);
  zcard = λ k s. ok (length s);
  zrange_first = λ k s. ok (first_score s);
  zadd = λ k member score s. (put member score s, ok tt);
  expire = λ k seconds s. (s, ok tt);
}

abbrev all_entries : String → Dict ℕ → Dict ℕ
all_entries k s = s

one_set-Documented : Documented one_set
one_set-Documented = record {
  entries = all_entries;
  zrem-entries = λ k low high s h. refl;
  zcard-entries = λ k s n h. ground arith;
  zadd-entries = λ k member score s h. refl;
  expire-entries = λ k seconds s h. refl;
}

one_set-Responds : Responds one_set
one_set-Responds = record {
  zrem-ok = λ k low high s. refl;
  zcard-ok = λ k s. (length s, refl);
  zrange-ok = λ k s. (first_score s, refl);
  zadd-ok = λ k member score s. refl;
  expire-ok = λ k seconds s. refl;
}

-- Two requests a minute; one of those before is out of the window.
abbrev check : Check
check = record {
  key = "rate_limit:sa";
  request_id = "100000:7";
  rate_limit = 2;
  window_seconds = 60;
  now = 100000;
}

abbrev before : Dict ℕ
before = ("30000:7", 30000) ∷ ("50000:7", 50000) ∷ []

admits :
    (check_rate_limit one_set check before).1
    ≡ record { allowed = true; current_count = 2; retry_after = 0 }
unfolding check_rate_limit cleaned decide refuse added admitted
admits = refl

check_rate_limit-Decided_example :
    Decided one_set one_set-Documented one_set-Responds check
      (keep_if (outside 0 40000) before)
      (check_rate_limit one_set check before)
unfolding one_set-Documented
check_rate_limit-Decided_example =
    check_rate_limit-Decided one_set one_set-Documented one_set-Responds check before
