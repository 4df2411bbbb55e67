-- ===== src/Tests/Uploads.antt =====
-- An upload where the first element of two has no space.
use art_store.Common.{
  zero, ◌≡◌, refl, true, List, [], ◌∷◌, some, none, ok, ◌==◌, if◌then◌else◌, str_eq,
}
use art_store.Upload.{
  Network, CapacityInfo, healthy, degraded, temporary, uploaded, http_error, upload_file,
  default_max_retries,
}
use art_store.Upload.Retries.{IsBounded, upload_file-IsBounded}

abbrev near : CapacityInfo
near = record {
  storage_id = "near";
  mode = "edit";
  endpoint = "http://near";
  available = 5000;
  percent_used = 9000;
  health = healthy;
}

abbrev far : CapacityInfo
far = record {
  storage_id = "far";
  mode = "edit";
  endpoint = "http://far";
  available = 900000;
  percent_used = 100;
  health = healthy;
}

abbrev ill : CapacityInfo
ill = record {
  storage_id = "ill";
  mode = "edit";
  endpoint = "http://ill";
  available = 900000;
  percent_used = 100;
  health = degraded;
}

abbrev elements : List CapacityInfo
elements = ill ∷ far ∷ near ∷ []

abbrev network : Network
network = record {
  use_for_selection = true;
  monitor = true;
  priority = λ id. if str_eq id "near" then 10 else 20;
  capacities = λ n. some elements;
  admin = none;
  post = λ n. if n == 0 then http_error 507 else uploaded;
}

near_then_far :
    upload_file network 1000 temporary ≡ record { outcome = ok "far"; sent = "near" ∷ "far" ∷ [] }
unfolding upload_file
near_then_far = refl

upload_file-IsBounded_example :
    IsBounded network default_max_retries zero [] (upload_file network 1000 temporary)
upload_file-IsBounded_example = upload_file-IsBounded network 1000 temporary
