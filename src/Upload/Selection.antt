-- ===== src/Upload/Selection.antt =====
-- Which storage element is chosen.
use art_store.Common.{
  ℕ, ◌≤◌, ◌<◌, ◌≡◌, refl, sym, ap, ◌∙◌, ◌⊎◌, inl, inr, String, Bool, true, false, ◌&&◌, List,
  Option, none, some, contains, find_first, arith, Memᴰ, find_first-mem, Bool-cases,
}
use art_store.Upload.{
  CapacityInfo, ElementInfo, convert, is_healthy, is_available, get_available_storage_elements,
  accepts, Network, convert_found, select_among, select_from_adaptive_monitor,
  select_from_admin_module, not_excluded, first_listed, ask_admin, or_else, select_storage_element,
  RetentionPolicy, required_mode,
}

-- The element can take the file, in this mode and outside these names.
abbrev pub suits : ℕ → String → List String → CapacityInfo → Bool
suits file_size mode excluded c = is_available mode c && accepts file_size excluded c

module _ (n : Network) where
  abbrev pub IsBefore : CapacityInfo → CapacityInfo → Type 0
  IsBefore c d = n.priority c.storage_id ≤ n.priority d.storage_id

  module _ (file_size : ℕ) (mode : String) (excluded : List String) (cs : List CapacityInfo) where
    -- The element is a suitable one, and no other suitable one has a smaller number of priority.
    pub record IsBest (c : CapacityInfo) : Type 0 where
      pub known : Memᴰ c cs
      pub right_mode : c.mode ≡ mode
      pub is_well : is_healthy c.health ≡ true
      pub not_full : c.percent_used < 9800
      pub has_room : file_size ≤ c.available
      pub allowed : contains c.storage_id excluded ≡ false
      pub least :
          (d : CapacityInfo)
          → Memᴰ d cs
          → suits file_size mode excluded d ≡ true
          → (d ≡ c) ⊎ IsBefore c d

    abbrev available : List CapacityInfo
    available = get_available_storage_elements n.priority mode cs

    abbrev pub Chosen : Option ElementInfo → Type 0
    Chosen none = (d : CapacityInfo) → Memᴰ d cs → suits file_size mode excluded d ≡ false
    Chosen (some e) = (c : CapacityInfo) × ((convert c ≡ e) × IsBest c)

  -- An element that was excluded is never chosen, neither from the monitor nor from the Admin Module.
  or_else-allowed :
      (a b : Option ElementInfo) (excluded : List String) (e : ElementInfo)
      → ((x : ElementInfo) → a ≡ some x → contains x.element_id excluded ≡ false)
      → ((x : ElementInfo) → b ≡ some x → contains x.element_id excluded ≡ false)
      → or_else n a b ≡ some e
      → contains e.element_id excluded ≡ false
  or_else-allowed (some x) b excluded e ha hb h = ha e h
  or_else-allowed none b excluded e ha hb h = hb e h

  first_listed-allowed :
      (excluded : List String) (o : Option (List ElementInfo)) (x : ElementInfo)
      → first_listed n excluded o ≡ some x
      → contains x.element_id excluded ≡ false
  first_listed-allowed excluded none x h = absurd (cc h)
  first_listed-allowed excluded (some es) x h =
      let passed = (find_first-mem (not_excluded n excluded) x es h).1 in ground (arith, passed)

  ask_admin-allowed :
      (turn file_size : ℕ) (mode : String) (excluded : List String)
      (o : Option (ℕ → String → ℕ → Option (List ElementInfo))) (x : ElementInfo)
      → ask_admin n turn file_size mode excluded o ≡ some x
      → contains x.element_id excluded ≡ false
  ask_admin-allowed turn file_size mode excluded none x h = absurd (cc h)
  ask_admin-allowed turn file_size mode excluded (some list) x h =
      first_listed-allowed excluded (list turn mode file_size) x h

  convert-allowed :
      (file_size : ℕ) (excluded : List String) (cs : List CapacityInfo) (o : Option CapacityInfo)
      (x : ElementInfo)
      → find_first (accepts file_size excluded) cs ≡ o
      → convert_found o ≡ some x
      → contains x.element_id excluded ≡ false
  convert-allowed file_size excluded cs none x e h = absurd (cc h)
  convert-allowed file_size excluded cs (some c) x e h =
      let passed = (find_first-mem (accepts file_size excluded) c cs e).1 in
      let same : convert c ≡ x = cc h in
      ap (λ y. contains y.element_id excluded) (sym same) ∙ ground (arith, passed)

  select_among-allowed :
      (file_size : ℕ) (mode : String) (excluded : List String) (o : Option (List CapacityInfo))
      (x : ElementInfo)
      → select_among n file_size mode excluded o ≡ some x
      → contains x.element_id excluded ≡ false
  select_among-allowed file_size mode excluded none x h = absurd (cc h)
  select_among-allowed file_size mode excluded (some cs) x h =
      convert-allowed file_size excluded (get_available_storage_elements n.priority mode cs)
        (find_first (accepts file_size excluded)
          (get_available_storage_elements n.priority mode cs))
        x refl h

  monitor_allowed :
      (turn file_size : ℕ) (mode : String) (excluded : List String) (x : ElementInfo)
      → select_from_adaptive_monitor n turn file_size mode excluded ≡ some x
      → contains x.element_id excluded ≡ false
  unfolding select_from_adaptive_monitor
  monitor_allowed turn file_size mode excluded x h =
      elim (Bool-cases (n.use_for_selection && n.monitor)) [
        | inl used ↦
            select_among-allowed file_size mode excluded (n.capacities turn) x (rw used at h)
        | inr unused ↦ absurd (cc (rw unused at h))
      ]

  pub select_storage_element-allowed :
      (turn file_size : ℕ) (policy : RetentionPolicy) (excluded : List String) (e : ElementInfo)
      → select_storage_element n turn file_size policy excluded ≡ some e
      → contains e.element_id excluded ≡ false
  unfolding select_storage_element select_from_adaptive_monitor select_from_admin_module
  select_storage_element-allowed turn file_size policy excluded e h =
      or_else-allowed
        (select_from_adaptive_monitor n turn file_size (required_mode n policy) excluded)
        (select_from_admin_module n turn file_size (required_mode n policy) excluded) excluded e
        (λ x g. monitor_allowed turn file_size (required_mode n policy) excluded x g)
        (λ x g. ask_admin-allowed turn file_size (required_mode n policy) excluded n.admin x g) h
