-- ===== src/GarbageCollector/Sent.antt =====
-- The requests that one step of a run sends.
use art_store.Common.{
  ℕ, ◌≤◌, ◌≡◌, refl, sym, ap, ◌∙◌, String, Bool, true, false, List, [], ◌∷◌, ◌++◌, Option, none,
  some, take, keep_if, find_first, arith, All, All-append, Memᴰ, All-mem, append-nil, append_assoc,
  find_first-mem, str_eq_iff, mem-All, length, length-append,
}
use art_store.GarbageCollector.Defs.{
  unmarked, is_expired, is_pending_of, path_in, File, is_pending_at, is_ready, Item, Setting, State,
  FinalizeRow, finalized, ttl_expired, Outcome, gone, refused, retried, finish_item, add_item,
  unless_queued, online, unavailable, Request, Element, ElementStatus, element_missing,
  element_unavailable, try_element, delete_item, find_element, process_item, process_items,
  is_element, outcome_of, delete_error, process_cleanup_queue, queue_expired, queue_finalized,
  cleanup_expired_ttl, cleanup_finalized_files, run_steps, run_garbage_collection,
}

module _ (c : Setting) (now : ℕ) where
  -- An element that is online, with the request's address.
  abbrev pub IsOnline : Request → String → Element → Type 0
  IsOnline r name e = (e.name ≡ name) × ((e.status ≡ online) × (e.api_url ≡ r.api_url))

  -- The request deletes the file of an item that was due, at the item's element.
  pub record IsJustified (items : List Item) (r : Request) : Type 0 where
    pub item : Item
    pub element : Element
    pub listed : Memᴰ item items
    pub same_file : item.file_id ≡ r.file_id
    pub known : Memᴰ element c.elements
    pub reached_at : IsOnline r item.storage_element_id element

  abbrev pub Sends : List Item → State → State → Type 0
  Sends items s t =
      (new : List Request) × ((t.sent ≡ s.sent ++ new)
        × (All (IsJustified items) new × (length new ≤ length items)))

  finish_item-sent : (i : Item) (s : State) (o : Outcome) → (finish_item c now i s o).sent ≡ s.sent
  unfolding finish_item
  finish_item-sent i s gone = refl
  finish_item-sent i s unmarked = refl
  finish_item-sent i s (refused e) = refl
  finish_item-sent i s (retried e) = refl

  Sends-none : (items : List Item) (s t : State) → t.sent ≡ s.sent → Sends items s t
  Sends-none items s t h = ([], (h ∙ sym (append-nil s.sent), (tt, omega arith)))

  try_element-Sends :
      (i : Item) (s : State) (e : Element) (status : ElementStatus)
      → Memᴰ e c.elements
      → e.name ≡ i.storage_element_id
      → e.status ≡ status
      → Sends (i ∷ []) s (try_element c now i s e status)
  unfolding try_element delete_item
  try_element-Sends i s e online m named h = (
    record { api_url = e.api_url; file_id = i.file_id } ∷ [],
    (
      finish_item-sent i
          (record s { sent = s.sent ++ record { api_url = e.api_url; file_id = i.file_id } ∷ [] })
          (outcome_of c now i (delete_error (c.answer (length s.sent)))),
      (
        (
          record {
            item = i;
            element = e;
            listed = Memᴰ.head refl;
            same_file = refl;
            known = m;
            reached_at = (named, (h, refl));
          },
          tt,
        ),
        omega arith,
      ),
    ),
  )
  try_element-Sends i s e unavailable m named h =
      Sends-none (i ∷ []) s (try_element c now i s e unavailable)
        (finish_item-sent i s (retried element_unavailable))

  find_element-Sends :
      (i : Item) (s : State) (found : Option Element)
      → ((e : Element)
          → found ≡ some e
          → Memᴰ e c.elements × (is_element i.storage_element_id e ≡ true))
      → Sends (i ∷ []) s (find_element c now i s found)
  unfolding find_element
  find_element-Sends i s none h =
      Sends-none (i ∷ []) s (find_element c now i s none)
        (finish_item-sent i s (refused element_missing))
  find_element-Sends i s (some e) h =
      let (there, same) = h e refl in
      try_element-Sends i s e e.status there ((str_eq_iff e.name i.storage_element_id).0 same) refl

  only : (i : Item) (is : List Item) (x : Item) → Memᴰ x (i ∷ []) → Memᴰ x (i ∷ is)
  only i is x (Memᴰ.head e) = Memᴰ.head e
  only i is x (Memᴰ.tail m) = elim m [ ]

  widen : (i : Item) (is : List Item) (r : Request) → IsJustified is r → IsJustified (i ∷ is) r
  widen i is r h = record {
    item = h.item;
    element = h.element;
    listed = Memᴰ.tail h.listed;
    same_file = h.same_file;
    known = h.known;
    reached_at = h.reached_at;
  }

  from_one :
      (i : Item) (is : List Item) (r : Request) → IsJustified (i ∷ []) r → IsJustified (i ∷ is) r
  from_one i is r h = record {
    item = h.item;
    element = h.element;
    listed = only i is h.item h.listed;
    same_file = h.same_file;
    known = h.known;
    reached_at = h.reached_at;
  }

  pub process_items-Sends : (is : List Item) (s : State) → Sends is s (process_items c now is s)
  unfolding process_items process_item
  process_items-Sends [] s = Sends-none [] s s refl
  process_items-Sends (i ∷ is) s =
      let (first, (e1, (h1, n1))) =
        find_element-Sends i s (find_first (is_element i.storage_element_id) c.elements)
          (λ e h. find_first-mem (is_element i.storage_element_id) e c.elements h) in
      let (later, (e2, (h2, n2))) = process_items-Sends is (process_item c now i s) in
      (
        first ++ later,
        (
          e2 ∙ (ap (λ z. z ++ later) e1 ∙ append_assoc s.sent first later),
          (
            All-append (IsJustified (i ∷ is)) first later
                (mem-All (IsJustified (i ∷ is)) first
                  (λ r m. from_one i is r (All-mem (IsJustified (i ∷ [])) r first h1 m)))
                (mem-All (IsJustified (i ∷ is)) later
                  (λ r m. widen i is r (All-mem (IsJustified is) r later h2 m))),
            omega (arith, length-append first later, n1, n2),
          ),
        ),
      )

  unless_queued-sent :
      (pending : List Item) (s added : State)
      → added.sent ≡ s.sent
      → (unless_queued pending s added).sent ≡ s.sent
  unfolding unless_queued
  unless_queued-sent [] s added h = h
  unless_queued-sent (i ∷ []) s added h = refl
  unless_queued-sent (i ∷ j ∷ is) s added h = refl

  queue_expired-sent :
      (stored : List Item) (fs : List File) (s : State)
      → (queue_expired c now stored fs s).sent ≡ s.sent
  unfolding queue_expired add_item
  queue_expired-sent stored [] s = refl
  queue_expired-sent stored (f ∷ fs) s =
      queue_expired-sent stored fs (
        unless_queued (keep_if (is_pending_of f.file_id) stored) s
          (add_item f.file_id f.storage_element_id (some f.storage_path) now 10 ttl_expired s))
      ∙ unless_queued-sent (keep_if (is_pending_of f.file_id) stored) s
          (add_item f.file_id f.storage_element_id (some f.storage_path) now 10 ttl_expired s) refl

  queue_finalized-sent :
      (stored : List Item) (ts : List FinalizeRow) (s : State)
      → (queue_finalized c now stored ts s).sent ≡ s.sent
  unfolding queue_finalized add_item
  queue_finalized-sent stored [] s = refl
  queue_finalized-sent stored (t ∷ ts) s =
      queue_finalized-sent stored ts (
        unless_queued (keep_if (is_pending_at t.file_id t.source_se) stored) s
          (add_item t.file_id t.source_se (path_in t.file_id s.files) now 10 finalized s))
      ∙ unless_queued-sent (keep_if (is_pending_at t.file_id t.source_se) stored) s
          (add_item t.file_id t.source_se (path_in t.file_id s.files) now 10 finalized s) refl

  run_steps-sent : (s : State) → (run_steps c now s).sent ≡ (process_cleanup_queue c now s).sent
  unfolding run_steps cleanup_expired_ttl cleanup_finalized_files
  run_steps-sent s =
      let p = process_cleanup_queue c now s in
      queue_finalized-sent s.queue (take c.batch_size (keep_if (is_ready c now) c.transactions))
        (cleanup_expired_ttl c now s.queue p)
      ∙ queue_expired-sent s.queue (take c.batch_size (keep_if (is_expired c now) p.files)) p

  pub run-sent :
      (commit_ok : Bool) (s : State)
      → (run_garbage_collection c now commit_ok s).sent ≡ (process_cleanup_queue c now s).sent
  unfolding run_garbage_collection
  run-sent true s = run_steps-sent s
  run-sent false s = run_steps-sent s
