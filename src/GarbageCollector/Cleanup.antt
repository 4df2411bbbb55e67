-- ===== src/GarbageCollector/Cleanup.antt =====
-- What the processing of one queue item leaves in the tables.
use art_store.Common.{
  ℕ, ◌≡◌, refl, inl, inr, true, false, List, [], ◌∷◌, ◌++◌, Option, none, some, find_first, ◌==◌,
  arith, All, Bool-cases, length,
}
use art_store.GarbageCollector.Defs.{
  unmarked, mark_deleted, File, CleanupError, Item, Setting, State, gone, refused, settle_item,
  update_item, is_due, finish_item, online, Element, try_element, delete_item, find_element,
  process_item, is_element, outcome_of, delete_error,
}

module _ (c : Setting) (now : ℕ) where
  -- No row of the item is selected at the later time.
  abbrev pub IsOver : ℕ → ℕ → List Item → Type 0
  IsOver later id queue = All (λ x. x.id ≡ id → is_due c later x ≡ false) queue

  IsOver-update_item :
      (later : ℕ) (new : Item) (queue : List Item)
      → is_due c later new ≡ false
      → IsOver later new.id (update_item new queue)
  IsOver-update_item later new [] h = tt
  IsOver-update_item later new (x ∷ xs) h = elim (Bool-cases (x.id == new.id)) [
    | inl same ↦ rw same ((λ e. h), IsOver-update_item later new xs h)
    | inr other ↦ rw other ((λ e. ground (arith, e, other)), IsOver-update_item later new xs h)
  ]

  outcome_of-IsOver :
      (later : ℕ) (i : Item) (s : State) (e : Option CleanupError)
      → IsOver later i.id (finish_item c now i s (outcome_of c now i e)).queue
  unfolding finish_item
  outcome_of-IsOver later i s none = elim (Bool-cases (c.mark_ok i.file_id)) [
    | inl e ↦ rw e (IsOver-update_item later (settle_item now i gone) s.queue refl)
    | inr e ↦ rw e (IsOver-update_item later (settle_item now i unmarked) s.queue refl)
  ]
  outcome_of-IsOver later i s (some e) =
      IsOver-update_item later (settle_item now i (refused e)) s.queue refl

  delete_item-IsOver :
      (later : ℕ) (i : Item) (s : State) (e : Element)
      → IsOver later i.id (delete_item c now i s e).queue
  unfolding delete_item
  delete_item-IsOver later i s e =
      outcome_of-IsOver later i
        (record s { sent = s.sent ++ record { api_url = e.api_url; file_id = i.file_id } ∷ [] })
        (delete_error (c.answer (length s.sent)))

  -- An item whose element is known and online is over after its DELETE, whatever the element answers:
  -- also after a timeout or an error status, and whatever the retry limit is, the query of no later run
  -- selects a row of the item.
  pub process_item-IsOver :
      (later : ℕ) (i : Item) (s : State) (e : Element)
      → find_first (is_element i.storage_element_id) c.elements ≡ some e
      → e.status ≡ online
      → IsOver later i.id (process_item c now i s).queue
  unfolding process_item find_element try_element
  process_item-IsOver later i s e found h = rw (found, h) (delete_item-IsOver later i s e)

  -- What the row of the item's file is after a success.
  abbrev pub Marked : Item → File → Type 0
  Marked i f =
      f.file_id ≡ i.file_id
      → (f.deleted_at ≡ some now) × (f.deletion_reason ≡ some i.cleanup_reason)

  mark_deleted-Marked :
      (i : Item) (fs : List File) → All (Marked i) (mark_deleted now i.file_id i.cleanup_reason fs)
  mark_deleted-Marked i [] = tt
  mark_deleted-Marked i (f ∷ fs) = elim (Bool-cases (f.file_id == i.file_id)) [
    | inl same ↦ rw same ((λ e. (refl, refl)), mark_deleted-Marked i fs)
    | inr other ↦ rw other ((λ e. ground (arith, e, other)), mark_deleted-Marked i fs)
  ]

  -- A DELETE that is answered 200, 204 or 404 marks every row of the file as deleted now, for the item's
  -- reason, whichever element the row names, also where the item only removes the old copy of a file that
  -- was moved. After any other answer, or none, the rows stay as they are.
  pub process_item-Marked :
      (i : Item) (s : State) (e : Element)
      → find_first (is_element i.storage_element_id) c.elements ≡ some e
      → e.status ≡ online
      → c.mark_ok i.file_id ≡ true
      → (delete_error (c.answer (length s.sent)) ≡ none
          → All (Marked i) (process_item c now i s).files)
        × ((error : CleanupError)
            → delete_error (c.answer (length s.sent)) ≡ some error
            → (process_item c now i s).files ≡ s.files)
  unfolding process_item find_element try_element delete_item finish_item
  process_item-Marked i s e found h ok = (
    (λ none_. rw (found, h, none_, ok) (mark_deleted-Marked i s.files)),
    λ error err. rw (found, h, err) refl,
  )
