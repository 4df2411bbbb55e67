-- ===== src/GarbageCollector/Requests.antt =====
-- What the DELETE requests of a run of the collector rest on.
use art_store.Common.{ℕ, ◌≡◌, true, exists_in, Memᴰ}
use art_store.GarbageCollector.Defs.{Item, Setting, State, finalized, is_due, Request, Element}
use art_store.GarbageCollector.Backing.{backs, margin}
use art_store.GarbageCollector.Sent.{IsOnline}

module _ (c : Setting) (now : ℕ) where
  -- What a justified request rests on in the tables before the run.
  pub record IsAllowed (s : State) (r : Request) : Type 0 where
    pub item : Item
    pub element : Element
    pub queued : Memᴰ item s.queue
    pub due : is_due c now item ≡ true
    pub same_file : item.file_id ≡ r.file_id
    pub known : Memᴰ element c.elements
    pub reached_at : IsOnline c now r item.storage_element_id element
    pub moved :
        item.cleanup_reason ≡ finalized
        → exists_in (backs (margin c) item.file_id item.storage_element_id now) c.transactions
          ≡ true
