-- ===== src/Bus/EventStore.antt =====
-- polytrader/events/store.py: `MemoryEventStore`. A filter by the class of an event is a test of
-- the event; `id_of` and `ts_of` read its `event_id` and `ts_mono`.
mod Read
use polytrader.Prelude.{
  String, ◌≡◌, Bool, true, false, not, Option, none, some, List, [], ◌∷◌, ◌++◌, length, ℕ, member,
  add_item, if◌then◌else◌, string_eq, ◌==◌, Bool-cases, arith, inl, inr, eq_of_==, member-add_item,
  ap, ◌∙◌, refl,
}

pub record MemoryEventStore (M : Type 0) : Type 0 where
  pub events : List M
  pub event_ids : List String

abbrev pub empty_event_store : {M : Type 0} → MemoryEventStore M
empty_event_store = record { events = []; event_ids = [] }

module _ {M : Type 0} (id_of : M → String) where
  unfoldable pub append : M → MemoryEventStore M → MemoryEventStore M
  append event s = if member (id_of event) s.event_ids then s else record {
    events = s.events ++ (event ∷ []);
    event_ids = add_item (id_of event) s.event_ids;
  }

  -- The first item with an id.
  unfoldable pub find_id : String → List M → Option M
  find_id event_id [] = none
  find_id event_id (e ∷ es) = if id_of e == event_id then some e else find_id event_id es

  unfoldable pub get_by_id : String → MemoryEventStore M → Option M
  get_by_id event_id s =
      if not (member event_id s.event_ids) then none else find_id event_id s.events

  abbrev pub append_all : List M → MemoryEventStore M → MemoryEventStore M
  append_all [] s = s
  append_all (e ∷ es) s = append_all es (append e s)

  abbrev first_of : Option M → Option M → Option M
  first_of none o = o
  first_of (some e) o = some e

  find_id-append :
      (event_id : String) (es : List M) (e : M)
      → find_id event_id (es ++ (e ∷ []))
        ≡ first_of (find_id event_id es) (if id_of e == event_id then some e else none)
  unfolding find_id
  find_id-append event_id [] e = refl
  find_id-append event_id (x ∷ xs) e = ground (arith, find_id-append event_id xs e)

  abbrev is_some : Option M → Bool
  is_some none = false
  is_some (some e) = true

  -- The set of ids is that of the events.
  abbrev IsIndexed : MemoryEventStore M → Type 0
  IsIndexed s =
      (event_id : String) → member event_id s.event_ids ≡ is_some (find_id event_id s.events)

  append-IsIndexed : (e : M) (s : MemoryEventStore M) → IsIndexed s → IsIndexed (append e s)
  unfolding append
  append-IsIndexed e s v event_id = elim (Bool-cases (member (id_of e) s.event_ids)) [
    | inl h ↦ rw (h) (v event_id)
    | inr h ↦
        rw (h, find_id-append event_id s.events e, member-add_item (id_of e) event_id s.event_ids)
          (ground (arith, v event_id))
  ]

  get_by_id-append :
      (event_id : String) (e : M) (s : MemoryEventStore M)
      → IsIndexed s
      → find_id event_id (append e s).events
        ≡ first_of (find_id event_id s.events) (if id_of e == event_id then some e else none)
  unfolding append
  get_by_id-append event_id e s v = elim (Bool-cases (member (id_of e) s.event_ids)) [
    | inl h ↦ rw (h) (elim (Bool-cases (id_of e == event_id)) [
      | inl k ↦ ground (arith, v (id_of e), eq_of_== (id_of e) event_id k, h)
      | inr k ↦ ground (arith, k)
    ])
    | inr h ↦ rw (h) (find_id-append event_id s.events e)
  ]

  append_all-find :
      (es : List M) (s : MemoryEventStore M) (event_id : String)
      → IsIndexed s
      → get_by_id event_id (append_all es s)
        ≡ first_of (find_id event_id s.events) (find_id event_id es)
  unfolding get_by_id find_id
  append_all-find [] s event_id v = ground (arith, v event_id)
  append_all-find (e ∷ es) s event_id v =
      append_all-find es (append e s) event_id (append-IsIndexed e s v)
      ∙ ap (λ o. first_of o (find_id event_id es)) (get_by_id-append event_id e s v)
      ∙ ground arith

  -- After any sequence of `append`s to an empty event store, `get_by_id` is the first event of the
  -- sequence that has the id, and `None` when none has it: an event whose id was stored before
  -- changes nothing.
  pub get_by_id-append_all :
      (es : List M) (event_id : String)
      → get_by_id event_id (append_all es empty_event_store) ≡ find_id event_id es
  unfolding find_id
  get_by_id-append_all es event_id = append_all-find es empty_event_store event_id (λ _. refl)

abbrev pub count : {M : Type 0} → MemoryEventStore M → ℕ
count s = length s.events
