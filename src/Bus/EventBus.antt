-- ===== src/Bus/EventBus.antt =====
-- polytrader/events/bus.py: `EventBus` and the unbounded `asyncio.Queue`s of its subscribers. A
-- subscriber holds the very queue that the bus puts to; a queue is named by its topic and its place
-- among the topic's queues, which never changes, since the bus only appends. A `get` on an empty
-- queue waits, so that it is no step until something is put.
use polytrader.Prelude.{
  ℕ, zero, suc, String, Bool, Option, none, some, List, [], ◌∷◌, ◌++◌, length, map, if◌then◌else◌,
  string_eq,
}
use polytrader.Dict.{Dict, lookup, insert}
use polytrader.Effect.{Result, Done}

-- `IEventStore.append` of a store whose state is S; it may raise.
pub record IEventStore (M S : Type 0) : Type 0 where
  pub append : M → S → Result String Done × S
  pub is_event : M → Bool

pub record EventBus (M S : Type 0) : Type 0 where
  pub queues : Dict String (List (List M))
  pub store : Option S

-- `xs[n]`
abbrev pub get_elem? {ℓ} : {A : Type ℓ} → List A → ℕ → Option A
get_elem? [] _ = none
get_elem? (x ∷ xs) zero = some x
get_elem? (x ∷ xs) (suc n) = get_elem? xs n

-- `xs[n] = f(xs[n])`
abbrev pub update_at {ℓ} : {A : Type ℓ} → ℕ → (A → A) → List A → List A
update_at _ f [] = []
update_at zero f (x ∷ xs) = f x ∷ xs
update_at (suc n) f (x ∷ xs) = x ∷ update_at n f xs

abbrev pub tail : {A : Type 0} → List A → List A
tail [] = []
tail (x ∷ xs) = xs

abbrev pub head? : {A : Type 0} → List A → Option A
head? [] = none
head? (x ∷ xs) = some x

abbrev pub front : {A : Type 0} → Option (List A) → Option A
front none = none
front (some q) = head? q

-- `self._queues.get(name, [])`
abbrev pub queues_of : {M : Type 0} → Option (List (List M)) → List (List M)
queues_of none = []
queues_of (some qs) = qs

module _ {M S : Type 0} where
  abbrev pub empty_bus : Option S → EventBus M S
  empty_bus store = record { queues = []; store = store }

  unfoldable pub topic_queues : String → EventBus M S → List (List M)
  topic_queues topic b = queues_of (lookup topic b.queues)

  abbrev with_queues : String → List (List M) → EventBus M S → EventBus M S
  with_queues topic qs b = record b { queues = insert topic qs b.queues }

  -- A change of the queues that a topic has.
  abbrev pub change_found :
      String
      → (List (List M) → List (List M))
      → EventBus M S
      → Option (List (List M))
      → EventBus M S
  change_found topic f b none = b
  change_found topic f b (some qs) = with_queues topic (f qs) b

  unfoldable pub change_queues :
      String → (List (List M) → List (List M)) → EventBus M S → EventBus M S
  change_queues topic f b = change_found topic f b (lookup topic b.queues)

  -- `subscribe`, with the new queue's place.
  unfoldable pub subscribe : String → EventBus M S → ℕ × EventBus M S
  subscribe topic b =
      let qs = topic_queues topic b in (length qs, with_queues topic (qs ++ ([] ∷ [])) b)

  -- The messages that wait in a queue.
  unfoldable pub pending : String → ℕ → EventBus M S → Option (List M)
  pending topic n b = get_elem? (topic_queues topic b) n

  -- `queue.get()`: the oldest message; `none` if it waits.
  unfoldable pub get : String → ℕ → EventBus M S → Option M × EventBus M S
  get topic n b = (front (pending topic n b), change_queues topic (update_at n tail) b)

  module _ (i : IEventStore M S) where
    -- A store that raises is logged, and the message is published all the same.
    unfoldable pub persist : M → EventBus M S → EventBus M S
    persist msg b = elim b.store [
      | none ↦ b
      | some s ↦ if i.is_event msg then record b { store = some (i.append msg s).1 } else b
    ]

    abbrev pub put_all : M → List (List M) → List (List M)
    put_all msg qs = map (λ q. q ++ (msg ∷ [])) qs

    -- The loop over the topic's queues; without any it changes nothing.
    unfoldable pub deliver : String → M → EventBus M S → EventBus M S
    deliver topic msg b = change_queues topic (put_all msg) b

    unfoldable pub publish : String → M → EventBus M S → EventBus M S
    publish topic msg b = deliver topic msg (persist msg b)
