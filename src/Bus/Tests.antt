-- ===== src/Bus/Tests.antt =====
-- The theorems about polytrader/events at concrete calls.
use polytrader.Prelude.{ℕ, String, ◌≡◌, refl, true, List, [], ◌∷◌, ◌++◌, some, text_eq, arith}
use polytrader.Effect.{err}
use polytrader.Dict.{lookup, insert}
use polytrader.Bus.EventBus.{IEventStore, EventBus, empty_bus, subscribe, pending, topic_queues}
use polytrader.Bus.Delivery.{
  Call, subscribes, publishes, gets_next, gets_of, run, received, run-Conserves, received-subscribe,
}

-- An event store that refuses every event, and counts them.
abbrev failing : IEventStore String ℕ
failing = record { append = λ msg n. (err "disk full", n); is_event = λ msg. true }

abbrev joined : EventBus String ℕ
joined = (subscribe "fills" (empty_bus (some 0))).1

abbrev calls : List (Call String)
calls =
    publishes "fills" "f1"
    ∷ publishes "acks" "a1"
    ∷ gets_next "fills" 0
    ∷ subscribes "fills"
    ∷ publishes "fills" "f2"
    ∷ []

run-Conserves_example :
    (p : List String) × (pending "fills" 0 (run failing calls joined) ≡ some p)
    × (received failing "fills" 0 calls joined ++ p ≡ "f1" ∷ "f2" ∷ [])
unfolding pending topic_queues subscribe lookup insert text_eq
run-Conserves_example = run-Conserves failing "fills" 0 calls joined [] refl

received-subscribe_example :
    received failing "fills" 0 (calls ++ gets_of "fills" 0 2) joined ≡ "f1" ∷ "f2" ∷ []
unfolding subscribe topic_queues lookup text_eq
received-subscribe_example =
    received-subscribe failing "fills" (empty_bus (some 0)) calls 2 (omega arith)
