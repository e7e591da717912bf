-- ===== src/Oms/Idempotency/Laws.antt =====
-- The table of polytrader/oms/idempotency.py never changes an entry, and the id of an intent is
-- decided by the fields that make it the same trade.
use polytrader.Prelude.{
  String, ◌≡◌, ◌≢◌, ◌↔◌, ◌⊎◌, inl, inr, refl, ap, none, some, ◌==◌, string_eq, text_eq_iff, arith,
  Option-cases, Bool-cases,
}
use Prim.Native.String.{◌++◌}
use text.Mathlib.TextLemmas.{append_cancel_left}
use polytrader.Dict.{lookup, lookup-insert, lookup-insert_self}
use polytrader.Effect.{ok, err}
use polytrader.Events.{OrderIntentEvent}
use polytrader.Oms.Fsm.{already_mapped}
use polytrader.Oms.Idempotency.{
  Printing, Mappings, intent_text, hash_intent, generate_client_order_id, record_order,
  get_order_id,
}
use polytrader.Oms.Idempotency.Fields.{
  IsClear, SameTrade, intent_text-SameTrade, SameTrade-intent_text,
}

-- What `record_order` does: an id that is new or has this order already is accepted and then leads
-- to the order; an id of another order raises and changes nothing.
pub record_order_lem :
    (c k : String) (m : Mappings)
    → let (r, m') = record_order c k m in
      ((r ≡ ok tt)
        × (get_order_id c m' ≡ some k)
        × ((get_order_id c m ≡ none) ⊎ (get_order_id c m ≡ some k)))
      ⊎ ((r ≡ err already_mapped)
          × (m' ≡ m)
          × ((j : String) × (get_order_id c m ≡ some j) × (j ≢ k)))
unfolding record_order get_order_id
record_order_lem c k m = elim (Option-cases (lookup c m)) [
  | inl fresh ↦ rw (fresh, lookup-insert_self c k m) (inl (refl, refl, inl refl))
  | inr (j, taken) ↦ elim (Bool-cases (j == k)) [
    | inl same ↦
        let e : j ≡ k = (text_eq_iff j k).0 same in
        rw (taken, same, taken) (inl (refl, ap some e, inr (ap some e)))
    | inr differs ↦
        rw (taken, differs) (inr (refl, refl, (j, refl, λ e. cc ((text_eq_iff j k).1 e))))
  ]
]

-- No call of `record_order`, raising or not, loses or changes an entry.
pub record_order-keeps :
    (c k d j : String) (m : Mappings)
    → get_order_id d m ≡ some j
    → get_order_id d (record_order c k m).1 ≡ some j
unfolding record_order get_order_id
record_order-keeps c k d j m h = elim (Option-cases (lookup c m)) [
  | inl fresh ↦ rw fresh (ground (arith, lookup-insert c d k m, text_eq_iff c d))
  | inr (i, taken) ↦ rw taken (ground arith)
]

-- In one run and for one decision (correlation id), two intents get the same client's order id
-- exactly when they agree in strategy, market, outcome and side, and in the target price, limit
-- price and size as they are printed. The strategies' ids, the markets' names and the printed
-- prices hold no colon, and the digest does not send the two joined texts to one value unless they
-- are equal.
pub generate_client_order_id_iff :
    {F : Type 0} (printing : Printing F) (run_id : String) (i j : OrderIntentEvent F)
    → i.correlation_id ≡ j.correlation_id
    → IsClear printing i
    → IsClear printing j
    → (hash_intent printing i ≡ hash_intent printing j
        → intent_text printing i ≡ intent_text printing j)
    → (generate_client_order_id printing run_id i ≡ generate_client_order_id printing run_id j)
      ↔ SameTrade printing i j
unfolding generate_client_order_id
generate_client_order_id_iff printing run_id i j same p q no_collision = (
  λ h.
      let c : String = i.correlation_id in
      let e : run_id ++ ("-" ++ (c ++ ("-" ++ hash_intent printing i)))
          ≡ run_id ++ ("-" ++ (c ++ ("-" ++ hash_intent printing j))) =
        cc in
      intent_text-SameTrade printing i j p q (
        no_collision (
          append_cancel_left "-" _ _ (
            append_cancel_left c _ _
              (append_cancel_left "-" _ _ (append_cancel_left run_id _ _ e))))),
  λ t.
      let hashes : hash_intent printing i ≡ hash_intent printing j =
        ap printing.digest (SameTrade-intent_text printing i j t) in
      rw (same, hashes) refl,
)
