-- ===== src/Oms/Core/Canonical.antt =====
-- polytrader/oms/core.py: the handlers of the user stream's messages (the canonical models of
-- polytrader/adapters/polymarket/models.py), which find the order and hand over to the handlers of
-- the venue's answers. A message for no known order is logged and dropped.
use Prim.Native.String.{◌++◌}
use polytrader.Prelude.{String, Option, none, some, string_eq, is_truthy, if◌then◌else◌}
use polytrader.Float.{Float}
use polytrader.Effect.{Done, pure}
use polytrader.Oms.Models.{Order}
use polytrader.Oms.Store.{Store, get_order_by_client_id, get_order_by_venue_id}
use polytrader.Oms.Core.{Env, Op}
use polytrader.Oms.Core.Handlers.{
  handle_venue_ack, handle_venue_reject, handle_venue_fill, handle_cancel,
}

pub record CanonicalOrderAck : Type 0 where
  pub client_order_id : String
  pub venue_order_id : String

pub record CanonicalOrderReject : Type 0 where
  pub client_order_id : String
  pub reason : String

pub record CanonicalFill (F : Type 0) : Type 0 where
  pub client_order_id : Option String
  pub venue_order_id : Option String
  pub fill_id : String
  pub size : F
  pub price : F
  pub fee : F

pub record CanonicalCancel : Type 0 where
  pub client_order_id : Option String
  pub venue_order_id : String

abbrev pub cancel_reason : String → String
cancel_reason v = "Order cancelled on venue (venue_order_id: " ++ (v ++ ")")

module _ {F : Type 0} where
  -- `if key: order = find(key)`
  abbrev pub find_by :
      (String → Store F → Option (Order F)) → Option String → Store F → Option (Order F)
  find_by find none s = none
  find_by find (some k) s = if is_truthy k then find k s else none

  abbrev or_else : Option (Order F) → Option (Order F) → Option (Order F)
  or_else (some o) _ = some o
  or_else none m = m

  -- By the client's id; if that finds nothing, by the venue's.
  unfoldable pub match_order : Option String → Option String → Store F → Option (Order F)
  match_order client_id venue_id s =
      or_else (find_by get_order_by_client_id client_id s)
        (find_by get_order_by_venue_id venue_id s)

  -- `if not order: return`
  abbrev pub if_found : Option (Order F) → (Order F → Op F Done) → Op F Done
  if_found none f = pure tt
  if_found (some o) f = f o

module _ {F : Type 0} ⦃fl : Float F⦄ where
  unfoldable pub handle_canonical_ack : Env F → CanonicalOrderAck → Op F Done
  handle_canonical_ack env m c =
      if_found (match_order (some m.client_order_id) (some m.venue_order_id) c.store)
        (λ o. handle_venue_ack env o.client_order_id m.venue_order_id) c

  unfoldable pub handle_canonical_reject : Env F → CanonicalOrderReject → Op F Done
  handle_canonical_reject env m c =
      if_found (match_order (some m.client_order_id) none c.store)
        (λ o. handle_venue_reject env o.client_order_id m.reason) c

  unfoldable pub handle_canonical_fill : Env F → CanonicalFill F → Op F Done
  handle_canonical_fill env m c =
      if_found (match_order m.client_order_id m.venue_order_id c.store)
        (λ o. handle_venue_fill env o.client_order_id m.size m.price m.fee (some m.fill_id)) c

  unfoldable pub handle_canonical_cancel : Env F → CanonicalCancel → Op F Done
  handle_canonical_cancel env m c =
      if_found (match_order m.client_order_id (some m.venue_order_id) c.store)
        (λ o. handle_cancel env o.client_order_id (some (cancel_reason m.venue_order_id))) c
