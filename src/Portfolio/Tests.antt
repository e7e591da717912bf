-- ===== src/Portfolio/Tests.antt =====
-- The theorems about polytrader/portfolio at one signal: for UP, with DOWN favoured.
use polytrader.Prelude.{◌≡◌, refl, none, some, [], ◌∷◌, text_eq}
use polytrader.Float.Fixed.{ℤ, pos, fixed_float, ℤ-IsOrdered}
use polytrader.Dict.{lookup}
use polytrader.Events.{up, event_meta, EventMeta, MarketDataEvent, mid}
use polytrader.Market.Store.{last}
use polytrader.Portfolio.{
  SignalEvent, Texts, Position, Positions, Portfolio, proposal, target_of, intent_of, target_event,
  process_signal,
}
use polytrader.Portfolio.Proposals.{process_signal-Proposes}

abbrev texts : Texts ℤ
texts = record { rationale_text = λ a b c. "edge"; reason_text = λ r a b. r }

abbrev metas : EventMeta ℤ × EventMeta ℤ
metas = (event_meta "t" (pos 0) "c", event_meta "p" (pos 0) "c")

abbrev signal : SignalEvent ℤ
signal = record {
  meta = event_meta "s" (pos 0) "c";
  market_slug = "btc";
  outcome = up;
  p_up = pos 4000;
  p_down = pos 6000;
  edge = pos 500;
  confidence = pos 6000;
  model_id = "simple_threshold";
}

abbrev quote : MarketDataEvent ℤ
quote = record {
  meta = event_meta "tick" (pos 0) "tick";
  market_slug = "btc";
  outcome = up;
  best_bid = pos 3000;
  best_ask = pos 4000;
}

abbrev holding : Position ℤ
holding = record {
  market_slug = "btc";
  outcome = up;
  size = pos 6000;
  target_price = pos 9000;
  entry_price = pos 5000;
  entry_time = pos 0;
  order_id = none;
}

abbrev positions : Positions ℤ
positions = (("btc", up), holding) ∷ []

abbrev portfolio : Portfolio ℤ
portfolio = record {
  history = λ slug outcome. quote ∷ [];
  position_manager =
      some (record { get_positions = none; get_positions_for_strategy = λ id. some positions });
  fixed_size_usd = pos 10000;
  published = [];
}

process_signal-Proposes_example :
    (process_signal texts metas signal portfolio).published
    ≡ target_event texts metas.0 (target_of texts signal (pos 10000))
      ∷ proposal
          (intent_of texts metas.1 (target_of texts signal (pos 10000)) quote signal (pos 4000))
      ∷ []
unfolding last lookup text_eq mid
process_signal-Proposes_example =
    process_signal-Proposes texts metas signal ℤ-IsOrdered portfolio quote refl refl refl refl refl
      refl (refl, refl, refl, refl, refl)
