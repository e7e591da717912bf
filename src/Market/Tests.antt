-- ===== src/Market/Tests.antt =====
-- The theorems about polytrader/store.py at concrete events.
use Prim.Native.Char.{Char, code}
use polytrader.Prelude.{String, ◌≡◌, refl, Bool, ◌&&◌, List, [], ◌∷◌, leb, arith}
use polytrader.Float.Fixed.{ℤ, pos}
use polytrader.Events.{up, MarketDataEvent, event_meta}
use polytrader.Market.Pattern.{IsDecimalTest, slug_to_pattern, slug_to_pattern-join}
use polytrader.Market.Store.{history, same, empty_market_store}
use polytrader.Market.Refinement.{last_n, events_of, add_all, history-add_all}

abbrev is_ascii_decimal : Char → Bool
is_ascii_decimal c = leb 48 (code c) && leb (code c) 57

ascii-IsDecimalTest : IsDecimalTest is_ascii_decimal
ascii-IsDecimalTest c h = ground arith

slug_to_pattern-join_example : slug_to_pattern is_ascii_decimal "btc-15m-1769980500" ≡ "btc-15m"
slug_to_pattern-join_example =
    slug_to_pattern-join is_ascii_decimal ascii-IsDecimalTest "btc-15m" "1769980500" refl refl refl
      refl

abbrev tick : String → ℤ → MarketDataEvent ℤ
tick slug ask = record {
  meta = event_meta "e" (pos 0) "c";
  market_slug = slug;
  outcome = up;
  best_bid = pos 4000;
  best_ask = ask;
}

abbrev log : List (MarketDataEvent ℤ)
log = tick "m-1" (pos 5000) ∷ tick "m-2" (pos 5100) ∷ tick "m-1" (pos 5200) ∷ []

history-add_all_example :
    history same "m-1" up (add_all same log (empty_market_store 1))
    ≡ last_n 1 (events_of same ("m-1", up) log)
history-add_all_example = history-add_all same 1 log "m-1" up
