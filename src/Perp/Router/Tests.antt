-- ===== src/Perp/Router/Tests.antt =====
-- Subscriptions of two strategies, and the witnesses of the router's theorems.
use signalix.Prelude.{◌≡◌, refl, true, none, some, [], ◌∷◌, eq_iff}
use signalix.Prelude.Dict.{lookup, insert, erase}
use signalix.Klines.{CandlestickSnapshot}
use signalix.Perp.Router.{
  Router, find_key, put_key, has_name, add_name, remove_name, subscribe_symbol, subscribe_symbols,
  subscribed, subscribe_contracts, leave_push, leave_candles, contracts_of, get_subscribed_symbols,
  release, dec_ticker_refs, unsubscribe_all,
}
use signalix.Perp.Router.Events.{candlestick}
use signalix.Perp.Router.Retry.{subscribe_contracts_retry}
use signalix.Perp.Router.Gone.{event, subscribe, run, updates_for, run-unsubscribe_all}

abbrev nothing : Router
nothing = record {
  ticker_ref = [];
  ticker_push_subs = [];
  candle_subs = [];
  ticker_cache = [];
  kline_cache = [];
  kline_history = [];
  sent = [];
}

-- The strategy "grid" takes two intervals of one contract.
two_intervals : Router
unfolding subscribe_contracts subscribed subscribe_symbols subscribe_symbol add_name has_name lookup
    insert find_key put_key
two_intervals =
    (subscribe_contracts (λ r. none) "grid" ("BTC_USDT" ∷ []) "5m" true
      (subscribe_contracts (λ r. none) "grid" ("BTC_USDT" ∷ []) "1m" true nothing).0).0

-- Nobody is left, and the ticker is still counted once.
ticker_still_counted :
    (unsubscribe_all (λ r. none) "grid" two_intervals).0.ticker_ref ≡ ("BTC_USDT", 1) ∷ []
unfolding two_intervals unsubscribe_all get_subscribed_symbols contracts_of release dec_ticker_refs
    leave_push leave_candles remove_name has_name lookup insert erase
ticker_still_counted = refl

-- The exchange refuses, and at the second try it is not asked.
subscribe_contracts_retry_example :
    let first =
      subscribe_contracts
        (λ r. some "closed")
        "grid"
        ("BTC_USDT" ∷ "ETH_USDT" ∷ [])
        "1m"
        true
        nothing in
    ((subscribed "grid" ("BTC_USDT" ∷ "ETH_USDT" ∷ []) "1m" true first.0).new_tickers ≡ [])
    × (((subscribed "grid" ("BTC_USDT" ∷ "ETH_USDT" ∷ []) "1m" true first.0).new_keys ≡ [])
        × ((subscribe_contracts
              (λ r. none)
              "grid"
              ("BTC_USDT" ∷ "ETH_USDT" ∷ [])
              "1m"
              true
              first.0).1
            ≡ none))
subscribe_contracts_retry_example =
    subscribe_contracts_retry (λ r. some "closed") (λ r. none) "grid" ("BTC_USDT" ∷ "ETH_USDT" ∷ [])
      "1m" true nothing

abbrev bar : CandlestickSnapshot
bar = record {
  contract = "BTC_USDT";
  interval = "1m";
  open_price = "5";
  high = "6";
  low = "4";
  close = "5";
  volume = "10";
  volume_base = "2";
  timestamp_sec = 60;
  window_closed = true;
}

-- Another strategy takes the same contract, and a bar closes.
run-unsubscribe_all_example :
    updates_for "grid"
      (run
        (subscribe (λ r. none) "trend" ("BTC_USDT" ∷ []) "1m" true
          ∷ event (λ u. true) 2000 (some (candlestick (some bar)))
          ∷ [])
        (unsubscribe_all (λ r. none) "grid" two_intervals).0).sent
    ≡ updates_for "grid" two_intervals.sent
run-unsubscribe_all_example =
    run-unsubscribe_all "grid" (λ r. none) two_intervals
      (subscribe (λ r. none) "trend" ("BTC_USDT" ∷ []) "1m" true
        ∷ event (λ u. true) 2000 (some (candlestick (some bar)))
        ∷ [])
      ((λ e. cc ((eq_iff "trend" "grid").1 e)), (tt, tt))
