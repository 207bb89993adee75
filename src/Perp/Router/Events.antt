-- ===== src/Perp/Router/Events.antt =====
-- The public events: OnPublicEvent, onTicker, onCandlestick and emit.
use signalix.Prelude.{
  ℕ, Bool, not, ◌||◌, Option, none, some, List, [], ◌∷◌, String, str_eq, if◌then◌else◌,
}
use signalix.Prelude.Dict.{lookup, insert}
use signalix.Models.{TickerSnapshot}
use signalix.Klines.{CandlestickSnapshot, Kline, append_closed_kline}
use signalix.Perp.Router.{
  CandleKey, find_key, put_key, Update, ticker_update, kline_update, Router, names_or_empty,
}

-- perp.PublicEvent with its payload; what is of another kind is `other_event`
pub data PublicEvent : Type 0 where
  ticker : Option TickerSnapshot → PublicEvent
  candlestick : Option CandlestickSnapshot → PublicEvent
  other_event : PublicEvent

abbrev pub bars_or_empty : Option (List Kline) → List Kline
bars_or_empty none = []
bars_or_empty (some ks) = ks

-- `takes` says whether the channel takes an update; one that it does not take is dropped.
module _ (takes : Update → Bool) (hist_max : ℕ) where
  -- emit
  unfoldable pub emit : Update → List Update → List Update
  emit u sent = if takes u then u ∷ sent else sent

  unfoldable pub emit_each : (String → Update) → List String → List Update → List Update
  unfolding emit
  emit_each make [] sent = sent
  emit_each make (n ∷ ns) sent = emit_each make ns (emit (make n) sent)

  -- onTicker
  unfoldable pub on_ticker : Option TickerSnapshot → Router → Router
  unfolding emit_each
  on_ticker none s = s
  on_ticker (some t) s = if str_eq t.contract "" then s else record s {
    ticker_cache = insert t.contract t s.ticker_cache;
    sent =
        emit_each (λ n. ticker_update n t) (names_or_empty (lookup t.contract s.ticker_push_subs))
          s.sent;
  }

  -- onCandlestick
  unfoldable pub on_candlestick : Option CandlestickSnapshot → Router → Router
  unfolding emit_each
  on_candlestick none s = s
  on_candlestick (some c) s =
      let key : CandleKey = (c.contract, c.interval) in
      let cached = put_key key c s.kline_cache in
      let bars =
        append_closed_kline hist_max (some c) (bars_or_empty (find_key key s.kline_history)) in
      if str_eq c.contract "" || str_eq c.interval ""
      then s
      else if not c.window_closed
      then record s { kline_cache = cached }
      else record s {
        kline_cache = cached;
        kline_history = put_key key bars s.kline_history;
        sent =
            emit_each (λ n. kline_update n c) (names_or_empty (find_key key s.candle_subs)) s.sent;
      }

  -- OnPublicEvent
  unfoldable pub on_public_event : Option PublicEvent → Router → Router
  unfolding on_ticker on_candlestick
  on_public_event none s = s
  on_public_event (some (ticker t)) s = on_ticker t s
  on_public_event (some (candlestick c)) s = on_candlestick c s
  on_public_event (some other_event) s = s
