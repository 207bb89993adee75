-- ===== src/Perp/Router.antt =====
-- router.go: who is sent which market data. Go's sets of strategy names are lists without repetition;
-- a subscription at the exchange is a request, whose answer is given from outside.
pub mod Events
pub mod Retry
pub mod Absent
pub mod Gone
mod Tests
use signalix.Prelude.{
  ℕ, zero, suc, Bool, true, false, not, ◌&&◌, ◌||◌, Option, none, some, List, [], ◌∷◌, ◌++◌, map,
  String, str_eq, if◌then◌else◌,
}
use signalix.Prelude.Dict.{Dict, lookup, insert, erase}
use signalix.Models.{TickerSnapshot}
use signalix.Klines.{CandlestickSnapshot, Kline}
use signalix.Oms.{Failure}

-- candleKey
abbrev pub CandleKey : Type 0
CandleKey = String × String

abbrev pub key_eq : CandleKey → CandleKey → Bool
key_eq a b = str_eq a.0 b.0 && str_eq a.1 b.1

-- A Go map with such keys, as an association list
abbrev pub CandleMap {ℓ} : Type ℓ → Type ℓ
CandleMap V = List (CandleKey × V)

module _ {ℓ} {V : Type ℓ} where
  unfoldable pub find_key : CandleKey → CandleMap V → Option V
  find_key k [] = none
  find_key k ((j, v) ∷ m) = if key_eq j k then some v else find_key k m

  unfoldable pub put_key : CandleKey → V → CandleMap V → CandleMap V
  put_key k v [] = (k, v) ∷ []
  put_key k v ((j, w) ∷ m) = if key_eq j k then (k, v) ∷ m else (j, w) ∷ put_key k v m

-- A set of names: `m[name]`, `m[name] = true` and `delete(m, name)`
unfoldable pub has_name : String → List String → Bool
has_name name [] = false
has_name name (n ∷ ns) = let rest = has_name name ns in if str_eq n name then true else rest

unfoldable pub add_name : String → List String → List String
unfolding has_name
add_name name ns = if has_name name ns then ns else name ∷ ns

unfoldable pub remove_name : String → List String → List String
remove_name name [] = []
remove_name name (n ∷ ns) =
    let rest = remove_name name ns in if str_eq n name then rest else n ∷ rest

-- perp.Subscription, on the channel of the tickers or on that of the candlesticks
pub data Subscription : Type 0 where
  tickers : List String → Subscription
  candlesticks : CandleKey → Subscription

-- market.MarketUpdate, with the snapshot that its data is made from
pub data Update : Type 0 where
  ticker_update : String → TickerSnapshot → Update
  kline_update : String → CandlestickSnapshot → Update

-- The fields of MarketRouter that change, and the updates that its channel took, newest first.
pub record Router : Type 0 where
  pub ticker_ref : Dict ℕ
  pub ticker_push_subs : Dict (List String)
  pub candle_subs : CandleMap (List String)
  pub ticker_cache : Dict TickerSnapshot
  pub kline_cache : CandleMap CandlestickSnapshot
  pub kline_history : CandleMap (List Kline)
  pub sent : List Update

abbrev pub names_or_empty : Option (List String) → List String
names_or_empty none = []
names_or_empty (some ns) = ns

abbrev pub count_or_zero : Option ℕ → ℕ
count_or_zero none = 0
count_or_zero (some n) = n

-- What the loop of SubscribeContracts collects: the router, the new contracts and the new keys
pub record Collected : Type 0 where
  pub router : Router
  pub new_tickers : List String
  pub new_keys : List CandleKey

abbrev pub is_zero_count : ℕ → Bool
is_zero_count zero = true
is_zero_count (suc n) = false

abbrev pub is_none {ℓ} : {A : Type ℓ} → Option A → Bool
is_none none = true
is_none (some a) = false

-- One symbol of the loop
unfoldable pub subscribe_symbol : String → String → Bool → String → Collected → Collected
unfolding add_name
subscribe_symbol name interval push symbol c =
    let refs = count_or_zero (lookup symbol c.router.ticker_ref) in
    let key : CandleKey = (symbol, interval) in
    let subs = find_key key c.router.candle_subs in
    let pushed = c.router.ticker_push_subs in
    record {
      router = record c.router {
        ticker_ref = insert symbol (suc refs) c.router.ticker_ref;
        ticker_push_subs =
            if push
            then insert symbol (add_name name (names_or_empty (lookup symbol pushed))) pushed
            else pushed;
        candle_subs = put_key key (add_name name (names_or_empty subs)) c.router.candle_subs;
      };
      new_tickers = if is_zero_count refs then c.new_tickers ++ symbol ∷ [] else c.new_tickers;
      new_keys = if is_none subs then c.new_keys ++ key ∷ [] else c.new_keys;
    }

unfoldable pub subscribe_symbols : String → String → Bool → List String → Collected → Collected
unfolding subscribe_symbol
subscribe_symbols name interval push [] c = c
subscribe_symbols name interval push (x ∷ xs) c =
    subscribe_symbols name interval push xs (subscribe_symbol name interval push x c)

-- `subs` of SubscribeContracts and exchangeUnsubscribe
unfoldable pub requests : List String → List CandleKey → List Subscription
requests [] keys = map candlesticks keys
requests (x ∷ xs) keys = tickers (x ∷ xs) ∷ map candlesticks keys

-- No call for an empty list
unfoldable pub call_exchange :
    (List Subscription → Option Failure) → List Subscription → Option Failure
call_exchange exchange [] = none
call_exchange exchange (r ∷ rs) = exchange (r ∷ rs)

-- What SubscribeContracts changes and asks for
unfoldable pub subscribed : String → List String → String → Bool → Router → Collected
unfolding subscribe_symbols
subscribed name symbols interval push s =
    subscribe_symbols name interval push symbols
      (record { router = s; new_tickers = []; new_keys = [] })

-- SubscribeContracts: the router has changed before the exchange answers
unfoldable pub subscribe_contracts :
    (List Subscription → Option Failure)
    → String
    → List String
    → String
    → Bool
    → Router
    → Router × Option Failure
unfolding subscribed requests call_exchange
subscribe_contracts exchange name symbols interval push s =
    let c = subscribed name symbols interval push s in
    (c.router, call_exchange exchange (requests c.new_tickers c.new_keys))

-- A name leaves every set of a map; a set that is empty then is deleted, and its key is returned.
unfoldable pub leave_push : String → Dict (List String) → Dict (List String)
unfolding remove_name
leave_push name [] = []
leave_push name ((k, ns) ∷ m) =
    let rest = leave_push name m in
    elim (remove_name name ns) [ [] ↦ rest | n ∷ left ↦ (k, n ∷ left) ∷ rest ]

unfoldable pub leave_candles :
    String → CandleMap (List String) → CandleMap (List String) × List CandleKey
unfolding remove_name
leave_candles name [] = ([], [])
leave_candles name ((k, ns) ∷ m) =
    let rest = leave_candles name m in
    elim (remove_name name ns) [
      | [] ↦ (rest.0, k ∷ rest.1)
      | n ∷ left ↦ ((k, n ∷ left) ∷ rest.0, rest.1)
    ]

-- The contracts of the name's candlesticks, once each
unfoldable pub contracts_of : String → CandleMap (List String) → List String → List String
unfolding has_name
contracts_of name [] seen = []
contracts_of name ((k, ns) ∷ m) seen =
    let skip = contracts_of name m seen in
    let rest = contracts_of name m (k.0 ∷ seen) in
    if has_name name ns && not (has_name k.0 seen) then k.0 ∷ rest else skip

-- The loop of decTickerRefForSymbols: the counts, and the contracts that nobody counts any more
unfoldable pub release : Option ℕ → String → Dict ℕ × List String → Dict ℕ × List String
release none symbol r = r
release (some zero) symbol r = r
release (some (suc zero)) symbol r = (erase symbol r.0, r.1 ++ symbol ∷ [])
release (some (suc (suc n))) symbol r = (insert symbol (suc n) r.0, r.1)

unfoldable pub dec_ticker_refs : List String → Dict ℕ × List String → Dict ℕ × List String
unfolding release
dec_ticker_refs [] r = r
dec_ticker_refs (x ∷ xs) r = dec_ticker_refs xs (release (lookup x r.0) x r)

-- GetSubscribedSymbols
unfoldable pub get_subscribed_symbols : String → Router → List String
unfolding contracts_of
get_subscribed_symbols name s = contracts_of name s.candle_subs []

-- UnsubscribeAll
unfoldable pub unsubscribe_all :
    (List Subscription → Option Failure) → String → Router → Router × Option Failure
unfolding dec_ticker_refs get_subscribed_symbols leave_candles leave_push requests call_exchange
unsubscribe_all exchange name s =
    let refs = dec_ticker_refs (get_subscribed_symbols name s) (s.ticker_ref, []) in
    let candles = leave_candles name s.candle_subs in
    (
      record s {
        ticker_ref = refs.0;
        candle_subs = candles.0;
        ticker_push_subs = leave_push name s.ticker_push_subs;
      },
      call_exchange exchange (requests refs.1 candles.1),
    )
