-- ===== src/Perp/Router/Gone.antt =====
-- A strategy that has unsubscribed is sent nothing.
use signalix.Prelude.{
  ℕ, ◌≡◌, ◌≢◌, refl, ap, ◌∙◌, inl, inr, Bool, true, false, not, ◌||◌, Option, none, some, List, [],
  ◌∷◌, String, str_eq, arith, All, Bool-cases, if◌then◌else◌,
}
use signalix.Prelude.Dict.{lookup}
use signalix.Models.{TickerSnapshot}
use signalix.Klines.{CandlestickSnapshot}
use signalix.Oms.{Failure}
use signalix.Perp.Router.{
  CandleKey, find_key, has_name, Subscription, Update, ticker_update, kline_update, Router,
  names_or_empty, subscribed, subscribe_contracts, unsubscribe_all,
}
use signalix.Perp.Router.Events.{
  PublicEvent, ticker, candlestick, other_event, emit, emit_each, on_ticker, on_candlestick,
  on_public_event,
}
use signalix.Perp.Router.Absent.{
  Absent, lookup-AbsentPush, find_key-AbsentCandles, leave_push-AbsentPush,
  leave_candles-AbsentCandles, subscribe_symbols-Absent, subscribe_symbols-sent,
  unsubscribe_all_self,
}

-- What the router does, in any order
pub data Step : Type 0 where
  event : (Update → Bool) → ℕ → Option PublicEvent → Step
  subscribe : (List Subscription → Option Failure) → String → List String → String → Bool → Step
  unsubscribe : (List Subscription → Option Failure) → String → Step

unfoldable pub step : Step → Router → Router
unfolding on_public_event subscribe_contracts unsubscribe_all
step (event takes hist_max ev) s = on_public_event takes hist_max ev s
step (subscribe exchange name symbols interval push) s =
    (subscribe_contracts exchange name symbols interval push s).0
step (unsubscribe exchange name) s = (unsubscribe_all exchange name s).0

unfoldable pub run : List Step → Router → Router
unfolding step
run [] s = s
run (x ∷ xs) s = run xs (step x s)

-- The updates of one strategy
abbrev pub is_for : String → Update → Bool
is_for name (ticker_update n t) = str_eq n name
is_for name (kline_update n c) = str_eq n name

unfoldable pub updates_for : String → List Update → List Update
updates_for name [] = []
updates_for name (u ∷ us) =
    let rest = updates_for name us in if is_for name u then u ∷ rest else rest

-- The step does not subscribe the strategy.
abbrev pub Spares : String → Step → Type 0
Spares name (event takes hist_max ev) = Unit
Spares name (subscribe exchange n symbols interval push) = n ≢ name
Spares name (unsubscribe exchange n) = Unit

module _ (name : String) where
  -- What an event sends
  has_name-cons :
      (n : String) (ns : List String)
      → has_name name (n ∷ ns) ≡ false
      → (str_eq n name ≡ false) × (has_name name ns ≡ false)
  unfolding has_name
  has_name-cons n ns h = (ground (arith, h), ground (arith, h))

  updates_for-emit :
      (takes : Update → Bool) (hist_max : ℕ) (u : Update) (sent : List Update)
      → is_for name u ≡ false
      → updates_for name (emit takes hist_max u sent) ≡ updates_for name sent
  unfolding updates_for emit
  updates_for-emit takes hist_max u sent h = elim (Bool-cases (takes u)) [
    | inl taken ↦ rw (taken, updates_for, h) refl
    | inr lost ↦ rw lost refl
  ]

  updates_for-emit_each :
      (takes : Update → Bool) (hist_max : ℕ) (make : String → Update) (ns : List String)
      (sent : List Update)
      → ((n : String) → is_for name (make n) ≡ str_eq n name)
      → has_name name ns ≡ false
      → updates_for name (emit_each takes hist_max make ns sent) ≡ updates_for name sent
  unfolding updates_for emit_each emit has_name
  updates_for-emit_each takes hist_max make [] sent f h = refl
  updates_for-emit_each takes hist_max make (n ∷ ns) sent f h =
      let c = has_name-cons n ns h in
      updates_for-emit_each takes hist_max make ns (emit takes hist_max (make n) sent) f c.1
      ∙ updates_for-emit takes hist_max (make n) sent (f n ∙ c.0)

  -- An event leaves the subscriptions as they are, and sends an absent strategy nothing.
  pub record Silent (s t : Router) : Type 0 where
    pub absent : Absent name t
    pub same : updates_for name t.sent ≡ updates_for name s.sent

  unchanged : (s : Router) → Absent name s → Silent s s
  unchanged s a = record { absent = a; same = refl }

  Silent-if :
      (s : Router) (b : Bool) (x y : Router)
      → Silent s x
      → Silent s y
      → Silent s (if b then x else y)
  Silent-if s true x y p q = p
  Silent-if s false x y p q = q

  on_ticker-Silent :
      (takes : Update → Bool) (hist_max : ℕ) (t : Option TickerSnapshot) (s : Router)
      → Absent name s
      → Silent s (on_ticker takes hist_max t s)
  unfolding on_ticker
  on_ticker-Silent takes hist_max none s a = unchanged s a
  on_ticker-Silent takes hist_max (some t) s a = elim (Bool-cases (str_eq t.contract "")) [
    | inl nameless ↦ rw nameless (unchanged s a)
    | inr named ↦ rw named (record {
      absent = record { push = a.push; candles = a.candles };
      same =
          updates_for-emit_each takes hist_max (λ n. ticker_update n t)
            (names_or_empty (lookup t.contract s.ticker_push_subs)) s.sent (λ n. refl)
            (lookup-AbsentPush name t.contract s.ticker_push_subs a.push);
    })
  ]

  on_candlestick-Silent :
      (takes : Update → Bool) (hist_max : ℕ) (c : Option CandlestickSnapshot) (s : Router)
      → Absent name s
      → Silent s (on_candlestick takes hist_max c s)
  unfolding on_candlestick
  on_candlestick-Silent takes hist_max none s a = unchanged s a
  on_candlestick-Silent takes hist_max (some c) s a =
      let key : CandleKey = (c.contract, c.interval) in
      Silent-if s (str_eq c.contract "" || str_eq c.interval "") _ _ (unchanged s a) (
        Silent-if s (not c.window_closed) _ _
          (record { absent = record { push = a.push; candles = a.candles }; same = refl })
          (record {
            absent = record { push = a.push; candles = a.candles };
            same =
                updates_for-emit_each takes hist_max (λ n. kline_update n c)
                  (names_or_empty (find_key key s.candle_subs)) s.sent (λ n. refl)
                  (find_key-AbsentCandles name key s.candle_subs a.candles);
          }))

  on_public_event-Silent :
      (takes : Update → Bool) (hist_max : ℕ) (ev : Option PublicEvent) (s : Router)
      → Absent name s
      → Silent s (on_public_event takes hist_max ev s)
  unfolding on_public_event
  on_public_event-Silent takes hist_max none s a = unchanged s a
  on_public_event-Silent takes hist_max (some (ticker t)) s a =
      on_ticker-Silent takes hist_max t s a
  on_public_event-Silent takes hist_max (some (candlestick c)) s a =
      on_candlestick-Silent takes hist_max c s a
  on_public_event-Silent takes hist_max (some other_event) s a = unchanged s a

  step-Silent : (x : Step) (s : Router) → Spares name x → Absent name s → Silent s (step x s)
  unfolding step subscribe_contracts subscribed unsubscribe_all
  step-Silent (event takes hist_max ev) s free a = on_public_event-Silent takes hist_max ev s a
  step-Silent (subscribe exchange n symbols interval push) s free a = record {
    absent =
        subscribe_symbols-Absent name n interval push symbols
          (record { router = s; new_tickers = []; new_keys = [] }) free a;
    same = ap (updates_for name) (
        subscribe_symbols-sent name n interval push symbols
          (record { router = s; new_tickers = []; new_keys = [] }));
  }
  step-Silent (unsubscribe exchange n) s free a = record {
    absent = record {
      push = leave_push-AbsentPush name n s.ticker_push_subs a.push;
      candles = leave_candles-AbsentCandles name n s.candle_subs a.candles;
    };
    same = refl;
  }

  run-Silent :
      (xs : List Step) (s : Router)
      → All (Spares name) xs
      → Absent name s
      → updates_for name (run xs s).sent ≡ updates_for name s.sent
  unfolding run
  run-Silent [] s free a = refl
  run-Silent (x ∷ xs) s free a =
      let r = step-Silent x s free.0 a in run-Silent xs (step x s) free.1 r.absent ∙ r.same

  -- After UnsubscribeAll of a strategy, whatever the exchange answers, any sequence of public
  -- events, of subscriptions of other strategies and of unsubscriptions sends that strategy
  -- nothing: the updates for it on the channel are those of before.
  pub run-unsubscribe_all :
      (exchange : List Subscription → Option Failure) (s : Router) (xs : List Step)
      → All (Spares name) xs
      → updates_for name (run xs (unsubscribe_all exchange name s).0).sent ≡ updates_for name s.sent
  unfolding unsubscribe_all
  run-unsubscribe_all exchange s xs free =
      run-Silent xs (unsubscribe_all exchange name s).0 free (unsubscribe_all_self name exchange s)
