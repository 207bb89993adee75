-- ===== src/Perp/Router/Retry.antt =====
-- A subscription that failed at the exchange, tried again.
use signalix.Prelude.{
  ◌≡◌, refl, ap, ◌∙◌, inl, inr, Bool, true, false, ◌&&◌, Option, none, some, List, [], ◌∷◌, String,
  str_eq, eq_iff, eq_refl, &&-eq-true, Bool-cases,
}
use signalix.Prelude.Dict.{lookup, lookup-insert}
use signalix.Oms.{Failure}
use signalix.Perp.Router.{
  CandleKey, key_eq, CandleMap, find_key, put_key, add_name, Subscription, Router, names_or_empty,
  count_or_zero, Collected, is_zero_count, is_none, subscribe_symbol, subscribe_symbols, requests,
  call_exchange, subscribed, subscribe_contracts,
}

key_eq_refl : (k : CandleKey) → key_eq k k ≡ true
key_eq_refl k = rw (eq_refl, eq_refl) refl

key_eq-false : (j k x : CandleKey) → key_eq j k ≡ true → key_eq k x ≡ false → key_eq j x ≡ false
key_eq-false j k x h n =
    let e = &&-eq-true (str_eq j.0 k.0) (str_eq j.1 k.1) h in
    ap (λ y. str_eq y x.0 && str_eq j.1 x.1) ((eq_iff j.0 k.0).0 e.0)
    ∙ ap (λ y. str_eq k.0 x.0 && str_eq y x.1) ((eq_iff j.1 k.1).0 e.1)
    ∙ n

find_key-put_key_self :
    (k : CandleKey) (v : List String) (m : CandleMap (List String))
    → find_key k (put_key k v m) ≡ some v
unfolding find_key put_key
find_key-put_key_self k v [] = rw key_eq_refl refl
find_key-put_key_self k v ((j, w) ∷ m) = elim (Bool-cases (key_eq j k)) [
  | inl here ↦ rw (here, key_eq_refl) refl
  | inr there ↦ rw (there, there) (find_key-put_key_self k v m)
]

-- What is there stays there.
is_none-put_key :
    (k x : CandleKey) (v : List String) (m : CandleMap (List String))
    → is_none (find_key x m) ≡ false
    → is_none (find_key x (put_key k v m)) ≡ false
unfolding find_key put_key
is_none-put_key k x v [] h = absurd (cc h)
is_none-put_key k x v ((j, w) ∷ m) h = elim (Bool-cases (key_eq j k)) [
  | inl here ↦ rw here (elim (Bool-cases (key_eq k x)) [
    | inl mine ↦ rw mine refl
    | inr other ↦ rw other (rw (key_eq-false j k x here other) at h)
  ])
  | inr there ↦ rw there (elim (Bool-cases (key_eq j x)) [
    | inl mine ↦ rw mine refl
    | inr other ↦ rw other (is_none-put_key k x v m (rw other at h))
  ])
]

-- The symbol is counted, and its candlesticks have a set.
abbrev pub Known : Router → String → String → Type 0
Known s interval symbol =
    (is_zero_count (count_or_zero (lookup symbol s.ticker_ref)) ≡ false)
    × (is_none (find_key (symbol, interval) s.candle_subs) ≡ false)

-- Subscribing a symbol makes it known, and keeps what was known.
subscribe_symbol-Known :
    (name interval : String) (push : Bool) (symbol : String) (c : Collected)
    → Known (subscribe_symbol name interval push symbol c).router interval symbol
unfolding subscribe_symbol
subscribe_symbol-Known name interval push symbol c = (
  rw (lookup-insert, eq_refl) refl,
  ap is_none (
      find_key-put_key_self (symbol, interval)
        (add_name name (names_or_empty (find_key (symbol, interval) c.router.candle_subs)))
        c.router.candle_subs),
)

subscribe_symbol_keeps :
    (name interval : String) (push : Bool) (symbol x : String) (c : Collected)
    → Known c.router interval x
    → Known (subscribe_symbol name interval push symbol c).router interval x
unfolding subscribe_symbol
subscribe_symbol_keeps name interval push symbol x c k = (
  rw lookup-insert
      (elim (Bool-cases (str_eq symbol x)) [ inl same ↦ rw same refl | inr other ↦ rw other k.0 ]),
  is_none-put_key (symbol, interval) (x, interval)
      (add_name name (names_or_empty (find_key (symbol, interval) c.router.candle_subs)))
      c.router.candle_subs k.1,
)

subscribe_symbols_keeps :
    (name interval : String) (push : Bool) (symbols : List String) (x : String) (c : Collected)
    → Known c.router interval x
    → Known (subscribe_symbols name interval push symbols c).router interval x
unfolding subscribe_symbols
subscribe_symbols_keeps name interval push [] x c k = k
subscribe_symbols_keeps name interval push (y ∷ ys) x c k =
    subscribe_symbols_keeps name interval push ys x (subscribe_symbol name interval push y c)
      (subscribe_symbol_keeps name interval push y x c k)

abbrev AllKnown : Router → String → List String → Type 0
AllKnown s interval [] = Unit
AllKnown s interval (x ∷ xs) = Known s interval x × AllKnown s interval xs

subscribe_symbols-AllKnown :
    (name interval : String) (push : Bool) (symbols : List String) (c : Collected)
    → AllKnown (subscribe_symbols name interval push symbols c).router interval symbols
unfolding subscribe_symbols
subscribe_symbols-AllKnown name interval push [] c = tt
subscribe_symbols-AllKnown name interval push (x ∷ xs) c = (
  subscribe_symbols_keeps name interval push xs x (subscribe_symbol name interval push x c)
      (subscribe_symbol-Known name interval push x c),
  subscribe_symbols-AllKnown name interval push xs (subscribe_symbol name interval push x c),
)

AllKnown-subscribe_symbol :
    (name interval : String) (push : Bool) (symbol : String) (c : Collected) (xs : List String)
    → AllKnown c.router interval xs
    → AllKnown (subscribe_symbol name interval push symbol c).router interval xs
AllKnown-subscribe_symbol name interval push symbol c [] k = tt
AllKnown-subscribe_symbol name interval push symbol c (x ∷ xs) k = (
  subscribe_symbol_keeps name interval push symbol x c k.0,
  AllKnown-subscribe_symbol name interval push symbol c xs k.1,
)

-- Symbols that are known ask for nothing.
abbrev AsksNothing : Collected → Type 0
AsksNothing c = (c.new_tickers ≡ []) × (c.new_keys ≡ [])

subscribe_symbol-AsksNothing :
    (name interval : String) (push : Bool) (symbol : String) (c : Collected)
    → Known c.router interval symbol
    → AsksNothing c
    → AsksNothing (subscribe_symbol name interval push symbol c)
unfolding subscribe_symbol
subscribe_symbol-AsksNothing name interval push symbol c k a = (rw k.0 a.0, rw k.1 a.1)

subscribe_symbols-AsksNothing :
    (name interval : String) (push : Bool) (symbols : List String) (c : Collected)
    → AllKnown c.router interval symbols
    → AsksNothing c
    → AsksNothing (subscribe_symbols name interval push symbols c)
unfolding subscribe_symbols
subscribe_symbols-AsksNothing name interval push [] c k a = a
subscribe_symbols-AsksNothing name interval push (x ∷ xs) c k a =
    subscribe_symbols-AsksNothing name interval push xs (subscribe_symbol name interval push x c)
      (AllKnown-subscribe_symbol name interval push x c xs k.1)
      (subscribe_symbol-AsksNothing name interval push x c k.0 a)

-- Once SubscribeContracts was called, whatever the exchange answered, a second call with the same
-- arguments finds nothing new, asks the exchange for nothing, and returns no error.
pub subscribe_contracts_retry :
    (exchange again : List Subscription → Option Failure) (name : String) (symbols : List String)
    (interval : String) (push : Bool) (s : Router)
    → let first = subscribe_contracts exchange name symbols interval push s in
      ((subscribed name symbols interval push first.0).new_tickers ≡ [])
      × (((subscribed name symbols interval push first.0).new_keys ≡ [])
          × ((subscribe_contracts again name symbols interval push first.0).1 ≡ none))
unfolding subscribe_contracts subscribed call_exchange requests
subscribe_contracts_retry exchange again name symbols interval push s =
    let start : Collected = record { router = s; new_tickers = []; new_keys = [] } in
    let after : Collected = record {
      router = (subscribe_symbols name interval push symbols start).router;
      new_tickers = [];
      new_keys = [];
    } in
    let a =
      subscribe_symbols-AsksNothing name interval push symbols after
        (subscribe_symbols-AllKnown name interval push symbols start) (refl, refl) in
    (
      a.0,
      (
        a.1,
        ap
              (λ t.
                call_exchange again
                  (requests t (subscribe_symbols name interval push symbols after).new_keys))
              a.0
            ∙ ap (λ ks. call_exchange again (requests [] ks)) a.1,
      ),
    )
