-- ===== src/Perp/Router/Absent.antt =====
-- A strategy that no subscription names.
use signalix.Prelude.{
  ◌≡◌, ◌≢◌, refl, inl, inr, Bool, true, false, Option, List, [], ◌∷◌, String, str_eq, eq_iff, arith,
  Bool-cases, if◌then◌else◌,
}
use signalix.Prelude.Dict.{Dict, lookup, insert}
use signalix.Oms.{Failure}
use signalix.Perp.Router.{
  CandleKey, key_eq, CandleMap, find_key, put_key, has_name, add_name, remove_name, Subscription,
  Router, names_or_empty, Collected, subscribe_symbol, subscribe_symbols, leave_push, leave_candles,
  unsubscribe_all,
}

module _ (name : String) where
  abbrev AbsentPush : Dict (List String) → Type 0
  AbsentPush [] = Unit
  AbsentPush ((k, ns) ∷ m) = (has_name name ns ≡ false) × AbsentPush m

  abbrev AbsentCandles : CandleMap (List String) → Type 0
  AbsentCandles [] = Unit
  AbsentCandles ((k, ns) ∷ m) = (has_name name ns ≡ false) × AbsentCandles m

  pub record Absent (s : Router) : Type 0 where
    pub push : AbsentPush s.ticker_push_subs
    pub candles : AbsentCandles s.candle_subs

  -- The sets
  has_name-remove_self : (ns : List String) → has_name name (remove_name name ns) ≡ false
  unfolding has_name remove_name
  has_name-remove_self [] = refl
  has_name-remove_self (n ∷ ns) = ground (arith, has_name-remove_self ns)

  has_name-remove :
      (other : String) (ns : List String)
      → has_name name ns ≡ false
      → has_name name (remove_name other ns) ≡ false
  unfolding has_name remove_name
  has_name-remove other [] h = refl
  has_name-remove other (n ∷ ns) h = ground (arith, h, has_name-remove other ns)

  has_name-add :
      (other : String) (ns : List String)
      → other ≢ name
      → has_name name ns ≡ false
      → has_name name (add_name other ns) ≡ false
  unfolding has_name add_name
  has_name-add other ns ne h = ground (arith, h, eq_iff other name, ne)

  -- The maps
  pub lookup-AbsentPush :
      (k : String) (m : Dict (List String))
      → AbsentPush m
      → has_name name (names_or_empty (lookup k m)) ≡ false
  unfolding lookup has_name
  lookup-AbsentPush k [] a = refl
  lookup-AbsentPush k ((j, ns) ∷ m) a = ground (arith, a.0, lookup-AbsentPush k m a.1)

  insert-AbsentPush :
      (k : String) (ns : List String) (m : Dict (List String))
      → has_name name ns ≡ false
      → AbsentPush m
      → AbsentPush (insert k ns m)
  unfolding insert
  insert-AbsentPush k ns [] h a = (h, tt)
  insert-AbsentPush k ns ((j, w) ∷ m) h a = elim (Bool-cases (str_eq j k)) [
    | inl here ↦ rw here (h, a.1)
    | inr there ↦ rw there (a.0, insert-AbsentPush k ns m h a.1)
  ]

  pub find_key-AbsentCandles :
      (k : CandleKey) (m : CandleMap (List String))
      → AbsentCandles m
      → has_name name (names_or_empty (find_key k m)) ≡ false
  unfolding find_key has_name
  find_key-AbsentCandles k [] a = refl
  find_key-AbsentCandles k ((j, ns) ∷ m) a = elim (Bool-cases (key_eq j k)) [
    | inl here ↦ rw here a.0
    | inr there ↦ rw there (find_key-AbsentCandles k m a.1)
  ]

  put_key-AbsentCandles :
      (k : CandleKey) (ns : List String) (m : CandleMap (List String))
      → has_name name ns ≡ false
      → AbsentCandles m
      → AbsentCandles (put_key k ns m)
  unfolding put_key
  put_key-AbsentCandles k ns [] h a = (h, tt)
  put_key-AbsentCandles k ns ((j, w) ∷ m) h a = elim (Bool-cases (key_eq j k)) [
    | inl here ↦ rw here (h, a.1)
    | inr there ↦ rw there (a.0, put_key-AbsentCandles k ns m h a.1)
  ]

  keep_push :
      (k : String) (l : List String) (rest : Dict (List String))
      → has_name name l ≡ false
      → AbsentPush rest
      → AbsentPush (elim l [ [] ↦ rest | n ∷ left ↦ (k, n ∷ left) ∷ rest ])
  keep_push k [] rest h a = a
  keep_push k (n ∷ left) rest h a = (h, a)

  abbrev kept_candles :
      CandleKey
      → List String
      → CandleMap (List String) × List CandleKey
      → CandleMap (List String) × List CandleKey
  kept_candles k l rest = elim l [
    | [] ↦ (rest.0, k ∷ rest.1)
    | n ∷ left ↦ ((k, n ∷ left) ∷ rest.0, rest.1)
  ]

  keep_candles :
      (k : CandleKey) (l : List String) (rest : CandleMap (List String) × List CandleKey)
      → has_name name l ≡ false
      → AbsentCandles rest.0
      → AbsentCandles (kept_candles k l rest).0
  keep_candles k [] rest h a = a
  keep_candles k (n ∷ left) rest h a = (h, a)

  leave_push_self : (m : Dict (List String)) → AbsentPush (leave_push name m)
  unfolding leave_push
  leave_push_self [] = tt
  leave_push_self ((k, ns) ∷ m) =
      keep_push k (remove_name name ns) (leave_push name m) (has_name-remove_self ns)
        (leave_push_self m)

  pub leave_push-AbsentPush :
      (other : String) (m : Dict (List String)) → AbsentPush m → AbsentPush (leave_push other m)
  unfolding leave_push
  leave_push-AbsentPush other [] a = tt
  leave_push-AbsentPush other ((k, ns) ∷ m) a =
      keep_push k (remove_name other ns) (leave_push other m) (has_name-remove other ns a.0)
        (leave_push-AbsentPush other m a.1)

  leave_candles_self : (m : CandleMap (List String)) → AbsentCandles (leave_candles name m).0
  unfolding leave_candles
  leave_candles_self [] = tt
  leave_candles_self ((k, ns) ∷ m) =
      keep_candles k (remove_name name ns) (leave_candles name m) (has_name-remove_self ns)
        (leave_candles_self m)

  pub leave_candles-AbsentCandles :
      (other : String) (m : CandleMap (List String))
      → AbsentCandles m
      → AbsentCandles (leave_candles other m).0
  unfolding leave_candles
  leave_candles-AbsentCandles other [] a = tt
  leave_candles-AbsentCandles other ((k, ns) ∷ m) a =
      keep_candles k (remove_name other ns) (leave_candles other m) (has_name-remove other ns a.0)
        (leave_candles-AbsentCandles other m a.1)

  -- Operations keep the strategy absent.
  subscribe_symbol-Absent :
      (other interval : String) (push : Bool) (symbol : String) (c : Collected)
      → other ≢ name
      → Absent c.router
      → Absent (subscribe_symbol other interval push symbol c).router
  unfolding subscribe_symbol
  subscribe_symbol-Absent other interval push symbol c ne a = record {
    push = pushed push;
    candles =
        put_key-AbsentCandles (symbol, interval)
          (add_name other (names_or_empty (find_key (symbol, interval) c.router.candle_subs)))
          c.router.candle_subs
          (has_name-add other (names_or_empty (find_key (symbol, interval) c.router.candle_subs)) ne
            (find_key-AbsentCandles (symbol, interval) c.router.candle_subs a.candles))
          a.candles;
  }
    where
      pushed :
          (p : Bool)
          → AbsentPush (
              if p
              then insert symbol
                  (add_name other (names_or_empty (lookup symbol c.router.ticker_push_subs)))
                  c.router.ticker_push_subs
              else c.router.ticker_push_subs)
      pushed true =
          insert-AbsentPush symbol
            (add_name other (names_or_empty (lookup symbol c.router.ticker_push_subs)))
            c.router.ticker_push_subs
            (has_name-add other (names_or_empty (lookup symbol c.router.ticker_push_subs)) ne
              (lookup-AbsentPush symbol c.router.ticker_push_subs a.push))
            a.push
      pushed false = a.push

  pub subscribe_symbols-Absent :
      (other interval : String) (push : Bool) (symbols : List String) (c : Collected)
      → other ≢ name
      → Absent c.router
      → Absent (subscribe_symbols other interval push symbols c).router
  unfolding subscribe_symbols
  subscribe_symbols-Absent other interval push [] c ne a = a
  subscribe_symbols-Absent other interval push (x ∷ xs) c ne a =
      subscribe_symbols-Absent other interval push xs (subscribe_symbol other interval push x c) ne
        (subscribe_symbol-Absent other interval push x c ne a)

  pub subscribe_symbols-sent :
      (other interval : String) (push : Bool) (symbols : List String) (c : Collected)
      → (subscribe_symbols other interval push symbols c).router.sent ≡ c.router.sent
  unfolding subscribe_symbols subscribe_symbol
  subscribe_symbols-sent other interval push [] c = refl
  subscribe_symbols-sent other interval push (x ∷ xs) c =
      subscribe_symbols-sent other interval push xs (subscribe_symbol other interval push x c)

  pub unsubscribe_all_self :
      (exchange : List Subscription → Option Failure) (s : Router)
      → Absent (unsubscribe_all exchange name s).0
  unfolding unsubscribe_all
  unsubscribe_all_self exchange s = record {
    push = leave_push_self s.ticker_push_subs;
    candles = leave_candles_self s.candle_subs;
  }
