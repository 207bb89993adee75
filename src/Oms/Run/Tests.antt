-- ===== src/Oms/Run/Tests.antt =====
-- The order management on concrete orders.
use signalix.Prelude.{
  ◌+◌, ◌≡◌, refl, true, false, none, some, [], ◌∷◌, ok, err, arith, length, ◌==◌, if◌then◌else◌,
}
use signalix.Prelude.Int.{pos}
use signalix.Prelude.Text.{trim_space}
use signalix.Prelude.Dict.{lookup, insert}
use signalix.Numbers.Whole.{whole, scan_int}
use signalix.Models.{
  perp, OrderSide, OrderType, Order, OrderEvent, OrderStatus, pending, submitted, filled,
  ContractMeta,
}
use signalix.Oms.{
  PlaceError, retries_exhausted, Oms, Config, Env, has_executor_for, put_order, sync_order_to_store,
  send_order_update, publish,
}
use signalix.Oms.Validate.{
  validate_order_for_place, validate_order_size, validate_size, parse_optional_positive,
}
use signalix.Oms.Submit.{fail, handle_submit_success, submit_with_retry, exec_submit}
use signalix.Oms.Commands.{
  find_order, by_client_id, by_exchange_id, find_exchange_id, apply_to, apply_order_event,
  exec_cancel, hydrate_from_snapshot,
}
use signalix.Oms.Queries.{non_final_order_count, count_orders}
use signalix.Oms.Run.{submit, event, handle, start, next}
use signalix.Oms.Run.Keys.{IsValid}
use signalix.Oms.Run.Outcome.{
  Answered, CancelOutcome, EventOutcome, exec_submit-Settled, exec_cancel-outcome,
  apply_order_event-outcome,
}
use signalix.Oms.Run.Retry.{
  Places, Refuses, add_retries, submit_with_retry-Places, submit_with_retry-Refuses,
}
use signalix.Oms.Run.Valid.{Reach-IsValid}
use signalix.Oms.Run.Persist.{IsPersisted, last_saved, Reach-IsPersisted}
use signalix.Oms.Run.Conserve.{Reach-conserves}

abbrev contract : ContractMeta
contract = record {
  contract = "BTC_USDT";
  quanto_multiplier = "1";
  order_size_min = "1";
  order_size_max = "100";
  order_price_step = "";
  order_size_step = "2";
  enable_decimal_size = false;
}

abbrev config : Config
config = record {
  default_market = perp;
  has_executor = λ m. true;
  has_store = true;
  meta_lookup = some (λ symbol. ok contract);
  max_retries = pos 2;
}

-- The executor is busy at the first attempt, and accepts the second.
abbrev busy_once : Env
busy_once = record {
  now = 100;
  now_stats = 101;
  now_done = 102;
  ctx_done_before = λ k. false;
  ctx_done_waiting = λ k. false;
  place = λ k o. if k == 0 then err "busy" else ok "X7";
  cancel = λ o. none;
  sync = λ o. ok none;
  delivered = λ n. true;
  stored = λ n. true;
}

abbrev always_busy : Env
always_busy = record busy_once { place = λ k o. err "busy" }

abbrev order : Order
order = record {
  id = "C1";
  exchange_id = "";
  market = perp;
  symbol = "BTC_USDT";
  side = OrderSide.buy;
  order_type = OrderType.market;
  price = none;
  size = "8";
  filled_size = "";
  status = pending;
  created_at = 0;
  updated_at = 0;
  stop_price = none;
  strategy_name = "trend";
}

abbrev other_order : Order
other_order = record order {
  id = "C2";
  exchange_id = "X2";
  status = submitted;
  strategy_name = "grid";
}

abbrev empty : Oms
empty = record {
  orders = [];
  stats = record {
    submitted_orders = 0;
    filled_orders = 0;
    cancelled_orders = 0;
    rejected_orders = 0;
    failed_orders = 0;
    retries = 0;
    last_update_time = 0;
  };
  updates = [];
  saved = [];
  sends = 0;
  saves = 0;
}

abbrev one_order : Oms
one_order = record empty { orders = ("C2", other_order) ∷ []; saved = other_order ∷ [] }

one_order-IsValid : IsValid one_order
unfolding lookup
one_order-IsValid = record { distinct = (refl, tt); keyed = (refl, tt) }

order_valid : validate_order_for_place whole config order ≡ none
unfolding validate_order_for_place validate_order_size validate_size parse_optional_positive
    trim_space scan_int
order_valid = refl

-- A size that is no multiple of the contract's step is refused.
odd_size_refused :
    validate_order_for_place whole config (record order { size = "7" })
    ≡ some PlaceError.size_not_aligned
unfolding validate_order_for_place validate_order_size validate_size parse_optional_positive
    trim_space scan_int
odd_size_refused = refl

second_attempt-Places : Places config busy_once order 1 "X7"
second_attempt-Places = record {
  going = λ i h. ground arith;
  failing = λ i h. ("busy", ground (arith, h));
  placed = refl;
}

three_attempts-Refuses : Refuses config always_busy order 2 "busy"
three_attempts-Refuses = record {
  going = λ i h. ground arith;
  failing = λ i h. ("busy", refl);
  last = refl;
}

submit_with_retry-Places_example :
    submit_with_retry whole config busy_once order one_order
    ≡ (handle_submit_success config busy_once order "X7" (add_retries 1 one_order), none)
unfolding has_executor_for
submit_with_retry-Places_example =
    submit_with_retry-Places whole config busy_once order 2 1 "X7" one_order order_valid refl refl
      (omega arith) second_attempt-Places

submit_with_retry-Refuses_example :
    submit_with_retry whole config always_busy order one_order
    ≡ fail config always_busy order
        (retries_exhausted (pos 2) (some "busy"))
        (add_retries 2 one_order)
unfolding has_executor_for
submit_with_retry-Refuses_example =
    submit_with_retry-Refuses whole config always_busy order 2 "busy" one_order order_valid refl
      refl three_attempts-Refuses

exec_submit-Settled_example :
    Answered "C1" (exec_submit whole config busy_once (some order) true one_order)
unfolding lookup
exec_submit-Settled_example = exec_submit-Settled whole config busy_once order one_order refl

exec_cancel-outcome_example :
    CancelOutcome config busy_once "C2" one_order (exec_cancel config busy_once "C2" true one_order)
exec_cancel-outcome_example = exec_cancel-outcome config busy_once "C2" one_order one_order-IsValid

-- A late event about an order that the exchange knows as X2.
abbrev partial : OrderEvent
partial = record {
  market = perp;
  exchange_id = "X2";
  client_id = "";
  status = OrderStatus.partial_filled;
  filled_size = "3";
  updated_at = 200;
}

apply_order_event-outcome_example :
    EventOutcome config busy_once partial one_order
      (apply_order_event config busy_once (some partial) one_order)
apply_order_event-outcome_example =
    apply_order_event-outcome config busy_once partial one_order one_order-IsValid

-- The order that the event is about had been filled: now it counts as open again.
abbrev finished : Oms
finished = record empty { orders = ("C2", record other_order { status = filled }) ∷ [] }

reopened :
    (non_final_order_count finished ≡ 0)
    × (non_final_order_count (apply_order_event config busy_once (some partial) finished) ≡ 1)
unfolding non_final_order_count count_orders apply_order_event apply_to find_order by_client_id
    by_exchange_id find_exchange_id publish put_order send_order_update sync_order_to_store insert
    lookup
reopened = (refl, refl)

-- The order is submitted, and then the event comes.
abbrev after_two : Oms
after_two =
    handle whole config always_busy (event (some partial))
      (handle whole config busy_once (submit (some order) true) one_order)

Reach-IsValid_example : IsValid after_two
unfolding hydrate_from_snapshot
Reach-IsValid_example = Reach-IsValid whole config [] one_order after_two one_order-IsValid (
    next always_busy (event (some partial)) tt (next busy_once (submit (some order) true) tt start))

Reach-conserves_example :
    length after_two.orders + one_order.stats.submitted_orders
    ≡ length one_order.orders + after_two.stats.submitted_orders
Reach-conserves_example = Reach-conserves whole config one_order after_two one_order-IsValid (
    next always_busy (event (some partial)) tt (next busy_once (submit (some order) true) tt start))

-- The engine before its hydration, and the store that it had filled.
abbrev before_start : Oms
before_start = record empty { saved = other_order ∷ [] }

before_start-IsPersisted : IsPersisted before_start
unfolding lookup
before_start-IsPersisted = record {
  valid = record { distinct = tt; keyed = tt };
  stored = λ id o h. absurd (cc h);
}

abbrev other_after : Order
other_after = record other_order {
  status = OrderStatus.partial_filled;
  filled_size = "3";
  updated_at = 200;
}

Reach-IsPersisted_example :
    last_saved "C2"
      (handle whole config busy_once
        (event (some partial))
        (hydrate_from_snapshot config (some other_order ∷ []) before_start)).saved
    ≡ some other_after
unfolding handle apply_order_event apply_to find_order by_client_id by_exchange_id find_exchange_id
    publish put_order send_order_update sync_order_to_store insert lookup hydrate_from_snapshot
    last_saved
Reach-IsPersisted_example =
    Reach-IsPersisted whole config (some other_order ∷ []) before_start
      (handle whole config busy_once (event (some partial))
        (hydrate_from_snapshot config (some other_order ∷ []) before_start))
      refl before_start-IsPersisted (refl, refl, tt)
      (next busy_once (event (some partial)) (record { delivers = λ n. refl; stores = λ n. refl })
        start)
      "C2" other_after refl
