-- ===== src/Engine/KillSwitch/Tests.antt =====
-- The kill switch on a concrete order, and the witnesses of its theorems.
use signalix.Prelude.{ℕ, ◌≡◌, refl, true, false, none, [], ◌∷◌, ok, arith}
use signalix.Prelude.Int.{pos}
use signalix.Prelude.Dict.{lookup}
use signalix.Models.{perp, OrderSide, OrderType, Order, submitted}
use signalix.Oms.{Oms, Config, Env, has_executor_for}
use signalix.Oms.Commands.{exec_cancel, cancel_found, cancel_open}
use signalix.Oms.Queries.{select}
use signalix.Oms.Run.Keys.{IsValid}
use signalix.Engine.KillSwitch.{
  KillSwitch, Turn, cancel_each, cancel_order, open_orders, list_open_orders_snapshot,
  kill_switch_snapshot, cancel_all_open_orders, activate_kill_switch,
}
use signalix.Engine.KillSwitch.Closes.{
  IsQuiet, NoneOpen, activate_kill_switch-closes, activate_kill_switch_twice,
}

abbrev config : Config
config = record {
  default_market = perp;
  has_executor = λ m. true;
  has_store = true;
  meta_lookup = none;
  max_retries = pos 2;
}

abbrev env : Env
env = record {
  now = 7;
  now_stats = 8;
  now_done = 9;
  ctx_done_before = λ k. false;
  ctx_done_waiting = λ k. false;
  place = λ k o. ok "77";
  cancel = λ o. none;
  sync = λ o. ok none;
  delivered = λ n. true;
  stored = λ n. true;
}

abbrev order : Order
order = record {
  id = "a";
  exchange_id = "77";
  market = perp;
  symbol = "BTC_USDT";
  side = OrderSide.buy;
  order_type = OrderType.market;
  price = none;
  size = "4";
  filled_size = "0";
  status = submitted;
  created_at = 1;
  updated_at = 1;
  stop_price = none;
  strategy_name = "ma";
}

abbrev one_open : Oms
one_open = record {
  orders = ("a", order) ∷ [];
  stats = record {
    submitted_orders = 1;
    filled_orders = 0;
    cancelled_orders = 0;
    rejected_orders = 0;
    failed_orders = 0;
    retries = 0;
    last_update_time = 1;
  };
  updates = [];
  saved = [];
  sends = 0;
  saves = 0;
}

abbrev off : KillSwitch
off = record { active = false; activated_at = 0; reason = "" }

-- Nothing is handled before the cancellation, and the reply comes.
abbrev turns : ℕ → Turn
turns i = record { before = λ s. s; env = env; taken = true; replies = true }

one_open-IsValid : IsValid one_open
unfolding lookup
one_open-IsValid = record { distinct = (refl, tt); keyed = (refl, tt) }

turns-IsQuiet : (j : ℕ) → IsQuiet (turns j).before
turns-IsQuiet j = record {
  keeps_valid = λ s v. v;
  opens_none = λ s k o found going. (o, found, going);
}

activate_kill_switch-closes_example :
    NoneOpen (activate_kill_switch config false turns 5 "drawdown" true (off, one_open)).0.1
unfolding activate_kill_switch cancel_all_open_orders list_open_orders_snapshot open_orders
    cancel_each cancel_order exec_cancel cancel_found cancel_open lookup select kill_switch_snapshot
    has_executor_for
activate_kill_switch-closes_example =
    activate_kill_switch-closes config false turns 5 "drawdown" true off one_open refl refl
      turns-IsQuiet one_open-IsValid refl (omega arith) refl

activate_kill_switch_twice_example :
    let first = activate_kill_switch config false turns 5 "drawdown" true (off, one_open) in
    let second = activate_kill_switch config false turns 6 "again" true first.0 in
    (first.0.0.active ≡ true)
    × ((second.0 ≡ first.0)
        × ((second.1.status ≡ first.1.status) × (second.1.cancel_attempted ≡ 0)))
activate_kill_switch_twice_example =
    activate_kill_switch_twice config false turns turns 5 6 "drawdown" "again" true true
      (off, one_open)
