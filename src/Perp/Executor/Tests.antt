-- ===== src/Perp/Executor/Tests.antt =====
-- An order with a long name on its way, and the witness of the theorem on its events.
use signalix.Prelude.{◌≡◌, refl, sym, true, false, none, some, List, [], ◌∷◌, String, ok, str_eq}
use signalix.Prelude.Int.{ℤ, pos}
use signalix.Prelude.Text.{trim_space, trim_left, trim_right, is_space}
use signalix.Prelude.Dict.{lookup}
use signalix.Numbers.Whole.{whole}
use signalix.Models.{perp, OrderSide, OrderType, Order, submitted, partial_filled, filled}
use signalix.Oms.{Oms, Config, Env}
use signalix.Oms.Commands.{apply_order_event}
use signalix.Oms.Run.Keys.{IsValid}
use signalix.Exchange.{Codec}
use signalix.Exchange.ClientId.{
  tagged_body, all_hex, text_of, normalize_gate_order_text, gate_codec,
}
use signalix.Exchange.ClientId.RoundTrip.{IsDigest, gate_codec-IsCodec}
use signalix.Projection.{Outside, OrderSnapshot, order_update, other_event}
use signalix.Perp.Executor.{Client, Executor, order_event, place}
use signalix.Perp.Executor.Tags.{Message, user_event, run, apply_order_event-place}

-- One sum for every text
abbrev sum : String → String
sum s = "9f86d081884c7d659a2feaa0c55ad015a3bf4f1b2b0b822cd15d6c15b0f00a08"

sum-IsDigest : IsDigest sum
unfolding all_hex
sum-IsDigest s =
    ("9f86d081884c7d659a2feaa0c55a", ("d015a3bf4f1b2b0b822cd15d6c15b0f00a08", (refl, (refl, refl))))

abbrev codec : Codec
codec = gate_codec sum

abbrev config : Config
config = record {
  default_market = perp;
  has_executor = λ m. true;
  has_store = true;
  meta_lookup = none;
  max_retries = pos 2;
}

abbrev env : Env
env = record {
  now = 7;
  now_stats = 8;
  now_done = 9;
  ctx_done_before = λ k. false;
  ctx_done_waiting = λ k. false;
  place = λ k o. ok "77";
  cancel = λ o. none;
  sync = λ o. ok none;
  delivered = λ n. true;
  stored = λ n. true;
}

-- The exchange accepts every order.
abbrev client : Client
client = record {
  place = λ req. ok (some "77");
  cancel = λ symbol x. none;
  get_order = λ symbol x. ok none;
}

abbrev outside : Outside
outside = record {
  float_is_zero = λ s. none;
  equal_fold = str_eq;
  now = 5;
  has_equity_hook = false;
}

abbrev idle : Executor ℤ
idle = record { tag_to_local = []; proj = none; order_events = [] }

abbrev order : Order
order = record {
  id = "550e8400-e29b-41d4-a716-446655440000";
  exchange_id = "77";
  market = perp;
  symbol = "BTC_USDT";
  side = OrderSide.buy;
  order_type = OrderType.market;
  price = none;
  size = "4";
  filled_size = "0";
  status = submitted;
  created_at = 1;
  updated_at = 1;
  stop_price = none;
  strategy_name = "ma";
}

abbrev one_open : Oms
one_open = record {
  orders = ("550e8400-e29b-41d4-a716-446655440000", order) ∷ [];
  stats = record {
    submitted_orders = 1;
    filled_orders = 0;
    cancelled_orders = 0;
    rejected_orders = 0;
    failed_orders = 0;
    retries = 0;
    last_update_time = 1;
  };
  updates = [];
  saved = [];
  sends = 0;
  saves = 0;
}

one_open-IsValid : IsValid one_open
unfolding lookup
one_open-IsValid = record { distinct = (refl, tt); keyed = (refl, tt) }

abbrev part : OrderSnapshot
part = record {
  exchange_order_id = "77";
  filled_size = "1";
  status = partial_filled;
  client_id = "t-9f86d081884c7d659a2feaa0c55a";
  updated_at = 12;
}

abbrev full : OrderSnapshot
full = record part { filled_size = "4"; status = filled }

-- A partial fill, and an event of another kind, come first.
abbrev before : List Message
before =
    user_event outside true (some (order_update (some part)))
    ∷ user_event outside false (some other_event)
    ∷ []

tag_of_order : codec.tag_from_local order.id ≡ full.client_id
unfolding normalize_gate_order_text text_of tagged_body trim_space trim_left trim_right is_space
tag_of_order = refl

apply_order_event-place_example :
    let tags =
      (run whole codec before (place codec whole client (some order) idle).0).tag_to_local in
    lookup order.id
      (apply_order_event config env (some (order_event codec full tags)) one_open).orders
    ≡ some (record order { status = filled; filled_size = "4"; updated_at = 12 })
unfolding lookup
apply_order_event-place_example =
    apply_order_event-place whole codec client order "77" idle before full config env one_open order
      (gate_codec-IsCodec sum sum-IsDigest) (λ e. cc e) (λ e. cc (e, tag_of_order)) refl
      (λ e. refl, (tt, tt)) (sym tag_of_order) one_open-IsValid refl
