-- ===== src/Perp/Executor.antt =====
-- executor.go: orders on their way to the exchange, and the exchange's user events on their way to
-- the order management. The exchange's answers are given from outside; so is whether a channel takes
-- an event.
pub mod Tags
mod Tests
use signalix.Prelude.{
  ℕ, Bool, true, false, not, ◌&&◌, ◌||◌, Option, none, some, List, [], ◌∷◌, String, Result, ok, err,
  str_eq, if◌then◌else◌,
}
use signalix.Prelude.Dict.{Dict, lookup, insert, erase}
use signalix.Prelude.Text.{trim_space}
use signalix.Numbers.{Numbers}
use signalix.Models.{
  Market, perp, OrderSide, OrderType, OrderStatus, Order, OrderEvent, is_terminal,
}
use signalix.Oms.{Failure}
use signalix.Exchange.{Codec}
use signalix.Projection.{
  Outside, Projection, OrderSnapshot, UserEvent, order_update, position_update, balance_update,
  other_event, on_user_event,
}

-- perp.PlaceRequest, without the time in force, which is always GTC, and ReduceOnly, always false
pub record PlaceRequest : Type 0 where
  pub contract : String
  pub side : OrderSide
  pub order_type : OrderType
  pub size : String
  pub price : Option String
  pub client_id : String

abbrev pub place_request : Order → PlaceRequest
place_request o = record {
  contract = o.symbol;
  side = o.side;
  order_type = o.order_type;
  size = o.size;
  price = o.price;
  client_id = o.id;
}

-- What the executor calls: Place gives the exchange's id of the order or a nil response, Cancel takes
-- the contract and that id, and so does GetOrder.
pub record Client : Type 0 where
  pub place : PlaceRequest → Result Failure (Option String)
  pub cancel : String → String → Option Failure
  pub get_order : String → String → Result Failure (Option OrderSnapshot)

-- The fields of PerpExecutor that change, its projection, and the events it has put on its channel,
-- newest first.
pub record Executor (D : Type 0) : Type 0 where
  pub tag_to_local : Dict String
  pub proj : Option (Projection D)
  pub order_events : List OrderEvent

module _ (codec : Codec) where
  -- registerClientTag
  unfoldable pub register_client_tag : String → Dict String → Dict String
  register_client_tag id m =
      if str_eq id "" || str_eq (codec.tag_from_local id) ""
      then m
      else insert (codec.tag_from_local id) id m

  -- unregisterClientTag
  unfoldable pub unregister_client_tag : String → Dict String → Dict String
  unregister_client_tag tag m = if str_eq (trim_space tag) "" then m else erase (trim_space tag) m

  abbrev pub local_or : Option String → String × Bool → String
  local_or (some local) r = local
  local_or none r = if r.1 then r.0 else ""

  -- resolveLocalClientID
  unfoldable pub resolve_local_client_id : String → Dict String → String
  resolve_local_client_id tag m =
      let t = trim_space tag in
      if str_eq t "" then "" else local_or (lookup t m) (codec.local_from_tag t)

  -- The event of an order's snapshot
  unfoldable pub order_event : OrderSnapshot → Dict String → OrderEvent
  unfolding resolve_local_client_id
  order_event v m = record {
    market = perp;
    exchange_id = v.exchange_order_id;
    client_id = resolve_local_client_id (trim_space v.client_id) m;
    status = v.status;
    filled_size = v.filled_size;
    updated_at = v.updated_at;
  }

  -- orderEventFromUserEvent, with the client's tag
  unfoldable pub order_event_from_user_event :
      Option UserEvent → Dict String → Option (OrderEvent × String)
  unfolding order_event
  order_event_from_user_event (some (order_update (some v))) m =
      some (order_event v m, trim_space v.client_id)
  order_event_from_user_event (some (order_update none)) m = none
  order_event_from_user_event (some (position_update v)) m = none
  order_event_from_user_event (some (balance_update u)) m = none
  order_event_from_user_event (some other_event) m = none
  order_event_from_user_event none m = none

  module _ (num : Numbers) where
    open num use {Decimal}

    -- emitOrderEvent: an event that is not delivered is dropped
    abbrev pub emit_order_event : Bool → OrderEvent → Executor Decimal → Executor Decimal
    emit_order_event delivered oe s =
        if delivered then record s { order_events = oe ∷ s.order_events } else s

    abbrev pub project :
        Outside → Option UserEvent → Option (Projection Decimal) → Option (Projection Decimal)
    project out ev none = none
    project out ev (some p) = some (on_user_event num out ev p)

    unfoldable pub pump_order :
        Bool → Option (OrderEvent × String) → Executor Decimal → Executor Decimal
    unfolding unregister_client_tag
    pump_order delivered none s = s
    pump_order delivered (some (oe, tag)) s =
        let t = emit_order_event delivered oe s in
        if not (str_eq tag "") && is_terminal oe.status
        then record t { tag_to_local = unregister_client_tag tag t.tag_to_local }
        else t

    -- One round of pump
    unfoldable pub pump : Outside → Bool → Option UserEvent → Executor Decimal → Executor Decimal
    unfolding pump_order order_event_from_user_event
    pump out delivered ev s =
        pump_order delivered (order_event_from_user_event ev s.tag_to_local)
          (record s { proj = project out ev s.proj })

    -- With the exchange's answer to Place
    unfoldable pub placed :
        Order
        → Result Failure (Option String)
        → Executor Decimal
        → Executor Decimal × Result Failure String
    unfolding register_client_tag
    placed o (err e) s = (s, err e)
    placed o (ok none) s = (s, err "nil place response")
    placed o (ok (some x)) s =
        (record s { tag_to_local = register_client_tag o.id s.tag_to_local }, ok x)

    -- Place
    unfoldable pub place :
        Client → Option Order → Executor Decimal → Executor Decimal × Result Failure String
    unfolding placed
    place client none s = (s, err "nil order")
    place client (some o) s = placed o (client.place (place_request o)) s

-- Cancel
unfoldable pub cancel : Client → Option Order → Option Failure
cancel client none = some "nil order"
cancel client (some o) = client.cancel o.symbol o.exchange_id

abbrev pub synced : Order → Result Failure (Option OrderSnapshot) → Result Failure OrderEvent
synced o (err e) = err e
synced o (ok none) = err "nil order snapshot"
synced o (ok (some v)) = ok (record {
  market = perp;
  exchange_id = v.exchange_order_id;
  client_id = o.id;
  status = v.status;
  filled_size = v.filled_size;
  updated_at = v.updated_at;
})

-- Sync
unfoldable pub sync : Client → Option Order → Result Failure OrderEvent
sync client none = err "nil order"
sync client (some o) = synced o (client.get_order o.symbol o.exchange_id)
