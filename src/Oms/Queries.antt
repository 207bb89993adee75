-- ===== src/Oms/Queries.antt =====
-- The read path: GetOrder, GetAllOrders, the filters and nonFinalOrderCountLocked.
pub mod Counts
use signalix.Prelude.{
  ℕ, suc, Bool, false, not, ◌&&◌, Option, List, [], ◌∷◌, String, str_eq, if◌then◌else◌,
}
use signalix.Prelude.Dict.{Dict, lookup}
use signalix.Models.{
  Order, OrderStatus, pending, submitted, partial_filled, filled, cancelled, rejected, other,
  is_non_final,
}
use signalix.Oms.{Oms}

-- GetOrder
unfoldable pub get_order : Oms → String → Option Order
get_order s id = lookup id s.orders

unfoldable pub values : Dict Order → List Order
values [] = []
values ((k, o) ∷ m) = o ∷ values m

-- GetAllOrders
unfoldable pub get_all_orders : Oms → List Order
unfolding values
get_all_orders s = values s.orders

unfoldable pub select : (Order → Bool) → Dict Order → List Order
select test [] = []
select test ((k, o) ∷ m) = let rest = select test m in if test o then o ∷ rest else rest

-- GetOrdersBySymbol
unfoldable pub get_orders_by_symbol : Oms → String → List Order
unfolding select
get_orders_by_symbol s symbol = select (λ o. str_eq o.symbol symbol) s.orders

-- The text of a status.
abbrev pub status_text : OrderStatus → String
status_text pending = "Pending"
status_text submitted = "Submitted"
status_text partial_filled = "PartialFilled"
status_text filled = "Filled"
status_text cancelled = "Cancelled"
status_text rejected = "Rejected"
status_text (other s) = s

-- GetOrdersByStatus
unfoldable pub get_orders_by_status : Oms → OrderStatus → List Order
unfolding select
get_orders_by_status s status =
    select (λ o. str_eq (status_text o.status) (status_text status)) s.orders

-- One order of nonFinalOrderCountLocked: the empty name stands for every strategy.
abbrev pub counted : String → Order → Bool
counted name o =
    if not (str_eq name "") && not (str_eq o.strategy_name name)
    then false
    else is_non_final o.status

unfoldable pub count_orders : String → Dict Order → ℕ
count_orders name [] = 0
count_orders name ((k, o) ∷ m) =
    let rest = count_orders name m in if counted name o then suc rest else rest

-- NonFinalOrderCount
unfoldable pub non_final_order_count : Oms → ℕ
unfolding count_orders
non_final_order_count s = count_orders "" s.orders

-- NonFinalOrderCountForStrategy
unfoldable pub non_final_order_count_for_strategy : Oms → String → ℕ
unfolding count_orders
non_final_order_count_for_strategy s name = count_orders name s.orders
