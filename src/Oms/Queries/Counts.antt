-- ===== src/Oms/Queries/Counts.antt =====
-- How the counts of open orders relate.
use signalix.Prelude.{◌+◌, ◌≤◌, [], ◌∷◌, String, eq_iff, arith, ◌≢◌}
use signalix.Prelude.Dict.{Dict}
use signalix.Models.{Order}
use signalix.Oms.{Oms}
use signalix.Oms.Queries.{count_orders, non_final_order_count, non_final_order_count_for_strategy}

count_orders-le : (name : String) (m : Dict Order) → count_orders name m ≤ count_orders "" m
unfolding count_orders
count_orders-le name [] = omega arith
count_orders-le name ((k, o) ∷ m) = ground (arith, count_orders-le name m)

-- Two strategies with different names share the open orders between them: their counts together
-- never exceed the count of all.
count_orders_disjoint :
    (a b : String) (m : Dict Order)
    → a ≢ b
    → a ≢ ""
    → b ≢ ""
    → count_orders a m + count_orders b m ≤ count_orders "" m
unfolding count_orders
count_orders_disjoint a b [] ne na nb = omega arith
count_orders_disjoint a b ((k, o) ∷ m) ne na nb = ground (
  arith,
  count_orders_disjoint a b m ne na nb,
  eq_iff a "",
  eq_iff b "",
  eq_iff o.strategy_name a,
  eq_iff o.strategy_name b,
)

-- Two strategies with different names that are not empty never count an open order twice: their
-- counts together are at most the count of all open orders.
pub non_final_order_count_disjoint :
    (s : Oms) (a b : String)
    → a ≢ b
    → a ≢ ""
    → b ≢ ""
    → non_final_order_count_for_strategy s a + non_final_order_count_for_strategy s b
      ≤ non_final_order_count s
unfolding non_final_order_count non_final_order_count_for_strategy
non_final_order_count_disjoint s a b ne na nb = count_orders_disjoint a b s.orders ne na nb
