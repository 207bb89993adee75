-- ===== src/Oms/Commands.antt =====
-- The other commands and the order events: execCancel, execSync, execFlush, applyOrderEvent, and the
-- hydration before Start.
use signalix.Prelude.{
  ◌+◌, Bool, true, false, Option, none, some, List, [], ◌∷◌, String, Result, ok, err, str_eq,
  if◌then◌else◌,
}
use signalix.Prelude.Dict.{Dict, lookup}
use signalix.Models.{Order, OrderEvent, OrderStatus, filled, cancelled, is_terminal, valid}
use signalix.Oms.{
  Failure, no_executor, order_not_found, cannot_cancel, cancel_failed, sync_failed, store_failed,
  Reply, replied, no_reply, Oms, Config, Env, has_executor_for, put_order, publish,
}

-- `for _, o := range e.orders`: the first order with the exchange's id, in the order of the visit.
unfoldable pub find_exchange_id : String → Dict Order → Option Order
find_exchange_id x [] = none
find_exchange_id x ((k, o) ∷ m) = if str_eq o.exchange_id x then some o else find_exchange_id x m

-- How applyOrderEvent finds its order: by the client's id, and failing that by the exchange's.
unfoldable pub by_client_id : OrderEvent → Dict Order → Option Order
by_client_id ev m = if str_eq ev.client_id "" then none else lookup ev.client_id m

unfoldable pub by_exchange_id : OrderEvent → Dict Order → Option Order
by_exchange_id ev m = if str_eq ev.exchange_id "" then none else find_exchange_id ev.exchange_id m

abbrev pub or_else {ℓ} : {A : Type ℓ} → Option A → Option A → Option A
or_else none b = b
or_else (some a) b = some a

unfoldable pub find_order : OrderEvent → Dict Order → Option Order
unfolding by_client_id by_exchange_id find_exchange_id
find_order ev m = or_else (by_client_id ev m) (by_exchange_id ev m)

module _ (cfg : Config) (env : Env) where
  -- The order after the event.
  abbrev pub updated : OrderEvent → Order → Order
  updated ev o = record o {
    status = ev.status;
    filled_size = ev.filled_size;
    updated_at = ev.updated_at;
  }

  abbrev pub count_filled : OrderStatus → Oms → Oms
  count_filled filled s = record s {
    stats = record s.stats { filled_orders = s.stats.filled_orders + 1 };
  }
  count_filled _ s = s

  unfoldable pub apply_to : OrderEvent → Option Order → Oms → Oms
  apply_to ev none s = s
  apply_to ev (some o) s = count_filled ev.status (publish cfg env o.id (updated ev o) s)

  -- applyOrderEvent; a nil event is ignored
  unfoldable pub apply_order_event : Option OrderEvent → Oms → Oms
  unfolding apply_to
  apply_order_event none s = s
  apply_order_event (some ev) s = apply_to ev (find_order ev s.orders) s

  abbrev pub count_cancelled : Oms → Oms
  count_cancelled s = record s {
    stats = record s.stats { cancelled_orders = s.stats.cancelled_orders + 1 };
  }

  -- With the executor's answer to Cancel.
  unfoldable pub cancel_open : Order → Oms → Option Failure → Oms × Reply
  cancel_open o s (some e) = (s, replied (some (cancel_failed e)))
  cancel_open o s none = (
    count_cancelled
        (publish cfg env o.id (record o { status = cancelled; updated_at = env.now_done }) s),
    replied none,
  )

  unfoldable pub cancel_found : String → Option Order → Oms → Oms × Reply
  unfolding cancel_open
  cancel_found id none s = (s, replied (some (order_not_found id)))
  cancel_found id (some o) s =
      if is_terminal o.status
      then (s, replied (some (cannot_cancel o.status)))
      else if has_executor_for cfg o
      then cancel_open o s (env.cancel o)
      else (s, replied (some no_executor))

  -- execCancel
  unfoldable pub exec_cancel : String → Bool → Oms → Oms × Reply
  unfolding cancel_found
  exec_cancel id false s = (s, no_reply)
  exec_cancel id true s = cancel_found id (lookup id s.orders) s

  -- With the executor's answer to Sync.
  unfoldable pub sync_answer : Oms → Result Failure (Option OrderEvent) → Oms × Reply
  unfolding apply_order_event
  sync_answer s (err e) = (s, replied (some (sync_failed e)))
  sync_answer s (ok ev) = (apply_order_event ev s, replied none)

  unfoldable pub sync_found : String → Option Order → Oms → Oms × Reply
  unfolding sync_answer
  sync_found id none s = (s, replied (some (order_not_found id)))
  sync_found id (some o) s =
      if has_executor_for cfg o then sync_answer s (env.sync o) else (s, replied (some no_executor))

  -- execSync
  unfoldable pub exec_sync : String → Bool → Oms → Oms × Reply
  unfolding sync_found
  exec_sync id false s = (s, no_reply)
  exec_sync id true s = sync_found id (lookup id s.orders) s

  -- The loop of execFlush, which stops at the first error of the store.
  unfoldable pub flush_all : Failure → Dict Order → Oms → Oms × Reply
  flush_all e [] s = (s, replied none)
  flush_all e ((k, o) ∷ m) s =
      let rest = flush_all e m (record s { saved = o ∷ s.saved; saves = s.saves + 1 }) in
      if env.stored s.saves
      then rest
      else (record s { saves = s.saves + 1 }, replied (some (store_failed e)))

  -- execFlush; `e` is the store's error, if it fails
  unfoldable pub exec_flush : Failure → Bool → Oms → Oms × Reply
  unfolding flush_all
  exec_flush e false s = (s, no_reply)
  exec_flush e true s = if cfg.has_store then flush_all e s.orders s else (s, replied none)

-- HydrateFromSnapshot; a nil entry is skipped.
unfoldable pub hydrate_from_snapshot : Config → List (Option Order) → Oms → Oms
hydrate_from_snapshot cfg [] s = s
hydrate_from_snapshot cfg (none ∷ os) s = hydrate_from_snapshot cfg os s
hydrate_from_snapshot cfg (some o ∷ os) s = hydrate_from_snapshot cfg os (
    put_order o.id (record o { market = if valid o.market then o.market else cfg.default_market })
      s)
