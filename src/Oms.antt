-- ===== src/Oms.antt =====
-- The order management of internal/app/oms/execution_engine.go. One goroutine handles the commands
-- and the order events one after another, so the engine's state is passed from handler to handler.
-- The orders are shared by pointer: a pointer to an order stands for its key in the map, so the
-- update channel holds keys. A change through a pointer is an `insert` under the key at which the
-- handler found the order, which is the id that the order had then (Run.Valid); the id is a field as
-- any other, and what is written may have another one.
pub mod Validate
pub mod Submit
pub mod Commands
pub mod Queries
pub mod Run
use signalix.Prelude.{ℕ, ◌+◌, Bool, Option, List, ◌∷◌, String, Result, if◌then◌else◌}
use signalix.Prelude.Int.{ℤ}
use signalix.Prelude.Dict.{Dict, insert}
use signalix.Models.{Market, OrderStatus, Order, OrderEvent, ContractMeta, valid}

-- The text of an error that comes from outside.
abbrev pub Failure : Type 0
Failure = String

-- What validateOrderForPlace returns.
pub data PlaceError : Type 0 where
  lookup_failed : Failure → PlaceError
  invalid_size size_not_integer size_below_minimum size_above_maximum size_not_aligned : PlaceError
  invalid_price price_not_aligned : PlaceError

-- The errors that the handlers reply.
pub data OmsError : Type 0 where
  nil_order no_executor ctx_done : OmsError
  duplicate_order : String → OrderStatus → OmsError
  order_not_found : String → OmsError
  cannot_cancel : OrderStatus → OmsError
  invalid_order : PlaceError → OmsError
  retries_exhausted : ℤ → Option Failure → OmsError
  cancel_failed sync_failed store_failed : Failure → OmsError

-- What a command's reply channel receives: an error or nil; nothing, where there is no channel; or
-- the handler waits for ever, on a send to a nil channel.
pub data Reply : Type 0 where
  replied : Option OmsError → Reply
  no_reply blocked : Reply

-- ExecutionStats
pub record Stats : Type 0 where
  pub submitted_orders : ℕ
  pub filled_orders : ℕ
  pub cancelled_orders : ℕ
  pub rejected_orders : ℕ
  pub failed_orders : ℕ
  pub retries : ℕ
  pub last_update_time : ℕ

-- The fields of ExecutionEngine that its goroutine changes, and what it has sent out: the keys put
-- on orderUpdateCh and the copies that SaveOrder stored, newest first. `sends` and `saves` count
-- the attempts at either.
pub record Oms : Type 0 where
  pub orders : Dict Order
  pub stats : Stats
  pub updates : List String
  pub saved : List Order
  pub sends : ℕ
  pub saves : ℕ

-- The fields that are set before Start. `has_executor` says which markets have an executor that is
-- not nil; `max_retries` may be negative, since SetMaxRetries does not test it.
pub record Config : Type 0 where
  pub default_market : Market
  pub has_executor : Market → Bool
  pub has_store : Bool
  pub meta_lookup : Option (String → Result Failure ContractMeta)
  pub max_retries : ℤ

-- What happens outside while one command or event is handled: the clock, the context at the start
-- of an attempt and in the wait before it, the executor's answers (Place by attempt), whether the
-- n-th send is taken before the channel is found full or the context done, and whether the n-th
-- SaveOrder succeeds.
pub record Env : Type 0 where
  pub now : ℕ
  pub now_stats : ℕ
  pub now_done : ℕ
  pub ctx_done_before : ℕ → Bool
  pub ctx_done_waiting : ℕ → Bool
  pub place : ℕ → Order → Result Failure String
  pub cancel : Order → Option Failure
  pub sync : Order → Result Failure (Option OrderEvent)
  pub delivered : ℕ → Bool
  pub stored : ℕ → Bool

-- executorFor on an order that is not nil
unfoldable pub has_executor_for : Config → Order → Bool
has_executor_for cfg o = cfg.has_executor (if valid o.market then o.market else cfg.default_market)

-- `e.orders[key] = order`, or a write through the pointer to the order that stands under the key; what
-- is written may have another id.
pub put_order : String → Order → Oms → Oms
put_order key o s = record s { orders = insert key o s.orders }

-- syncOrderToStore; an error of the store is only logged
pub sync_order_to_store : Config → Env → Order → Oms → Oms
sync_order_to_store cfg env o s =
    if cfg.has_store
    then record s {
      saved = if env.stored s.saves then o ∷ s.saved else s.saved;
      saves = s.saves + 1;
    }
    else s

-- sendOrderUpdate: the order goes to the store only after it went to the channel
pub send_order_update : Config → Env → String → Order → Oms → Oms
send_order_update cfg env key o s =
    if env.delivered s.sends
    then sync_order_to_store cfg env o (record s { updates = key ∷ s.updates; sends = s.sends + 1 })
    else record s { sends = s.sends + 1 }

-- A change of the order under the key, and the update that always follows it.
pub publish : Config → Env → String → Order → Oms → Oms
publish cfg env key o s = send_order_update cfg env key o (put_order key o s)
