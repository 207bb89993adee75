-- ===== src/Engine/KillSwitch.antt =====
-- kill_switch.go and the engine's calls of the order management that it uses (engine.go:
-- ListOpenOrdersSnapshot, CancelOrderViaOMS).
pub mod Closes
mod Tests
use signalix.Prelude.{
  ℕ, zero, suc, Bool, true, false, not, ◌&&◌, ◌||◌, Option, none, some, List, [], ◌∷◌, String,
  str_eq, is_some, if◌then◌else◌,
}
use signalix.Prelude.Int.{ℤ, pos, negsuc}
use signalix.Prelude.Text.{trim_space}
use signalix.Prelude.Dict.{Dict}
use signalix.Models.{Order, is_terminal}
use signalix.Oms.{OmsError, ctx_done, Reply, replied, no_reply, blocked, Oms, Config, Env}
use signalix.Oms.Commands.{exec_cancel}

-- killSwitchState
pub record KillSwitch : Type 0 where
  pub active : Bool
  pub activated_at : ℕ
  pub reason : String

-- killSwitchSnapshotLocked, a KillSwitchStatus with the fields of the state: the time only when active
unfoldable pub kill_switch_snapshot : KillSwitch → KillSwitch
kill_switch_snapshot k = record {
  active = k.active;
  activated_at = if k.active then k.activated_at else 0;
  reason = k.reason;
}

-- One cancellation on its way through the command queue: what the goroutine handles before it, what
-- happens while it is handled, and whether the queue takes the command and the reply comes before
-- the caller's context is done.
pub record Turn : Type 0 where
  pub before : Oms → Oms
  pub env : Env
  pub taken : Bool
  pub replies : Bool

-- What CancelOrder reads from its reply channel; with no reply it waits until its context is done.
abbrev pub reply_error : Reply → Option OmsError
reply_error (replied e) = e
reply_error no_reply = some ctx_done
reply_error blocked = some ctx_done

-- CancelOrder of the execution engine
unfoldable pub cancel_order : Config → Turn → String → Oms → Oms × Option OmsError
cancel_order cfg t id s =
    let r = exec_cancel cfg t.env id true (t.before s) in
    if t.taken
    then (r.0, if t.replies then reply_error r.1 else some ctx_done)
    else (t.before s, some ctx_done)

-- The loop of ListOpenOrdersSnapshot, which stops when enough orders are found.
unfoldable pub open_orders : ℕ → Dict Order → List Order
open_orders zero m = []
open_orders (suc left) [] = []
open_orders (suc left) ((k, o) ∷ m) =
    let skip = open_orders (suc left) m in
    let rest = open_orders left m in if is_terminal o.status then skip else o ∷ rest

-- ListOpenOrdersSnapshot
unfoldable pub list_open_orders_snapshot : ℤ → Oms → List Order
list_open_orders_snapshot (pos zero) s = open_orders 500 s.orders
list_open_orders_snapshot (pos (suc n)) s = open_orders (suc n) s.orders
list_open_orders_snapshot (negsuc n) s = open_orders 500 s.orders

-- The counts of cancelAllOpenOrders.
pub record Cancels : Type 0 where
  pub attempted : ℕ
  pub failed : ℕ
  pub oms : Oms

abbrev pub count_cancel : Bool → Cancels → Cancels
count_cancel fails c = record c {
  attempted = suc c.attempted;
  failed = if fails then suc c.failed else c.failed;
}

-- The loop of cancelAllOpenOrders; `i` numbers the cancellations.
unfoldable pub cancel_each : Config → (ℕ → Turn) → ℕ → List Order → Oms → Cancels
unfolding cancel_order
cancel_each cfg turns i [] s = record { attempted = 0; failed = 0; oms = s }
cancel_each cfg turns i (o ∷ os) s =
    let r = cancel_order cfg (turns i) o.id s in
    let skip = cancel_each cfg turns i os s in
    let rest = cancel_each cfg turns (suc i) os r.0 in
    if str_eq o.id "" then skip else count_cancel (is_some r.1) rest

-- cancelAllOpenOrders
unfoldable pub cancel_all_open_orders : Config → (ℕ → Turn) → Oms → Cancels
unfolding cancel_each list_open_orders_snapshot
cancel_all_open_orders cfg turns s =
    cancel_each cfg turns 0 (list_open_orders_snapshot (pos 500) s) s

-- KillSwitchActivateResult
pub record Activation : Type 0 where
  pub status : KillSwitch
  pub cancel_attempted : ℕ
  pub cancel_failed : ℕ

abbrev pub activated : String → ℕ → KillSwitch → KillSwitch
activated reason now k =
    if k.active then k else record { active = true; activated_at = now; reason = trim_space reason }

-- ActivateKillSwitch. `by_default` is CancelOpenOrdersOnActivate of the configuration.
unfoldable pub activate_kill_switch :
    Config
    → Bool
    → (ℕ → Turn)
    → ℕ
    → String
    → Bool
    → KillSwitch × Oms
    → (KillSwitch × Oms) × Activation
unfolding cancel_all_open_orders
activate_kill_switch cfg by_default turns now reason cancel (k, s) =
    let c = cancel_all_open_orders cfg turns s in
    let status = kill_switch_snapshot (activated reason now k) in
    if not k.active && (cancel || by_default)
    then (
      (activated reason now k, c.oms),
      record { status = status; cancel_attempted = c.attempted; cancel_failed = c.failed },
    )
    else (
      (activated reason now k, s),
      record { status = status; cancel_attempted = 0; cancel_failed = 0 },
    )

-- DeactivateKillSwitch
unfoldable pub deactivate_kill_switch : KillSwitch → KillSwitch × KillSwitch
unfolding kill_switch_snapshot
deactivate_kill_switch k = (
  record { active = false; activated_at = 0; reason = "" },
  kill_switch_snapshot (record { active = false; activated_at = 0; reason = "" }),
)
