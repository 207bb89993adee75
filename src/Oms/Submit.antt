-- ===== src/Oms/Submit.antt =====
-- The submit command: execSubmit, submitWithRetry and its two endings.
use signalix.Prelude.{
  ℕ, zero, suc, ◌+◌, Bool, true, false, Option, none, some, String, Result, ok, err, if◌then◌else◌,
}
use signalix.Prelude.Int.{ℤ, pos, negsuc}
use signalix.Prelude.Dict.{lookup}
use signalix.Numbers.{Numbers}
use signalix.Models.{Order, pending, submitted, rejected, valid}
use signalix.Oms.{
  Failure, PlaceError, OmsError, nil_order, no_executor, ctx_done, duplicate_order, invalid_order,
  retries_exhausted, Reply, replied, no_reply, blocked, Oms, Config, Env, has_executor_for, publish,
}
use signalix.Oms.Validate.{validate_order_for_place}

module _ (cfg : Config) (env : Env) where
  -- handleSubmitSuccess
  unfoldable pub handle_submit_success : Order → String → Oms → Oms
  handle_submit_success o exchange_id s =
      publish cfg env o.id
        (record o { exchange_id = exchange_id; status = submitted; updated_at = env.now_done }) s

  abbrev count_failure : Oms → Oms
  count_failure s = record s {
    stats = record s.stats {
      rejected_orders = s.stats.rejected_orders + 1;
      failed_orders = s.stats.failed_orders + 1;
    };
  }

  -- handleSubmitError
  unfoldable pub handle_submit_error : Order → Oms → Oms
  handle_submit_error o s =
      count_failure
        (publish cfg env o.id (record o { status = rejected; updated_at = env.now_done }) s)

  -- `e.handleSubmitError(order, err); return err`
  abbrev pub fail : Order → OmsError → Oms → Oms × Option OmsError
  fail o e s = (handle_submit_error o s, some e)

  abbrev pub count_retry : ℕ → Oms → Oms
  count_retry zero s = s
  count_retry (suc k) s = record s { stats = record s.stats { retries = s.stats.retries + 1 } }

  -- The context ends the attempt `k`: at its start, or, from the second attempt on, in the wait.
  abbrev pub interrupted : ℕ → Bool
  interrupted zero = env.ctx_done_before 0
  interrupted (suc k) = if env.ctx_done_before (suc k) then true else env.ctx_done_waiting (suc k)

  -- What the loop does with the answer of Place: done, or the next attempt.
  unfoldable pub answered :
      Order
      → Oms
      → Result Failure String
      → (Failure → Oms × Option OmsError)
      → Oms × Option OmsError
  answered o s (ok exchange_id) next = (handle_submit_success o exchange_id s, none)
  answered o s (err e) next = next e

  -- The loop of submitWithRetry, with the attempts that are left, the number of this one and the
  -- last error.
  unfoldable pub attempt_loop : ℕ → ℕ → Option Failure → Order → Oms → Oms × Option OmsError
  attempt_loop zero k last o s = fail o (retries_exhausted cfg.max_retries last) s
  attempt_loop (suc n) k last o s =
      let next = λ (e : Failure). attempt_loop n (suc k) (some e) o (count_retry k s) in
      let rest = answered o (count_retry k s) (env.place k o) next in
      if interrupted k then fail o ctx_done s else rest

-- `attempt <= e.maxRetries` from 0 on: the number of rounds.
abbrev pub rounds : ℤ → ℕ
rounds (pos n) = suc n
rounds (negsuc n) = 0

module _ (num : Numbers) (cfg : Config) (env : Env) where
  unfoldable pub submit_valid : Order → Oms → Option PlaceError → Oms × Option OmsError
  unfolding attempt_loop answered
  submit_valid o s (some e) = fail cfg env o (invalid_order e) s
  submit_valid o s none =
      if has_executor_for cfg o
      then attempt_loop cfg env (rounds cfg.max_retries) 0 none o s
      else fail cfg env o no_executor s

  unfoldable pub submit_with_retry : Order → Oms → Oms × Option OmsError
  unfolding submit_valid
  submit_with_retry o s = submit_valid o s (validate_order_for_place num cfg o)

  -- The order as execSubmit registers it.
  abbrev pub registered : Order → Order
  registered o = record o {
    market = if valid o.market then o.market else cfg.default_market;
    status = pending;
    created_at = env.now;
    updated_at = env.now;
  }

  abbrev pub count_submitted : Oms → Oms
  count_submitted s = record s {
    stats = record s.stats {
      submitted_orders = s.stats.submitted_orders + 1;
      last_update_time = env.now_stats;
    };
  }

  abbrev pub reply_error : Oms × Option OmsError → Oms × Reply
  reply_error (s, e) = (s, replied e)

  unfoldable pub submit_new : Order → Oms → Oms × Option OmsError
  unfolding submit_with_retry
  submit_new o s =
      submit_with_retry (registered o) (count_submitted (publish cfg env o.id (registered o) s))

  unfoldable pub submit_unless : Order → Oms → Option Order → Oms × Reply
  unfolding submit_new
  submit_unless o s (some existing) = (s, replied (some (duplicate_order o.id existing.status)))
  submit_unless o s none = reply_error (submit_new o s)

  unfoldable pub submit_checked : Order → Oms → Oms × Reply
  unfolding submit_unless
  submit_checked o s = submit_unless o s (lookup o.id s.orders)

  -- execSubmit: the command's order, and whether it has a reply channel
  unfoldable pub exec_submit : Option Order → Bool → Oms → Oms × Reply
  unfolding submit_checked
  exec_submit none false s = (s, blocked)
  exec_submit none true s = (s, replied (some nil_order))
  exec_submit (some o) false s = (s, no_reply)
  exec_submit (some o) true s = submit_checked o s
