-- ===== src/Oms/Run/Outcome.antt =====
-- What becomes of one order: its submission, its cancellation and the events about it.
use signalix.Prelude.{
  ℕ, zero, suc, ◌≡◌, refl, ap, ◌∙◌, sym, ◌⊎◌, inl, inr, true, false, Option, none, some, String,
  str_eq, Result, ok, err, Bool-cases, Option-cases, if◌then◌else◌,
}
use signalix.Prelude.Dict.{lookup}
use signalix.Numbers.{Numbers}
use signalix.Models.{
  Order, OrderEvent, OrderStatus, pending, partial_filled, filled, other, submitted, rejected,
  cancelled, is_terminal,
}
use signalix.Oms.{
  Failure, PlaceError, OmsError, Oms, Config, Env, no_executor, ctx_done, invalid_order,
  retries_exhausted, Reply, replied, publish, has_executor_for,
}
use signalix.Oms.Validate.{validate_order_for_place}
use signalix.Oms.Submit.{
  handle_submit_success, handle_submit_error, fail, count_retry, interrupted, answered,
  attempt_loop, submit_valid, submit_with_retry, submit_new, submit_unless, submit_checked,
  exec_submit, registered, count_submitted,
}
use signalix.Oms.Commands.{
  find_order, apply_to, apply_order_event, updated, count_filled, cancel_found, cancel_open,
  exec_cancel,
}
use signalix.Oms.Run.Keys.{IsValid, lookup-publish_self, lookup-publish, lookup-IsKeyed}
use signalix.Oms.Run.Induction.{find_order-lookup}

-- Nil replied, the order stands as submitted; an error replied, it stands as rejected.
abbrev pub Settled : String → Oms × Option OmsError → Type 0
Settled id (t, none) = (p : Order) × (lookup id t.orders ≡ some p) × (p.status ≡ submitted)
Settled id (t, some e) = (p : Order) × (lookup id t.orders ≡ some p) × (p.status ≡ rejected)

module _ (cfg : Config) (env : Env) where
  fail-Settled : (o : Order) (e : OmsError) (s : Oms) → Settled o.id (fail cfg env o e s)
  unfolding handle_submit_error
  fail-Settled o e s = (
    record o { status = rejected; updated_at = env.now_done },
    lookup-publish_self cfg env (record o { status = rejected; updated_at = env.now_done }) s,
    refl,
  )

  answered-Settled :
      (o : Order) (s : Oms) (r : Result Failure String) (next : Failure → Oms × Option OmsError)
      → ((e : Failure) → Settled o.id (next e))
      → Settled o.id (answered cfg env o s r next)
  unfolding answered handle_submit_success
  answered-Settled o s (ok x) next f = (
    record o { exchange_id = x; status = submitted; updated_at = env.now_done },
    lookup-publish_self cfg env
        (record o { exchange_id = x; status = submitted; updated_at = env.now_done }) s,
    refl,
  )
  answered-Settled o s (err e) next f = f e

  attempt_loop-Settled :
      (n k : ℕ) (last : Option Failure) (o : Order) (s : Oms)
      → Settled o.id (attempt_loop cfg env n k last o s)
  unfolding attempt_loop
  attempt_loop-Settled zero k last o s = fail-Settled o (retries_exhausted cfg.max_retries last) s
  attempt_loop-Settled (suc n) k last o s = elim (Bool-cases (interrupted cfg env k)) [
    | inl ended ↦ rw (ended, attempt_loop) (fail-Settled o ctx_done s)
    | inr going ↦
        rw (going, attempt_loop)
          (answered-Settled o _ (env.place k o) _
            (λ e. attempt_loop-Settled n (suc k) (some e) o (count_retry cfg env k s)))
  ]

-- The reply, and the order in the map.
abbrev pub Answered : String → Oms × Reply → Type 0
Answered id (t, reply) =
    (p : Order) × (lookup id t.orders ≡ some p)
    × (((reply ≡ replied none) × (p.status ≡ submitted))
        ⊎ ((e : OmsError) × (reply ≡ replied (some e)) × (p.status ≡ rejected)))

Settled-answer :
    (id : String) (r : Oms × Option OmsError) → Settled id r → Answered id (r.0, replied r.1)
Settled-answer id (t, none) (p, found, st) = (p, found, inl (refl, st))
Settled-answer id (t, some e) (p, found, st) = (p, found, inr (e, refl, st))

module _ (num : Numbers) (cfg : Config) (env : Env) where
  submit_valid-Settled :
      (o : Order) (s : Oms) (e : Option PlaceError) → Settled o.id (submit_valid num cfg env o s e)
  unfolding submit_valid
  submit_valid-Settled o s (some e) = fail-Settled cfg env o (invalid_order e) s
  submit_valid-Settled o s none = elim (Bool-cases (has_executor_for cfg o)) [
    | inl able ↦ rw (able, submit_valid) (attempt_loop-Settled cfg env _ 0 none o s)
    | inr unable ↦ rw (unable, submit_valid) (fail-Settled cfg env o no_executor s)
  ]

  submit_unless-Settled : (o : Order) (s : Oms) → Answered o.id (submit_unless num cfg env o s none)
  unfolding submit_unless submit_new submit_with_retry
  submit_unless-Settled o s =
      let p = registered num cfg env o in
      let t = count_submitted num cfg env (publish cfg env p.id p s) in
      let e = validate_order_for_place num cfg p in
      Settled-answer o.id (submit_valid num cfg env p t e) (submit_valid-Settled p t e)

  -- Once the submission of an order with a new id and a reply channel returns, the order stands
  -- under its id, as submitted if nil was replied and as rejected if an error was.
  pub exec_submit-Settled :
      (o : Order) (s : Oms)
      → lookup o.id s.orders ≡ none
      → Answered o.id (exec_submit num cfg env (some o) true s)
  unfolding exec_submit submit_checked
  exec_submit-Settled o s new = rw new (submit_unless-Settled o s)

-- What a cancellation of the order `id` comes to.
abbrev pub CancelOutcome : Config → Env → String → Oms → Oms × Reply → Type 0
CancelOutcome cfg env id s (t, reply) =
    ((e : OmsError) × (reply ≡ replied (some e)) × (t ≡ s))
    ⊎ ((o : Order) × (lookup id s.orders ≡ some o)
        × (is_terminal o.status ≡ false)
        × (env.cancel o ≡ none)
        × (reply ≡ replied none)
        × (lookup id t.orders ≡ some (record o { status = cancelled; updated_at = env.now_done })))

-- What an event comes to.
abbrev pub EventOutcome : Config → Env → OrderEvent → Oms → Oms → Type 0
EventOutcome cfg env ev s t =
    ((find_order ev s.orders ≡ none) × (t ≡ s))
    ⊎ ((o : Order) × (find_order ev s.orders ≡ some o)
        × (lookup o.id s.orders ≡ some o)
        × ((k : String)
            → lookup k t.orders ≡ (
                if str_eq o.id k
                then some (record o {
                  status = ev.status;
                  filled_size = ev.filled_size;
                  updated_at = ev.updated_at;
                })
                else lookup k s.orders)))

module _ (cfg : Config) (env : Env) where
  cancel_open-outcome :
      (id : String) (o : Order) (s : Oms) (e : Option Failure)
      → IsValid s
      → lookup id s.orders ≡ some o
      → is_terminal o.status ≡ false
      → env.cancel o ≡ e
      → CancelOutcome cfg env id s (cancel_open cfg env o s e)
  unfolding cancel_open
  cancel_open-outcome id o s (some e) v h open_ c = inl (_, refl, refl)
  cancel_open-outcome id o s none v h open_ c = inr (
    o,
    h,
    open_,
    c,
    refl,
    ap
          (λ k.
            lookup k
              (publish cfg env o.id (record o { status = cancelled; updated_at = env.now_done })
                s).orders)
          (sym (lookup-IsKeyed id o s.orders v.keyed h))
        ∙ lookup-publish_self cfg env (record o { status = cancelled; updated_at = env.now_done })
            s,
  )

  cancel_found-outcome :
      (id : String) (s : Oms) (r : Option Order)
      → IsValid s
      → lookup id s.orders ≡ r
      → CancelOutcome cfg env id s (cancel_found cfg env id r s)
  unfolding cancel_found
  cancel_found-outcome id s none v h = inl (_, refl, refl)
  cancel_found-outcome id s (some o) v h = elim (Bool-cases (is_terminal o.status)) [
    | inl done ↦ rw (done, cancel_found) (inl (_, refl, refl))
    | inr going ↦ elim (Bool-cases (has_executor_for cfg o)) [
      | inl able ↦
          rw (going, able, cancel_found) (cancel_open-outcome id o s (env.cancel o) v h going refl)
      | inr unable ↦ rw (going, unable, cancel_found) (inl (_, refl, refl))
    ]
  ]

  -- A cancellation with a reply channel, in a state where every order stands once and under its own
  -- id, either replies an error and changes nothing, or replies nil, and then the order was known
  -- and not finished, the executor had cancelled it, and it stands as cancelled.
  pub exec_cancel-outcome :
      (id : String) (s : Oms)
      → IsValid s
      → CancelOutcome cfg env id s (exec_cancel cfg env id true s)
  unfolding exec_cancel
  exec_cancel-outcome id s v = cancel_found-outcome id s (lookup id s.orders) v refl

  orders-count_filled : (st : OrderStatus) (s : Oms) → (count_filled cfg env st s).orders ≡ s.orders
  orders-count_filled pending s = refl
  orders-count_filled submitted s = refl
  orders-count_filled partial_filled s = refl
  orders-count_filled filled s = refl
  orders-count_filled cancelled s = refl
  orders-count_filled rejected s = refl
  orders-count_filled (other x) s = refl

  -- In a state where every order stands once and under its own id, an event that finds its order
  -- sets the order's status, filled size and time to those of the event, whatever its status was,
  -- and changes nothing else of it and no other order; an event that finds none changes nothing.
  pub apply_order_event-outcome :
      (ev : OrderEvent) (s : Oms)
      → IsValid s
      → EventOutcome cfg env ev s (apply_order_event cfg env (some ev) s)
  unfolding apply_order_event apply_to
  apply_order_event-outcome ev s v = elim (Option-cases (find_order ev s.orders)) [
    | inl unknown ↦ inl (unknown, rw (unknown, apply_to) refl)
    | inr (o, known) ↦ inr (
      o,
      known,
      find_order-lookup ev s o v known,
      λ k.
          rw
            (
              known,
              apply_to,
              orders-count_filled ev.status (publish cfg env o.id (updated cfg env ev o) s),
            )
            (lookup-publish cfg env (updated cfg env ev o) s k),
    )
  ]
