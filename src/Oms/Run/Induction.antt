-- ===== src/Oms/Run/Induction.antt =====
-- One principle for the invariants of the loop: a property that survives a recount, the acceptance
-- of a new order, a change of a known one and a flush survives every message.
use signalix.Prelude.{
  ℕ, zero, suc, ◌≡◌, refl, ap, ◌∙◌, Bool, true, false, Option, none, some, String, str_eq, eq_iff,
  Result, ok, err, inl, inr, arith, Bool-cases, Option-cases, [], ◌∷◌, eq_refl,
}
use mathlib.Core.Option.{some-injective}
use signalix.Prelude.Dict.{Dict, lookup}
use signalix.Numbers.{Numbers}
use signalix.Models.{Order, OrderEvent, OrderStatus, is_terminal}
use signalix.Oms.{
  Failure, PlaceError, Oms, Stats, Config, Env, OmsError, retries_exhausted, ctx_done,
  invalid_order, no_executor, publish, has_executor_for,
}
use signalix.Oms.Submit.{
  count_submitted, handle_submit_success, handle_submit_error, fail, count_retry, interrupted,
  attempt_loop, answered, submit_valid, submit_unless, submit_with_retry, submit_new,
  submit_checked, exec_submit, registered,
}
use signalix.Oms.Commands.{
  find_order, by_client_id, by_exchange_id, find_exchange_id, apply_to, apply_order_event,
  sync_answer, cancel_open, cancel_found, exec_cancel, sync_found, exec_sync, flush_all, exec_flush,
  count_filled,
}
use signalix.Oms.Run.{Message, submit, cancel, sync, flush, event, handle}
use signalix.Oms.Run.Keys.{IsValid, IsKeyed, lookup-IsKeyed, lookup-publish_self}
use signalix.Prelude.Dict.{IsDict}

-- An order that is found under an exchange id stands under its own id.
find_exchange_id-lookup :
    (x : String) (m : Dict Order) (o : Order)
    → IsDict m
    → IsKeyed m
    → find_exchange_id x m ≡ some o
    → lookup o.id m ≡ some o
unfolding find_exchange_id lookup
find_exchange_id-lookup x [] o d h e = cc
find_exchange_id-lookup x ((k, p) ∷ m) o d h e = elim (Bool-cases (str_eq p.exchange_id x)) [
  | inl here ↦ rw (← some-injective p o (rw here at e), h.0, eq_refl) refl
  | inr there ↦
      let found = find_exchange_id-lookup x m o d.1 h.1 (rw there at e) in
      elim (Bool-cases (str_eq k o.id)) [
        | inl same ↦ absurd (cc (d.0, found, (eq_iff k o.id).0 same))
        | inr other ↦ rw other found
      ]
]

pub find_order-lookup :
    (ev : OrderEvent) (s : Oms) (o : Order)
    → IsValid s
    → find_order ev s.orders ≡ some o
    → lookup o.id s.orders ≡ some o
unfolding find_order by_client_id by_exchange_id
find_order-lookup ev s o v e = ground (
  arith,
  find_exchange_id-lookup ev.exchange_id s.orders o v.distinct v.keyed,
  lookup-IsKeyed ev.client_id o s.orders v.keyed,
)

module _ (num : Numbers) (cfg : Config) (env : Env) (P : Oms → Type 0)
    (valid : (s : Oms) → P s → IsValid s)
    (recount : (s : Oms) (st : Stats)
      → st.submitted_orders ≡ s.stats.submitted_orders
      → P s
      → P (record s { stats = st }))
    (accept : (o : Order) (s : Oms)
      → lookup o.id s.orders ≡ none
      → P s
      → P (count_submitted num cfg env (publish cfg env o.id o s)))
    (change : (o old : Order) (s : Oms)
      → lookup o.id s.orders ≡ some old
      → P s
      → P (publish cfg env o.id o s))
    (flushed : (e : Failure) (s : Oms) → P s → P (flush_all cfg env e s.orders s).0) where
  count_retry_keeps : (k : ℕ) (s : Oms) → P s → P (count_retry cfg env k s)
  count_retry_keeps zero s p = p
  count_retry_keeps (suc k) s p = recount s _ refl p

  count_retry_known :
      (k : ℕ) (s : Oms) (id : String) {old : Order}
      → lookup id s.orders ≡ some old
      → lookup id (count_retry cfg env k s).orders ≡ some old
  count_retry_known zero s id h = h
  count_retry_known (suc k) s id h = h

  fail_keeps :
      (o old : Order) (e : OmsError) (s : Oms)
      → lookup o.id s.orders ≡ some old
      → P s
      → P (fail cfg env o e s).0
  unfolding handle_submit_error
  fail_keeps o old e s h p = recount _ _ refl (change _ old s h p)

  answered_keeps :
      (o old : Order) (s : Oms) (r : Result Failure String) (next : Failure → Oms × Option OmsError)
      → lookup o.id s.orders ≡ some old
      → P s
      → ((e : Failure) → P (next e).0)
      → P (answered cfg env o s r next).0
  unfolding answered handle_submit_success
  answered_keeps o old s (ok exchange_id) next h p f = change _ old s h p
  answered_keeps o old s (err e) next h p f = f e

  attempt_loop_keeps :
      (n k : ℕ) (last : Option Failure) (o old : Order) (s : Oms)
      → lookup o.id s.orders ≡ some old
      → P s
      → P (attempt_loop cfg env n k last o s).0
  unfolding attempt_loop
  attempt_loop_keeps zero k last o old s h p =
      fail_keeps o old (retries_exhausted cfg.max_retries last) s h p
  attempt_loop_keeps (suc n) k last o old s h p = elim (Bool-cases (interrupted cfg env k)) [
    | inl ended ↦ rw (ended, attempt_loop) (fail_keeps o old ctx_done s h p)
    | inr going ↦
        let known = count_retry_known k s o.id h in
        let kept = count_retry_keeps k s p in
        rw (going, attempt_loop)
          (answered_keeps o old _ (env.place k o) _ known kept
            (λ e. attempt_loop_keeps n (suc k) (some e) o old _ known kept))
  ]

  submit_valid_keeps :
      (o old : Order) (s : Oms) (e : Option PlaceError)
      → lookup o.id s.orders ≡ some old
      → P s
      → P (submit_valid num cfg env o s e).0
  unfolding submit_valid
  submit_valid_keeps o old s (some e) h p = fail_keeps o old (invalid_order e) s h p
  submit_valid_keeps o old s none h p = elim (Bool-cases (has_executor_for cfg o)) [
    | inl able ↦ rw (able, submit_valid) (attempt_loop_keeps _ 0 none o old s h p)
    | inr unable ↦ rw (unable, submit_valid) (fail_keeps o old no_executor s h p)
  ]

  submit_unless_keeps :
      (o : Order) (s : Oms) → P s → P (submit_unless num cfg env o s (lookup o.id s.orders)).0
  submit_unless_keeps o s p = elim (Option-cases (lookup o.id s.orders)) [
    | inl new ↦ rw new (
        unfold submit_unless submit_new submit_with_retry in
        submit_valid_keeps _ (registered num cfg env o) _ _
          (lookup-publish_self cfg env (registered num cfg env o) s) (accept _ s new p))
    | inr (old, known) ↦ rw known (unfold submit_unless in p)
  ]

  exec_submit_keeps :
      (o : Option Order) (reply : Bool) (s : Oms) → P s → P (exec_submit num cfg env o reply s).0
  unfolding exec_submit submit_checked
  exec_submit_keeps none false s p = p
  exec_submit_keeps none true s p = p
  exec_submit_keeps (some o) false s p = p
  exec_submit_keeps (some o) true s p = submit_unless_keeps o s p

  count_filled_keeps : (st : OrderStatus) (s : Oms) → P s → P (count_filled cfg env st s)
  count_filled_keeps OrderStatus.filled s p = recount s _ refl p
  count_filled_keeps OrderStatus.pending s p = p
  count_filled_keeps _ s p = p

  apply_order_event_keeps :
      (ev : Option OrderEvent) (s : Oms) → P s → P (apply_order_event cfg env ev s)
  unfolding apply_order_event
  apply_order_event_keeps none s p = p
  apply_order_event_keeps (some ev) s p = elim (Option-cases (find_order ev s.orders)) [
    | inl unknown ↦ rw unknown (unfold apply_to in p)
    | inr (o, known) ↦ rw known (
        unfold apply_to in
        count_filled_keeps ev.status _
          (change _ o s (find_order-lookup ev s o (valid s p) known) p))
  ]

  cancel_open_keeps :
      (o old : Order) (s : Oms) (e : Option Failure)
      → lookup o.id s.orders ≡ some old
      → P s
      → P (cancel_open cfg env o s e).0
  unfolding cancel_open
  cancel_open_keeps o old s (some e) h p = p
  cancel_open_keeps o old s none h p = recount _ _ refl (change _ old s h p)

  -- An order found under `id` has that id, so it is known under its own.
  own_id :
      (id : String) (s : Oms) (o : Order)
      → P s
      → lookup id s.orders ≡ some o
      → lookup o.id s.orders ≡ some o
  own_id id s o p h =
      ap (λ k. lookup k s.orders) (lookup-IsKeyed id o s.orders (valid s p).keyed h) ∙ h

  cancel_found_keeps :
      (id : String) (o : Order) (s : Oms)
      → lookup o.id s.orders ≡ some o
      → P s
      → P (cancel_found cfg env id (some o) s).0
  unfolding cancel_found
  cancel_found_keeps id o s h p = elim (Bool-cases (is_terminal o.status)) [
    | inl done ↦ rw (done, cancel_found) p
    | inr running ↦ elim (Bool-cases (has_executor_for cfg o)) [
      | inl able ↦ rw (running, able, cancel_found) (cancel_open_keeps o o s (env.cancel o) h p)
      | inr unable ↦ rw (running, unable, cancel_found) p
    ]
  ]

  exec_cancel_keeps :
      (id : String) (reply : Bool) (s : Oms) → P s → P (exec_cancel cfg env id reply s).0
  unfolding exec_cancel
  exec_cancel_keeps id false s p = p
  exec_cancel_keeps id true s p = elim (Option-cases (lookup id s.orders)) [
    | inl unknown ↦ rw unknown (unfold cancel_found in p)
    | inr (o, known) ↦ rw known (cancel_found_keeps id o s (own_id id s o p known) p)
  ]

  sync_answer_keeps :
      (s : Oms) (r : Result Failure (Option OrderEvent)) → P s → P (sync_answer cfg env s r).0
  unfolding sync_answer
  sync_answer_keeps s (err e) p = p
  sync_answer_keeps s (ok ev) p = apply_order_event_keeps ev s p

  sync_found_keeps :
      (id : String) (o : Option Order) (s : Oms) → P s → P (sync_found cfg env id o s).0
  unfolding sync_found
  sync_found_keeps id none s p = p
  sync_found_keeps id (some o) s p = elim (Bool-cases (has_executor_for cfg o)) [
    | inl able ↦ rw (able, sync_found) (sync_answer_keeps s (env.sync o) p)
    | inr unable ↦ rw (unable, sync_found) p
  ]

  exec_sync_keeps :
      (id : String) (reply : Bool) (s : Oms) → P s → P (exec_sync cfg env id reply s).0
  unfolding exec_sync
  exec_sync_keeps id false s p = p
  exec_sync_keeps id true s p = sync_found_keeps id (lookup id s.orders) s p

  exec_flush_keeps :
      (e : Failure) (reply : Bool) (s : Oms) → P s → P (exec_flush cfg env e reply s).0
  unfolding exec_flush
  exec_flush_keeps e false s p = p
  exec_flush_keeps e true s p = elim (Bool-cases cfg.has_store) [
    | inl stored ↦ rw (stored, exec_flush) (flushed e s p)
    | inr unstored ↦ rw (unstored, exec_flush) p
  ]

  -- Every message keeps the property.
  pub handle_keeps : (m : Message) (s : Oms) → P s → P (handle num cfg env m s)
  unfolding handle
  handle_keeps (submit o reply) s p = exec_submit_keeps o reply s p
  handle_keeps (cancel id reply) s p = exec_cancel_keeps id reply s p
  handle_keeps (sync id reply) s p = exec_sync_keeps id reply s p
  handle_keeps (flush e reply) s p = exec_flush_keeps e reply s p
  handle_keeps (event ev) s p = apply_order_event_keeps ev s p
