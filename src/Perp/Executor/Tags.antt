-- ===== src/Perp/Executor/Tags.antt =====
-- An order's events find it in the order management, however long its name is.
use signalix.Prelude.{
  ◌≡◌, ◌≢◌, refl, sym, ap, ◌∙◌, inl, inr, Bool, true, false, not, ◌&&◌, ◌||◌, Option, none, some,
  List, [], ◌∷◌, String, Result, ok, err, str_eq, eq_iff, eq_refl, All, &&-eq-true, Bool-cases,
}
use mathlib.Core.Option.{some-injective}
use std.Path.{subst}
use signalix.Prelude.Dict.{Dict, lookup, lookup-insert, lookup-erase}
use signalix.Prelude.Text.{trim_space}
use signalix.Prelude.Text.Trim.{trim_space-trim_space}
use signalix.Numbers.{Numbers}
use signalix.Models.{Order, OrderEvent, is_terminal}
use signalix.Oms.{Failure, Oms, Config, Env}
use signalix.Oms.Commands.{by_client_id, find_order, updated, apply_order_event}
use signalix.Oms.Run.Keys.{IsValid, lookup-IsKeyed}
use signalix.Oms.Run.Outcome.{EventOutcome, apply_order_event-outcome}
use signalix.Exchange.{Codec, IsCodec}
use signalix.Projection.{
  Outside, OrderSnapshot, UserEvent, order_update, position_update, balance_update, other_event,
}
use signalix.Perp.Executor.{
  Client, Executor, place_request, emit_order_event, project, register_client_tag,
  unregister_client_tag, resolve_local_client_id, order_event, order_event_from_user_event,
  pump_order, pump, placed, place,
}

-- What the executor does, in any order: a call of Place, or one round of the pump.
pub data Message : Type 0 where
  place_order : Client → Option Order → Message
  user_event : Outside → Bool → Option UserEvent → Message

different : (a b : String) → a ≢ b → str_eq a b ≡ false
different a b ne = elim (Bool-cases (str_eq a b)) [
  | inl same ↦ absurd (ne ((eq_iff a b).0 same))
  | inr distinct ↦ distinct
]

find_order_named :
    (ev : OrderEvent) (p : Order) (m : Dict Order)
    → ev.client_id ≢ ""
    → lookup ev.client_id m ≡ some p
    → find_order ev m ≡ some p
unfolding find_order by_client_id
find_order_named ev p m named h = rw (different ev.client_id "" named, h) refl

of_outcome :
    (cfg : Config) (env : Env) (ev : OrderEvent) (s t : Oms) (p : Order)
    → p.id ≢ ""
    → find_order ev s.orders ≡ some p
    → EventOutcome cfg env ev s t
    → lookup p.id t.orders ≡ some (updated cfg env ev p)
of_outcome cfg env ev s t p named found (inl (unknown, same)) = absurd (cc (unknown, found))
of_outcome cfg env ev s t p named found (inr (q, known, here, all)) =
    subst (λ r. lookup r.id t.orders ≡ some (updated cfg env ev r))
      (some-injective q p (sym known ∙ found)) (all q.id ∙ rw eq_refl refl)

-- An event that names an order of the map updates it.
apply_order_event_named :
    (cfg : Config) (env : Env) (ev : OrderEvent) (id : String) (s : Oms) (p : Order)
    → ev.client_id ≡ id
    → id ≢ ""
    → IsValid s
    → lookup id s.orders ≡ some p
    → lookup id (apply_order_event cfg env (some ev) s).orders ≡ some (updated cfg env ev p)
apply_order_event_named cfg env ev id s p e named valid known =
    let same = lookup-IsKeyed id p s.orders valid.keyed known in
    subst
      (λ k. lookup k (apply_order_event cfg env (some ev) s).orders ≡ some (updated cfg env ev p))
      same
      (of_outcome cfg env ev s (apply_order_event cfg env (some ev) s) p
        (λ blank. named (sym same ∙ blank))
        (find_order_named ev p s.orders (λ blank. named (sym e ∙ blank))
          (ap (λ k. lookup k s.orders) e ∙ known))
        (apply_order_event-outcome cfg env ev s valid))

module _ (num : Numbers) (codec : Codec) where
  open num use {Decimal}

  unfoldable pub run : List Message → Executor Decimal → Executor Decimal
  unfolding place pump
  run [] s = s
  run (place_order client o ∷ ms) s = run ms (place codec num client o s).0
  run (user_event out delivered ev ∷ ms) s = run ms (pump codec num out delivered ev s)

  -- The message neither registers the tag for another name nor ends the tag's order.
  abbrev pub Keeps : String → String → Message → Type 0
  Keeps tag id (place_order client none) = Unit
  Keeps tag id (place_order client (some o)) = codec.tag_from_local o.id ≡ tag → o.id ≡ id
  Keeps tag id (user_event out delivered (some (order_update (some v)))) =
      trim_space v.client_id ≡ tag → is_terminal v.status ≡ false
  Keeps tag id (user_event out delivered (some (order_update none))) = Unit
  Keeps tag id (user_event out delivered (some (position_update v))) = Unit
  Keeps tag id (user_event out delivered (some (balance_update v))) = Unit
  Keeps tag id (user_event out delivered (some other_event)) = Unit
  Keeps tag id (user_event out delivered none) = Unit

  abbrev Holds : String → String → Executor Decimal → Type 0
  Holds tag id s = lookup tag s.tag_to_local ≡ some id

  lookup-register :
      (tag id new : String) (m : Dict String)
      → (codec.tag_from_local new ≡ tag → new ≡ id)
      → lookup tag m ≡ some id
      → lookup tag (register_client_tag codec new m) ≡ some id
  unfolding register_client_tag
  lookup-register tag id new m same h =
      elim (Bool-cases (str_eq new "" || str_eq (codec.tag_from_local new) "")) [
        | inl blank ↦ rw blank h
        | inr named ↦
            rw (named, lookup-insert)
              (elim (Bool-cases (str_eq (codec.tag_from_local new) tag)) [
                | inl mine ↦
                    rw mine (ap some (same ((eq_iff (codec.tag_from_local new) tag).0 mine)))
                | inr other ↦ rw other h
              ])
      ]

  placed-Holds :
      (tag id : String) (o : Order) (r : Result Failure (Option String)) (s : Executor Decimal)
      → (codec.tag_from_local o.id ≡ tag → o.id ≡ id)
      → Holds tag id s
      → Holds tag id (placed codec num o r s).0
  unfolding placed
  placed-Holds tag id o (err e) s same h = h
  placed-Holds tag id o (ok none) s same h = h
  placed-Holds tag id o (ok (some x)) s same h = lookup-register tag id o.id s.tag_to_local same h

  tag_to_local-emit :
      (delivered : Bool) (oe : OrderEvent) (s : Executor Decimal)
      → (emit_order_event codec num delivered oe s).tag_to_local ≡ s.tag_to_local
  tag_to_local-emit true oe s = refl
  tag_to_local-emit false oe s = refl

  lookup-unregister :
      (tag other : String) (m : Dict String)
      → trim_space other ≢ tag
      → lookup tag (unregister_client_tag codec other m) ≡ lookup tag m
  unfolding unregister_client_tag
  lookup-unregister tag other m ne = elim (Bool-cases (str_eq (trim_space other) "")) [
    | inl blank ↦ rw blank refl
    | inr named ↦
        rw (named, lookup-erase)
          (elim (Bool-cases (str_eq (trim_space other) tag)) [
            | inl same ↦ absurd (ne ((eq_iff (trim_space other) tag).0 same))
            | inr distinct ↦ rw distinct refl
          ])
  ]

  pump_order-Holds :
      (tag id : String) (delivered : Bool) (v : OrderSnapshot) (m : Dict String)
      (s : Executor Decimal)
      → (trim_space v.client_id ≡ tag → is_terminal v.status ≡ false)
      → Holds tag id s
      → Holds tag id
          (pump_order codec num delivered (some (order_event codec v m, trim_space v.client_id)) s)
  unfolding pump_order order_event
  pump_order-Holds tag id delivered v m s going h =
      let t = trim_space v.client_id in
      elim (Bool-cases (not (str_eq t "") && is_terminal v.status)) [
        | inr open_ ↦ rw (open_, tag_to_local-emit) h
        | inl done ↦
            rw (done, tag_to_local-emit)
              (lookup-unregister tag t s.tag_to_local (λ e. absurd (
                  cc (
                    going (sym (trim_space-trim_space v.client_id) ∙ e),
                    (&&-eq-true (not (str_eq t "")) (is_terminal v.status) done).1,
                  )))
                ∙ h)
      ]

  handled-Holds :
      (tag id : String) (m : Message) (s : Executor Decimal)
      → Keeps tag id m
      → Holds tag id s
      → Holds tag id (run (m ∷ []) s)
  unfolding run place pump pump_order order_event_from_user_event
  handled-Holds tag id (place_order client none) s k h = h
  handled-Holds tag id (place_order client (some o)) s k h =
      placed-Holds tag id o (client.place (place_request o)) s k h
  handled-Holds tag id (user_event out delivered (some (order_update (some v)))) s k h =
      pump_order-Holds tag id delivered v s.tag_to_local
        (record s { proj = project codec num out (some (order_update (some v))) s.proj }) k h
  handled-Holds tag id (user_event out delivered (some (order_update none))) s k h = h
  handled-Holds tag id (user_event out delivered (some (position_update v))) s k h = h
  handled-Holds tag id (user_event out delivered (some (balance_update v))) s k h = h
  handled-Holds tag id (user_event out delivered (some other_event)) s k h = h
  handled-Holds tag id (user_event out delivered none) s k h = h

  run-Holds :
      (tag id : String) (ms : List Message) (s : Executor Decimal)
      → All (Keeps tag id) ms
      → Holds tag id s
      → Holds tag id (run ms s)
  unfolding run
  run-Holds tag id [] s k h = h
  run-Holds tag id (place_order client o ∷ ms) s k h =
      run-Holds tag id ms (place codec num client o s).0 k.1
        (handled-Holds tag id (place_order client o) s k.0 h)
  run-Holds tag id (user_event out delivered ev ∷ ms) s k h =
      run-Holds tag id ms (pump codec num out delivered ev s) k.1
        (handled-Holds tag id (user_event out delivered ev) s k.0 h)

  -- After the order was placed
  place-Holds :
      (client : Client) (o : Order) (x : String) (s : Executor Decimal)
      → o.id ≢ ""
      → codec.tag_from_local o.id ≢ ""
      → client.place (place_request o) ≡ ok (some x)
      → Holds (codec.tag_from_local o.id) o.id (place codec num client (some o) s).0
  unfolding place placed register_client_tag
  place-Holds client o x s named tagged e =
      rw
        (
          e,
          placed,
          different o.id "" named,
          different (codec.tag_from_local o.id) "" tagged,
          lookup-insert,
          eq_refl,
        )
        refl

  resolved :
      (tag id : String) (v : OrderSnapshot) (m : Dict String)
      → tag ≢ ""
      → trim_space tag ≡ tag
      → v.client_id ≡ tag
      → lookup tag m ≡ some id
      → (order_event codec v m).client_id ≡ id
  unfolding order_event resolve_local_client_id
  resolved tag id v m tagged trimmed e h = rw (e, trimmed, trimmed, different tag "" tagged, h) refl

  -- An order with a name and a tag was placed and accepted; what the executor handled since neither
  -- registered the tag for another name nor ended the order. Then, if the order is in the order
  -- management, where every order stands once and under its own id, the exchange's event with the
  -- tag sets the order's status, filled size and time to the event's, however long its name is.
  pub apply_order_event-place :
      (client : Client) (o : Order) (x : String) (s : Executor Decimal) (ms : List Message)
      (v : OrderSnapshot) (cfg : Config) (env : Env) (oms : Oms) (p : Order)
      → IsCodec codec
      → o.id ≢ ""
      → codec.tag_from_local o.id ≢ ""
      → client.place (place_request o) ≡ ok (some x)
      → All (Keeps (codec.tag_from_local o.id) o.id) ms
      → v.client_id ≡ codec.tag_from_local o.id
      → IsValid oms
      → lookup o.id oms.orders ≡ some p
      → let tags = (run ms (place codec num client (some o) s).0).tag_to_local in
        lookup o.id (apply_order_event cfg env (some (order_event codec v tags)) oms).orders
        ≡ some
            (record p { status = v.status; filled_size = v.filled_size; updated_at = v.updated_at })
  unfolding order_event
  apply_order_event-place client o x s ms v cfg env oms p c named tagged e keeps bears valid known =
      let tag = codec.tag_from_local o.id in
      let after = run ms (place codec num client (some o) s).0 in
      apply_order_event_named cfg env (order_event codec v after.tag_to_local) o.id oms p
        (resolved tag o.id v after.tag_to_local tagged (c.trimmed o.id) bears (
          run-Holds tag o.id ms (place codec num client (some o) s).0 keeps
            (place-Holds client o x s named tagged e)))
        named valid known
