-- ===== src/Engine/KillSwitch/Closes.antt =====
-- What the kill switch leaves open.
use signalix.Prelude.{
  ℕ, zero, suc, ◌<◌, ◌≤◌, ◌≡◌, ◌≢◌, refl, sym, ap, ◌∙◌, ◌⊎◌, inl, inr, Bool, true, false, not, ◌||◌,
  Option, none, some, List, [], ◌∷◌, String, str_eq, eq_iff, length, arith, Bool-cases,
  Option-cases, if◌then◌else◌,
}
use std.Path.{subst}
use signalix.Prelude.Dict.{Dict, lookup}
use signalix.Models.{Order, cancelled, is_terminal}
use signalix.Oms.{
  Failure, Reply, replied, no_reply, blocked, Oms, Config, Env, has_executor_for, publish,
}
use signalix.Oms.Commands.{cancel_open, cancel_found, exec_cancel}
use signalix.Oms.Queries.{select}
use signalix.Oms.Run.Keys.{IsKeyed, IsValid, publish-IsValid, lookup-publish, lookup-IsKeyed}
use signalix.Engine.KillSwitch.{
  KillSwitch, Turn, reply_error, cancel_order, open_orders, list_open_orders_snapshot, cancel_each,
  cancel_all_open_orders, activate_kill_switch,
}

-- Every order of `t` that is not finished was in `s`, not finished, and is not the order `id`.
abbrev pub ClosesAtLeast : String → Oms → Oms → Type 0
ClosesAtLeast id s t =
    (k : String) (o : Order)
    → lookup k t.orders ≡ some o
    → is_terminal o.status ≡ false
    → (id ≢ k) × ((p : Order) × (lookup k s.orders ≡ some p) × (is_terminal p.status ≡ false))

abbrev Closed : Config → Env → String → Oms → Oms × Reply → Type 0
Closed cfg env id s r = r.1 ≡ replied none → IsValid r.0 × ClosesAtLeast id s r.0

-- After `q`, which is finished, was put under the id `id`
put-closes :
    (id : String) (q : Order) (s t : Oms)
    → is_terminal q.status ≡ true
    → ((k : String) → lookup k t.orders ≡ (if str_eq id k then some q else lookup k s.orders))
    → ClosesAtLeast id s t
put-closes id q s t done put k o found going = elim (Bool-cases (str_eq id k)) [
  | inl same ↦ absurd (
      cc (sym (put k) ∙ found, ap (λ b. if b then some q else lookup k s.orders) same, done, going))
  | inr different ↦ (
    λ e. absurd (cc ((eq_iff id k).1 e, different)),
    (
      o,
      sym (sym found ∙ put k ∙ ap (λ b. if b then some q else lookup k s.orders) different),
      going,
    ),
  )
]

module _ (cfg : Config) (env : Env) where
  cancel_open-Closed :
      (id : String) (o : Order) (s : Oms) (e : Option Failure)
      → IsValid s
      → lookup id s.orders ≡ some o
      → Closed cfg env id s (cancel_open cfg env o s e)
  unfolding cancel_open
  cancel_open-Closed id o s (some e) v h c = absurd (cc c)
  cancel_open-Closed id o s none v h c =
      let q = record o { status = cancelled; updated_at = env.now_done } in
      (
        record {
          distinct = (publish-IsValid cfg env q s v).distinct;
          keyed = (publish-IsValid cfg env q s v).keyed;
        },
        subst (λ i. ClosesAtLeast i s (publish cfg env q.id q s))
            (lookup-IsKeyed id o s.orders v.keyed h)
            (put-closes o.id q s (publish cfg env q.id q s) refl (lookup-publish cfg env q s)),
      )

  cancel_found-Closed :
      (id : String) (s : Oms) (r : Option Order)
      → IsValid s
      → lookup id s.orders ≡ r
      → Closed cfg env id s (cancel_found cfg env id r s)
  unfolding cancel_found
  cancel_found-Closed id s none v h = λ c. absurd (cc c)
  cancel_found-Closed id s (some o) v h = elim (Bool-cases (is_terminal o.status)) [
    | inl done ↦ rw (done, cancel_found) (λ c. absurd (cc c))
    | inr going ↦ elim (Bool-cases (has_executor_for cfg o)) [
      | inl able ↦ rw (going, able, cancel_found) (cancel_open-Closed id o s (env.cancel o) v h)
      | inr unable ↦ rw (going, unable, cancel_found) (λ c. absurd (cc c))
    ]
  ]

  exec_cancel-Closed :
      (id : String) (s : Oms) → IsValid s → Closed cfg env id s (exec_cancel cfg env id true s)
  unfolding exec_cancel
  exec_cancel-Closed id s v = cancel_found-Closed id s (lookup id s.orders) v refl

-- What is handled between two cancellations neither adds an open order nor reopens a finished one.
pub record IsQuiet (before : Oms → Oms) : Type 0 where
  pub keeps_valid : (s : Oms) → IsValid s → IsValid (before s)
  pub opens_none :
      (s : Oms) (k : String) (o : Order)
      → lookup k (before s).orders ≡ some o
      → is_terminal o.status ≡ false
      → (p : Order) × (lookup k s.orders ≡ some p) × (is_terminal p.status ≡ false)

abbrev Listed : String → List Order → Type 0
Listed k [] = 0 < 0
Listed k (o ∷ os) = (o.id ≡ k) ⊎ Listed k os

-- The open orders are among `os`, and have names.
abbrev OpenIn : List Order → Oms → Type 0
OpenIn os s =
    (k : String) (o : Order)
    → lookup k s.orders ≡ some o
    → is_terminal o.status ≡ false
    → (k ≢ "") × Listed k os

abbrev pub NoneOpen : Oms → Type 0
NoneOpen s = (k : String) (o : Order) → lookup k s.orders ≡ some o → is_terminal o.status ≡ true

reply_error-none : (r : Reply) → reply_error r ≡ none → r ≡ replied none
reply_error-none (replied e) h = ap replied h
reply_error-none no_reply h = absurd (cc h)
reply_error-none blocked h = absurd (cc h)

closes_before :
    (id : String) (before : Oms → Oms) (s t : Oms)
    → IsQuiet before
    → ClosesAtLeast id (before s) t
    → ClosesAtLeast id s t
closes_before id before s t q c k o found going =
    let below = c k o found going in (below.0, q.opens_none s k below.1.0 below.1.1 below.1.2)

cancel_order-closes :
    (cfg : Config) (t : Turn) (id : String) (s : Oms)
    → IsQuiet t.before
    → IsValid s
    → (cancel_order cfg t id s).1 ≡ none
    → IsValid (cancel_order cfg t id s).0 × ClosesAtLeast id s (cancel_order cfg t id s).0
unfolding cancel_order
cancel_order-closes cfg t id s q v = elim (Bool-cases t.taken) [
  | inr lost ↦ rw lost (λ e. absurd (cc e))
  | inl taken ↦ elim (Bool-cases t.replies) [
    | inr late ↦ rw (taken, late) (λ e. absurd (cc e))
    | inl in_time ↦
        rw (taken, in_time)
          (λ e.
            let r = exec_cancel cfg t.env id true (t.before s) in
            let c =
              exec_cancel-Closed cfg t.env id (t.before s) (q.keeps_valid s v)
                (reply_error-none r.1 e) in
            (c.0, closes_before id t.before s r.0 q c.1))
  ]
]

Listed-rest :
    (k : String) (o : Order) (os : List Order) → (o.id ≢ k) → Listed k (o ∷ os) → Listed k os
Listed-rest k o os ne (inl e) = absurd (ne e)
Listed-rest k o os ne (inr l) = l

-- What is listed after one cancellation, or after an order without a name was passed over.
OpenIn-rest :
    (h : Order) (os : List Order) (s t : Oms)
    → OpenIn (h ∷ os) s
    → ClosesAtLeast h.id s t
    → OpenIn os t
OpenIn-rest h os s t in_ c k o found going =
    let below = c k o found going in
    let listed = in_ k below.1.0 below.1.1 below.1.2 in
    (listed.0, Listed-rest k h os below.0 listed.1)

OpenIn-unnamed :
    (h : Order) (os : List Order) (s : Oms) → h.id ≡ "" → OpenIn (h ∷ os) s → OpenIn os s
OpenIn-unnamed h os s e in_ k o found going =
    let listed = in_ k o found going in
    (listed.0, Listed-rest k h os (λ same. listed.0 (sym same ∙ e)) listed.1)

cancel_each-closes :
    (cfg : Config) (turns : ℕ → Turn) (i : ℕ) (os : List Order) (s : Oms)
    → ((j : ℕ) → IsQuiet (turns j).before)
    → IsValid s
    → OpenIn os s
    → (cancel_each cfg turns i os s).failed ≡ 0
    → NoneOpen (cancel_each cfg turns i os s).oms
unfolding cancel_each
cancel_each-closes cfg turns i [] s q v in_ = λ z k o found.
    elim (Bool-cases (is_terminal o.status)) [
      | inl done ↦ done
      | inr going ↦ absurd (omega (arith, (in_ k o found going).1))
    ]
cancel_each-closes cfg turns i (h ∷ os) s q v in_ =
    let r = cancel_order cfg (turns i) h.id s in
    elim (Bool-cases (str_eq h.id "")) [
      | inl unnamed ↦ rw unnamed (
          cancel_each-closes cfg turns i os s q v
            (OpenIn-unnamed h os s ((eq_iff h.id "").0 unnamed) in_))
      | inr named ↦ elim (Option-cases r.1) [
        | inr (e, refused) ↦ rw (named, refused) (λ z. absurd (omega (arith, z)))
        | inl accepted ↦
            rw (named, accepted)
              (let c = cancel_order-closes cfg (turns i) h.id s (q i) v accepted in
                cancel_each-closes cfg turns (suc i) os r.0 q c.0 (OpenIn-rest h os s r.0 in_ c.1))
      ]
    ]

abbrev pub is_open : Order → Bool
is_open o = not (is_terminal o.status)

lookup-select :
    (k : String) (o : Order) (m : Dict Order)
    → lookup k m ≡ some o
    → is_terminal o.status ≡ false
    → 0 < length (select is_open m)
unfolding lookup select
lookup-select k o [] h g = absurd (cc h)
lookup-select k o ((j, p) ∷ m) h g = ground (arith, lookup-select k o m)

-- Every open order is listed, if there are no more than the limit.
open_orders-Listed :
    (n : ℕ) (k : String) (o : Order) (m : Dict Order)
    → IsKeyed m
    → length (select is_open m) ≤ n
    → lookup k m ≡ some o
    → is_terminal o.status ≡ false
    → Listed k (open_orders n m)
unfolding open_orders lookup select
open_orders-Listed zero k o m v few h g = absurd (omega (arith, lookup-select k o m h g))
open_orders-Listed (suc n) k o [] v few h g = absurd (cc h)
open_orders-Listed (suc n) k o ((j, p) ∷ m) v few h g = elim (Bool-cases (is_terminal p.status)) [
  | inl done ↦ rw done (
      open_orders-Listed (suc n) k o m v.1 (ground (arith, done, few)) (ground (arith, done, h, g))
        g)
  | inr going ↦ elim (Bool-cases (str_eq j k)) [
    | inl here ↦ rw going (inl (v.0 ∙ (eq_iff j k).0 here))
    | inr there ↦ rw going (
        inr (
          open_orders-Listed n k o m v.1 (ground (arith, going, few)) (ground (arith, there, h)) g))
  ]
]

-- Activating a kill switch that is off, with cancellation asked for or configured, in a state with
-- every order once and under its own id, none under the empty id, and at most 500 open orders,
-- where nothing handled in between adds or reopens an order: if no cancellation is counted as
-- failed, no open order is left.
pub activate_kill_switch-closes :
    (cfg : Config) (by_default : Bool) (turns : ℕ → Turn) (now : ℕ) (reason : String)
    (cancel : Bool) (k : KillSwitch) (s : Oms)
    → k.active ≡ false
    → (cancel || by_default) ≡ true
    → ((j : ℕ) → IsQuiet (turns j).before)
    → IsValid s
    → lookup "" s.orders ≡ none
    → length (select is_open s.orders) ≤ 500
    → (activate_kill_switch cfg by_default turns now reason cancel (k, s)).1.cancel_failed ≡ 0
    → NoneOpen (activate_kill_switch cfg by_default turns now reason cancel (k, s)).0.1
unfolding activate_kill_switch cancel_all_open_orders list_open_orders_snapshot
activate_kill_switch-closes cfg by_default turns now reason cancel k s off wanted q v named few =
    rw (off, wanted)
      (cancel_each-closes cfg turns 0 (open_orders 500 s.orders) s q v (λ i o found going. (
        λ e. absurd (cc (ap (λ x. lookup x s.orders) e, named, found)),
        open_orders-Listed 500 i o s.orders v.keyed few found going,
      )))

-- After an activation the kill switch is active, and a second one with the same configuration,
-- whatever its reason and time, changes neither the switch nor the orders, cancels nothing, and
-- returns the status of the first.
pub activate_kill_switch_twice :
    (cfg : Config) (by_default : Bool) (turns later : ℕ → Turn) (now moment : ℕ)
    (reason other : String) (cancel again : Bool) (s : KillSwitch × Oms)
    → let first = activate_kill_switch cfg by_default turns now reason cancel s in
      let second = activate_kill_switch cfg by_default later moment other again first.0 in
      (first.0.0.active ≡ true)
      × ((second.0 ≡ first.0)
          × ((second.1.status ≡ first.1.status) × (second.1.cancel_attempted ≡ 0)))
unfolding activate_kill_switch
activate_kill_switch_twice cfg by_default turns later now moment reason other cancel again (k, s) =
    elim (Bool-cases k.active) [
      | inl on ↦ rw on (refl, (refl, (refl, refl)))
      | inr off ↦ elim (Bool-cases (cancel || by_default)) [
        | inl wanted ↦ rw (off, wanted) (refl, (refl, (refl, refl)))
        | inr unwanted ↦ rw (off, unwanted) (refl, (refl, (refl, refl)))
      ]
    ]
