-- ===== src/Oms/Run/Persist.antt =====
-- The store follows the orders in memory.
use signalix.Prelude.{
  ℕ, ◌+◌, ◌≡◌, refl, ap, ◌∙◌, sym, true, Option, none, some, List, [], ◌∷◌, String, str_eq, eq_iff,
  Bool-cases, inl, inr, if◌then◌else◌, if-true,
}
use std.Path.{subst}
use signalix.Prelude.Dict.{Dict, IsDict, lookup, lookup-insert}
use signalix.Numbers.{Numbers}
use signalix.Models.{Order, valid}
use signalix.Oms.{
  Failure, Stats, Oms, Config, Env, publish, send_order_update, sync_order_to_store, put_order,
}
use signalix.Oms.Commands.{flush_all, hydrate_from_snapshot}
use signalix.Oms.Run.{Message, handle, Reach, Reach-induction}
use signalix.Oms.Run.Keys.{IsValid, IsKeyed, publish-IsValid, lookup-publish, put_order-IsValid}
use signalix.Oms.Run.Valid.{flush_all-IsValid, orders-flush_all}
use signalix.Oms.Run.Induction.{handle_keeps}

-- What the store holds of an order: its copy that was saved last.
unfoldable pub last_saved : String → List Order → Option Order
last_saved id [] = none
last_saved id (o ∷ os) = if str_eq o.id id then some o else last_saved id os

-- The channel takes every update and the store fails on none.
pub record IsLive (env : Env) : Type 0 where
  pub delivers : (n : ℕ) → env.delivered n ≡ true
  pub stores : (n : ℕ) → env.stored n ≡ true

-- The store's copy of every order is the order.
abbrev pub IsStored : Dict Order → List Order → Type 0
IsStored m saved = (id : String) (o : Order) → lookup id m ≡ some o → last_saved id saved ≡ some o

pub record IsPersisted (s : Oms) : Type 0 where
  pub valid : IsValid s
  pub stored : IsStored s.orders s.saved

-- Every entry of the list is found in `m`, under its own id.
abbrev IsPart : Dict Order → Dict Order → Type 0
IsPart m [] = Unit
IsPart m ((k, o) ∷ l) = (lookup o.id m ≡ some o) × IsPart m l

IsPart-cons :
    (k : String) (p : Order) (m l : Dict Order)
    → lookup k m ≡ none
    → IsPart m l
    → IsPart ((k, p) ∷ m) l
unfolding lookup
IsPart-cons k p m [] new h = tt
IsPart-cons k p m ((j, o) ∷ l) new h = (
  elim (Bool-cases (str_eq k o.id)) [
    | inl same ↦ absurd (cc (new, h.0, (eq_iff k o.id).0 same))
    | inr other ↦ rw other h.0
  ],
  IsPart-cons k p m l new h.1,
)

IsPart-self : (m : Dict Order) → IsDict m → IsKeyed m → IsPart m m
unfolding lookup
IsPart-self [] d h = tt
IsPart-self ((k, o) ∷ m) d h =
    (rw ((eq_iff k o.id).1 (sym h.0)) refl, IsPart-cons k o m m d.0 (IsPart-self m d.1 h.1))

-- Saving an order that stands in the map keeps the store right.
IsStored-cons :
    (m : Dict Order) (saved : List Order) (o : Order)
    → lookup o.id m ≡ some o
    → IsStored m saved
    → IsStored m (o ∷ saved)
unfolding last_saved
IsStored-cons m saved o h st id p e = elim (Bool-cases (str_eq o.id id)) [
  | inl same ↦ rw same (sym h ∙ ap (λ k. lookup k m) ((eq_iff o.id id).0 same) ∙ e)
  | inr other ↦ rw other (st id p e)
]

module _ (cfg : Config) (env : Env) (on : cfg.has_store ≡ true) (live : IsLive env) where
  saved-publish : (o : Order) (s : Oms) → (publish cfg env o.id o s).saved ≡ o ∷ s.saved
  unfolding publish send_order_update sync_order_to_store put_order
  saved-publish o s = rw (live.delivers s.sends, on, live.stores s.saves) refl

  publish-IsStored :
      (o : Order) (s : Oms)
      → IsStored s.orders s.saved
      → IsStored (publish cfg env o.id o s).orders (o ∷ s.saved)
  unfolding last_saved
  publish-IsStored o s st id q e =
      let found : (if str_eq o.id id then some o else lookup id s.orders) ≡ some q =
        sym (lookup-publish cfg env o s id) ∙ e in
      elim (Bool-cases (str_eq o.id id)) [
        | inl same ↦ rw same (rw same at found)
        | inr other ↦ rw other (st id q (rw other at found))
      ]

  publish-IsPersisted :
      (o : Order) (s : Oms) → IsPersisted s → IsPersisted (publish cfg env o.id o s)
  publish-IsPersisted o s p = record {
    valid = publish-IsValid cfg env o s p.valid;
    stored = rw (saved-publish o s) (publish-IsStored o s p.stored);
  }

  flush_all-IsStored :
      (e : Failure) (m : Dict Order) (s : Oms)
      → IsPart s.orders m
      → IsStored s.orders s.saved
      → IsStored s.orders (flush_all cfg env e m s).0.saved
  unfolding flush_all
  flush_all-IsStored e [] s part st = st
  flush_all-IsStored e ((k, o) ∷ m) s part st = rw (live.stores s.saves) (
      flush_all-IsStored e m (record s { saved = o ∷ s.saved; saves = s.saves + 1 }) part.1
        (IsStored-cons s.orders s.saved o part.0 st))

  flush_all-IsPersisted :
      (e : Failure) (s : Oms) → IsPersisted s → IsPersisted (flush_all cfg env e s.orders s).0
  flush_all-IsPersisted e s p = record {
    valid = flush_all-IsValid cfg env e s p.valid;
    stored = rw (orders-flush_all cfg env e s.orders s) (
        flush_all-IsStored e s.orders s (IsPart-self s.orders p.valid.distinct p.valid.keyed)
          p.stored);
  }

  handle-IsPersisted :
      (num : Numbers) (m : Message) (s : Oms) → IsPersisted s → IsPersisted (handle num cfg env m s)
  handle-IsPersisted num =
      handle_keeps num cfg env IsPersisted (λ s p. p.valid) (λ s st e p. recounted p st)
        (λ o s new p. recounted (publish-IsPersisted o s p) _)
        (λ o old s known p. publish-IsPersisted o s p) flush_all-IsPersisted
    where
      recounted : {t : Oms} → IsPersisted t → (st : Stats) → IsPersisted (record t { stats = st })
      recounted p st = record {
        valid = record { distinct = p.valid.distinct; keyed = p.valid.keyed };
        stored = p.stored;
      }

-- The orders of a snapshot are the copies that the store saved last, each with a market that is valid.
abbrev pub IsSnapshot : List (Option Order) → List Order → Type 0
IsSnapshot [] saved = Unit
IsSnapshot (none ∷ os) saved = IsSnapshot os saved
IsSnapshot (some o ∷ os) saved =
    (valid o.market ≡ true) × (last_saved o.id saved ≡ some o) × IsSnapshot os saved

put_order-IsPersisted :
    (o : Order) (s : Oms)
    → last_saved o.id s.saved ≡ some o
    → IsPersisted s
    → IsPersisted (put_order o.id o s)
unfolding put_order
put_order-IsPersisted o s l p = record {
  valid = put_order-IsValid o s p.valid;
  stored = λ id q e.
      let found : (if str_eq o.id id then some o else lookup id s.orders) ≡ some q =
        sym (lookup-insert o.id id o s.orders) ∙ e in
      elim (Bool-cases (str_eq o.id id)) [
        | inl same ↦
            ap (λ k. last_saved k s.saved) (sym ((eq_iff o.id id).0 same)) ∙ l ∙ (rw same at found)
        | inr other ↦ p.stored id q (rw other at found)
      ];
}

-- A hydrated order with a valid market is the snapshot's.
with_market :
    (cfg : Config) (o : Order)
    → valid o.market ≡ true
    → o ≡ record o { market = if valid o.market then o.market else cfg.default_market }
with_market cfg o v =
    ap (λ m. record o { market = m }) (sym (if-true _ o.market cfg.default_market v))

-- Hydration with such a snapshot.
hydrate_from_snapshot-IsPersisted :
    (cfg : Config) (os : List (Option Order)) (s : Oms)
    → IsSnapshot os s.saved
    → IsPersisted s
    → IsPersisted (hydrate_from_snapshot cfg os s)
unfolding hydrate_from_snapshot put_order
hydrate_from_snapshot-IsPersisted cfg [] s h p = p
hydrate_from_snapshot-IsPersisted cfg (none ∷ os) s h p =
    hydrate_from_snapshot-IsPersisted cfg os s h p
hydrate_from_snapshot-IsPersisted cfg (some o ∷ os) s (v, l, h) p =
    hydrate_from_snapshot-IsPersisted cfg os _ h (
      subst (λ q. IsPersisted (put_order o.id q s)) (with_market cfg o v)
        (put_order-IsPersisted o s l p))

-- The engine starts in a state where every order stands once and under its own id and equals its
-- last saved copy, which holds when there are no orders, and is hydrated with orders that are the
-- last saved copies and have valid markets. Then, with a store that never fails and a channel that
-- takes every update, the last saved copy of every order is the order in memory, after any sequence
-- of commands and events.
pub Reach-IsPersisted :
    (num : Numbers) (cfg : Config) (os : List (Option Order)) (s t : Oms)
    → cfg.has_store ≡ true
    → IsPersisted s
    → IsSnapshot os s.saved
    → Reach num cfg IsLive (hydrate_from_snapshot cfg os s) t
    → (id : String) (o : Order) → lookup id t.orders ≡ some o
    → last_saved id t.saved ≡ some o
Reach-IsPersisted num cfg os s t on p h r =
    (Reach-induction num cfg IsPersisted
      (λ env m u live q. handle-IsPersisted cfg env on live num m u q)
      (hydrate_from_snapshot cfg os s) t r (hydrate_from_snapshot-IsPersisted cfg os s h p)).stored
