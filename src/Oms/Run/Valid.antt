-- ===== src/Oms/Run/Valid.antt =====
-- The invariant on the ids, for the whole run.
use signalix.Prelude.{◌≡◌, ◌+◌, arith, refl, [], ◌∷◌, List, Option, some, none}
use signalix.Prelude.Dict.{Dict}
use signalix.Numbers.{Numbers}
use signalix.Models.{Order}
use signalix.Oms.{Failure, Oms, Config, Env}
use signalix.Oms.Submit.{count_submitted}
use signalix.Oms.Commands.{flush_all, hydrate_from_snapshot}
use signalix.Oms.Run.{Message, handle, Reach, Reach-induction}
use signalix.Oms.Run.Keys.{IsValid, publish-IsValid, put_order-IsValid}
use signalix.Oms.Run.Induction.{handle_keeps}

-- A flush changes no order.
pub orders-flush_all :
    (cfg : Config) (env : Env) (e : Failure) (m : Dict Order) (s : Oms)
    → (flush_all cfg env e m s).0.orders ≡ s.orders
unfolding flush_all
orders-flush_all cfg env e [] s = refl
orders-flush_all cfg env e ((k, o) ∷ m) s =
    ground
      (arith, orders-flush_all cfg env e m (record s { saved = o ∷ s.saved; saves = s.saves + 1 }))

pub stats-flush_all :
    (cfg : Config) (env : Env) (e : Failure) (m : Dict Order) (s : Oms)
    → (flush_all cfg env e m s).0.stats ≡ s.stats
unfolding flush_all
stats-flush_all cfg env e [] s = refl
stats-flush_all cfg env e ((k, o) ∷ m) s =
    ground
      (arith, stats-flush_all cfg env e m (record s { saved = o ∷ s.saved; saves = s.saves + 1 }))

pub flush_all-IsValid :
    (cfg : Config) (env : Env) (e : Failure) (s : Oms)
    → IsValid s
    → IsValid (flush_all cfg env e s.orders s).0
flush_all-IsValid cfg env e s v = record {
  distinct = rw (orders-flush_all cfg env e s.orders s) v.distinct;
  keyed = rw (orders-flush_all cfg env e s.orders s) v.keyed;
}

pub handle-IsValid :
    (num : Numbers) (cfg : Config) (env : Env) (m : Message) (s : Oms)
    → IsValid s
    → IsValid (handle num cfg env m s)
handle-IsValid num cfg env =
    handle_keeps num cfg env IsValid (λ s v. v)
      (λ s st e v. record { distinct = v.distinct; keyed = v.keyed })
      (λ o s new v. accepted (publish-IsValid cfg env o s v))
      (λ o old s known v. publish-IsValid cfg env o s v) (λ e s v. flush_all-IsValid cfg env e s v)
  where
    accepted : {t : Oms} → IsValid t → IsValid (count_submitted num cfg env t)
    accepted v = record { distinct = v.distinct; keyed = v.keyed }

hydrate_from_snapshot-IsValid :
    (cfg : Config) (os : List (Option Order)) (s : Oms)
    → IsValid s
    → IsValid (hydrate_from_snapshot cfg os s)
unfolding hydrate_from_snapshot
hydrate_from_snapshot-IsValid cfg [] s v = v
hydrate_from_snapshot-IsValid cfg (none ∷ os) s v = hydrate_from_snapshot-IsValid cfg os s v
hydrate_from_snapshot-IsValid cfg (some o ∷ os) s v =
    hydrate_from_snapshot-IsValid cfg os _ (put_order-IsValid _ s v)

-- Hydrated from any snapshot into a state where no id is listed twice and every order stands under
-- its own id, and after any messages in any environment, the same holds: no handler gives an order
-- that is in the map another id.
pub Reach-IsValid :
    (num : Numbers) (cfg : Config) (os : List (Option Order)) (s t : Oms)
    → IsValid s
    → Reach num cfg (λ env. Unit) (hydrate_from_snapshot cfg os s) t
    → IsValid t
Reach-IsValid num cfg os s t v r =
    Reach-induction num cfg IsValid (λ env m u a p. handle-IsValid num cfg env m u p)
      (hydrate_from_snapshot cfg os s) t r (hydrate_from_snapshot-IsValid cfg os s v)
