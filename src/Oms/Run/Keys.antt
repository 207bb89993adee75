-- ===== src/Oms/Run/Keys.antt =====
-- Every order stands under its own id, once; and the two ways in which a message changes the orders.
use signalix.Prelude.{
  ◌≡◌, refl, some, [], ◌∷◌, String, str_eq, eq_iff, eq_refl, arith, if◌then◌else◌,
}
use signalix.Prelude.Dict.{Dict, IsDict, lookup, insert, lookup-insert, insert-IsDict}
use signalix.Models.{Order}
use signalix.Oms.{Oms, Config, Env, put_order, sync_order_to_store, send_order_update, publish}

abbrev pub IsKeyed : Dict Order → Type 0
IsKeyed [] = Unit
IsKeyed ((k, o) ∷ m) = (o.id ≡ k) × IsKeyed m

-- No id is listed twice, and every order stands under its own id.
pub record IsValid (s : Oms) : Type 0 where
  pub distinct : IsDict s.orders
  pub keyed : IsKeyed s.orders

insert-IsKeyed : (o : Order) (m : Dict Order) → IsKeyed m → IsKeyed (insert o.id o m)
unfolding insert
insert-IsKeyed o [] h = (refl, tt)
insert-IsKeyed o ((k, p) ∷ m) h = ground (arith, insert-IsKeyed o m h.1)

pub lookup-IsKeyed :
    (k : String) (o : Order) (m : Dict Order) → IsKeyed m → lookup k m ≡ some o → o.id ≡ k
unfolding lookup
lookup-IsKeyed k o [] h e = cc
lookup-IsKeyed k o ((j, p) ∷ m) h e = ground (arith, eq_iff j k, lookup-IsKeyed k o m h.1)

module _ (cfg : Config) (env : Env) (o : Order) (s : Oms) where
  pub orders-publish : (publish cfg env o.id o s).orders ≡ insert o.id o s.orders
  unfolding publish send_order_update sync_order_to_store put_order
  orders-publish = ground arith

  pub stats-publish : (publish cfg env o.id o s).stats ≡ s.stats
  unfolding publish send_order_update sync_order_to_store put_order
  stats-publish = ground arith

  pub publish-IsValid : IsValid s → IsValid (publish cfg env o.id o s)
  publish-IsValid v = record {
    distinct = rw orders-publish (insert-IsDict o.id o s.orders v.distinct);
    keyed = rw orders-publish (insert-IsKeyed o s.orders v.keyed);
  }

  -- A published order is found under its id.
  pub lookup-publish_self : lookup o.id (publish cfg env o.id o s).orders ≡ some o
  lookup-publish_self = rw (orders-publish, lookup-insert, eq_refl) refl

  -- And the others as before.
  pub lookup-publish :
      (k : String)
      → lookup k (publish cfg env o.id o s).orders
        ≡ (if str_eq o.id k then some o else lookup k s.orders)
  lookup-publish k = rw (orders-publish, lookup-insert) refl

pub put_order-IsValid : (o : Order) (s : Oms) → IsValid s → IsValid (put_order o.id o s)
unfolding put_order
put_order-IsValid o s v = record {
  distinct = insert-IsDict o.id o s.orders v.distinct;
  keyed = insert-IsKeyed o s.orders v.keyed;
}
