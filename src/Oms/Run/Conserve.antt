-- ===== src/Oms/Run/Conserve.antt =====
-- Orders are only ever added, one for each accepted submission.
use signalix.Prelude.{ℕ, ◌+◌, ◌≡◌, refl, none, some, arith, length}
use signalix.Prelude.Dict.{lookup, length-insert_new, length-insert_old}
use signalix.Numbers.{Numbers}
use signalix.Models.{Order}
use signalix.Oms.{Failure, Oms, Config, Env, publish}
use signalix.Oms.Submit.{count_submitted}
use signalix.Oms.Commands.{flush_all}
use signalix.Oms.Run.{Message, handle, Reach, Reach-induction}
use signalix.Oms.Run.Keys.{IsValid, publish-IsValid, orders-publish, stats-publish}
use signalix.Oms.Run.Valid.{flush_all-IsValid, orders-flush_all, stats-flush_all}
use signalix.Oms.Run.Induction.{handle_keeps}

-- The map holds `base` orders more than were submitted.
record IsCounted (base taken : ℕ) (s : Oms) : Type 0 where
  valid : IsValid s
  counted : length s.orders + taken ≡ base + s.stats.submitted_orders

module _ (num : Numbers) (cfg : Config) (env : Env) (base taken : ℕ) where
  accept-IsCounted :
      (o : Order) (s : Oms)
      → lookup o.id s.orders ≡ none
      → IsCounted base taken s
      → IsCounted base taken (count_submitted num cfg env (publish cfg env o.id o s))
  accept-IsCounted o s new p = record {
    valid = record {
      distinct = (publish-IsValid cfg env o s p.valid).distinct;
      keyed = (publish-IsValid cfg env o s p.valid).keyed;
    };
    counted =
        rw
          (
            orders-publish cfg env o s,
            stats-publish cfg env o s,
            length-insert_new o.id o s.orders new,
          )
          (omega (arith, p.counted));
  }

  change-IsCounted :
      (o old : Order) (s : Oms)
      → lookup o.id s.orders ≡ some old
      → IsCounted base taken s
      → IsCounted base taken (publish cfg env o.id o s)
  change-IsCounted o old s known p = record {
    valid = publish-IsValid cfg env o s p.valid;
    counted =
        rw
          (
            orders-publish cfg env o s,
            stats-publish cfg env o s,
            length-insert_old o.id o old s.orders known,
          )
          p.counted;
  }

  flush_all-IsCounted :
      (e : Failure) (s : Oms)
      → IsCounted base taken s
      → IsCounted base taken (flush_all cfg env e s.orders s).0
  flush_all-IsCounted e s p = record {
    valid = flush_all-IsValid cfg env e s p.valid;
    counted =
        rw (orders-flush_all cfg env e s.orders s, stats-flush_all cfg env e s.orders s) p.counted;
  }

  handle-IsCounted :
      (m : Message) (s : Oms)
      → IsCounted base taken s
      → IsCounted base taken (handle num cfg env m s)
  handle-IsCounted =
      handle_keeps num cfg env (IsCounted base taken) (λ s p. p.valid)
        (λ s st e p. record {
          valid = record { distinct = p.valid.distinct; keyed = p.valid.keyed };
          counted = rw e p.counted;
        })
        accept-IsCounted change-IsCounted flush_all-IsCounted

-- From a state where every order stands once and under its own id, no message removes an order and
-- only an accepted submission adds one: over any run the number of orders grows by exactly the
-- growth of the counter of submitted orders.
pub Reach-conserves :
    (num : Numbers) (cfg : Config) (s t : Oms)
    → IsValid s
    → Reach num cfg (λ env. Unit) s t
    → length t.orders + s.stats.submitted_orders ≡ length s.orders + t.stats.submitted_orders
Reach-conserves num cfg s t v r =
    (Reach-induction num cfg (IsCounted (length s.orders) s.stats.submitted_orders)
      (λ env m u a p. handle-IsCounted num cfg env (length s.orders) s.stats.submitted_orders m u p)
      s t r (record { valid = v; counted = refl })).counted
