-- ===== src/Oms/Run.antt =====
-- The goroutine `run`: what it may receive, in any order.
pub mod Keys
mod Induction
pub mod Outcome
pub mod Valid
mod Tests
pub mod Retry
pub mod Persist
pub mod Conserve
use signalix.Prelude.{Bool, Option, String}
use signalix.Numbers.{Numbers}
use signalix.Models.{Order, OrderEvent}
use signalix.Oms.{Failure, Oms, Config, Env}
use signalix.Oms.Submit.{exec_submit}
use signalix.Oms.Commands.{exec_cancel, exec_sync, exec_flush, apply_order_event}

-- One round of the loop: a command, or an event of an executor.
pub data Message : Type 0 where
  submit : Option Order → Bool → Message
  cancel sync : String → Bool → Message
  flush : Failure → Bool → Message
  event : Option OrderEvent → Message

module _ (num : Numbers) (cfg : Config) where
  unfoldable pub handle : Env → Message → Oms → Oms
  handle env (submit o reply) s = (exec_submit num cfg env o reply s).0
  handle env (cancel id reply) s = (exec_cancel cfg env id reply s).0
  handle env (sync id reply) s = (exec_sync cfg env id reply s).0
  handle env (flush e reply) s = (exec_flush cfg env e reply s).0
  handle env (event ev) s = apply_order_event cfg env ev s

  -- The states that the loop reaches, whatever comes and whatever the environment does, as far as
  -- `Allowed` permits.
  pub data Reach (Allowed : Env → Type 0) (s : Oms) : Oms → Type 0 where
    start : Reach Allowed s s
    next :
        {t : Oms} (env : Env) (m : Message)
        → Allowed env
        → Reach Allowed s t
        → Reach Allowed s (handle env m t)

  -- A property that every message keeps holds of every state that is reached.
  pub Reach-induction :
      {Allowed : Env → Type 0} (P : Oms → Type 0)
      → ((env : Env) (m : Message) (t : Oms) → Allowed env → P t → P (handle env m t))
      → (s t : Oms) → Reach Allowed s t
      → P s
      → P t
  Reach-induction P keep s t start p = p
  Reach-induction P keep s _ (next {t} env m a r) p =
      keep env m t a (Reach-induction P keep s t r p)
