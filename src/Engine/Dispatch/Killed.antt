-- ===== src/Engine/Dispatch/Killed.antt =====
-- What the kill switch lets through.
use signalix.Prelude.{
  ◌≡◌, refl, sym, ap, ◌∙◌, inl, inr, Bool, true, false, ◌&&◌, Option, none, some, String, Result,
  ok, Bool-cases, if◌then◌else◌,
}
use std.Path.{subst}
use signalix.Numbers.{Numbers, OrderLaws, is_zero, parse_or_nil}
use signalix.Models.{Market, valid, Direction, BalanceView, PositionSnapshot, Signal, Order}
use signalix.Risk.{Verdict}
use signalix.Risk.Exposure.{opens_exposure}
use signalix.Decision.{Decider, DecisionStats}
use signalix.Decision.Process.{process_signal}
use signalix.Decision.Process.Closing.{IsAgainst}
use signalix.Decision.Process.Orders.{Fits, process_signal-Decided}
use signalix.Projection.{Outside}
use signalix.Perp.RiskContext.{Sources, build_risk_context}
use signalix.Perp.RiskContext.About.{build_risk_context-about}
use signalix.Engine.Dispatch.{MarketPort, IsPort, Engine, sent}
use signalix.Engine.Dispatch.Stages.{market_for, strategy_market, placed_in, dispatch_signal}
use signalix.Engine.Dispatch.Sent.{Sent, Settled, ArePorts, dispatch_signal-Sent}

-- The perpetual market: perpDecider and perpRisk
unfoldable pub perp_port :
    (num : Numbers)
    → Outside
    → Sources num.Decimal
    → Decider
    → DecisionStats
    → MarketPort num.Decimal num.Float
perp_port num out src de st = record {
  decide = λ name s. (process_signal num de name s st).1;
  build_risk_context = build_risk_context num out src;
}

-- An order that trades against the open position of the signal's symbol
pub record Closes (num : Numbers) (de : Decider) (s : Signal num.Float) (o : Order) : Type 0 where
  pub snapshot : String → Result String (BalanceView × Option PositionSnapshot)
  pub given : de.snapshot ≡ some snapshot
  pub balance : BalanceView
  pub position : PositionSnapshot
  pub account : snapshot s.symbol ≡ ok (balance, some position)
  pub open_size : is_zero num (parse_or_nil num position.size) ≡ false
  pub same_symbol : o.symbol ≡ s.symbol
  pub against : IsAgainst position.side o.side

module _ (num : Numbers) (laws : OrderLaws num) (e : Engine num.Decimal num.Float) (out : Outside)
    (src : Sources num.Decimal) (de : Decider) (st : DecisionStats) where
  open num use {Decimal, Float}

  -- Every market that is registered is the perpetual one.
  abbrev pub OnlyPerp : Type 0
  OnlyPerp =
      (mk : Market) (m : MarketPort Decimal Float)
      → e.markets mk ≡ some m
      → m ≡ perp_port num out src de st

  perp_port-IsPort : IsPort (perp_port num out src de st)
  unfolding perp_port
  perp_port-IsPort = record { about = build_risk_context-about num out src }

  pub only_perp-ArePorts : OnlyPerp → ArePorts num e
  only_perp-ArePorts only mk m h = subst IsPort (sym (only mk m h)) perp_port-IsPort

  market_for-perp :
      OnlyPerp
      → (mk : Market) (m : MarketPort Decimal Float) → market_for num e mk ≡ some m
      → m ≡ perp_port num out src de st
  unfolding market_for
  market_for-perp only mk m = elim (Bool-cases (valid mk)) [
    | inl known ↦ rw known (only mk m)
    | inr unknown ↦ rw unknown (λ h. absurd (cc h))
  ]

  placed_trades :
      (mk : Market) (first : Order) (b : Bool)
      → let p = if b then first else record first { market = mk } in
        (p.symbol ≡ first.symbol) × (p.side ≡ first.side)
  placed_trades mk first true = (refl, refl)
  placed_trades mk first false = (refl, refl)

  -- Neither the market's name nor the size changes what the order trades.
  judged_trades :
      (mk : Market) (first judged o : Order) (size : String) (v : Verdict)
      → judged ≡ record (placed_in num e mk first) { size = size }
      → Settled num e judged o v
      → (o.symbol ≡ first.symbol) × (o.side ≡ first.side)
  judged_trades mk first judged o size v j (inl (k, same)) =
      let t = placed_trades mk first (valid first.market) in
      (ap (λ x. x.symbol) (same ∙ j) ∙ t.0, ap (λ x. x.side) (same ∙ j) ∙ t.1)
  judged_trades mk first judged o size v j (inr (k, same)) =
      let t = placed_trades mk first (valid first.market) in
      (
        ap (λ x. x.symbol) same ∙ ap (λ x. x.symbol) j ∙ t.0,
        ap (λ x. x.side) same ∙ ap (λ x. x.side) j ∙ t.1,
      )

  Fits-Closes :
      (s : Signal Float) (o first : Order) (d : Direction) (position : Option PositionSnapshot)
      (balance : BalanceView)
      (snapshot : String → Result String (BalanceView × Option PositionSnapshot))
      → de.snapshot ≡ some snapshot
      → snapshot s.symbol ≡ ok (balance, position)
      → o.symbol ≡ s.symbol
      → o.side ≡ first.side
      → s.direction ≡ d
      → opens_exposure (some s) ≡ false
      → Fits num de d position first
      → Closes num de s o
  unfolding opens_exposure
  Fits-Closes s o first Direction.long p b f g a y i h c t = absurd (cc (h, c))
  Fits-Closes s o first Direction.short p b f g a y i h c t = absurd (cc (h, c))
  Fits-Closes s o first (Direction.other d) p b f g a y i h c t = absurd t
  Fits-Closes s o first Direction.flat none b f g a y i h c t = absurd t
  Fits-Closes s o first Direction.flat (some p) b f g a y i h c (side, size, written) = record {
    snapshot = f;
    given = g;
    balance = b;
    position = p;
    account = a;
    open_size = size;
    same_symbol = y;
    against = subst (IsAgainst p.side) (sym i) side;
  }

  decided-Closes :
      (name : String) (s : Signal Float) (o : Order)
      → OnlyPerp
      → opens_exposure (some s) ≡ false
      → Sent num e name s o
      → Closes num de s o
  unfolding perp_port
  decided-Closes name s o only closing r =
      let mk = strategy_market num e name in
      let perps = market_for-perp only mk r.market r.registered in
      let d =
        process_signal-Decided num laws de name s st r.first
          (ap (λ m. m.decide name s) (sym perps) ∙ r.decided) in
      let judged = record (placed_in num e mk r.first) { size = r.size } in
      let t = judged_trades mk r.first judged o r.size r.judged.verdict refl r.judged.settled in
      Fits-Closes s o r.first s.direction d.position d.balance d.snapshot d.given d.account
        (t.0 ∙ d.same_symbol) t.1 refl closing d.fits

  -- While the kill switch is active and every registered market is the perpetual one, and with the
  -- documented laws of the decimal order, an order that dispatchSignal sends trades against a
  -- position that the account has open in the signal's symbol: it sells a long one and buys any
  -- other.
  pub dispatch_signal-Closes :
      (name : String) (s : Signal Float) (o : Order)
      → OnlyPerp
      → e.kill_switch.active ≡ true
      → dispatch_signal num e name s ≡ sent o
      → Closes num de s o
  dispatch_signal-Closes name s o only on h =
      let r = dispatch_signal-Sent num e (only_perp-ArePorts only) name s o h in
      decided-Closes name s o only (ap (λ b. b && opens_exposure (some s)) (sym on) ∙ r.alive) r
