-- ===== src/Projection/Tests.antt =====
-- The projection on concrete events.
use signalix.Prelude.{
  ◌≡◌, refl, true, false, none, some, [], ◌∷◌, ok, err, str_eq, ◌⊎◌, if◌then◌else◌,
}
use signalix.Prelude.Int.{ℤ}
use signalix.Prelude.Dict.{lookup}
use signalix.Numbers.Whole.{whole}
use signalix.Models.{PositionSide, PositionSnapshot, BalanceView}
use signalix.Projection.{
  Outside, Projection, position_update, not_ready, position_size_is_zero, on_user_event,
  position_for_contract, refresh, snapshot,
}
use signalix.Projection.Positions.{on_user_event-position}
use signalix.Projection.Ready.{fresh, refreshed, merged, new_projection, Reached-snapshot}

abbrev outside : Outside
outside = record {
  float_is_zero = λ s. some (str_eq s "0");
  equal_fold = λ a b. str_eq a b;
  now = 5;
  has_equity_hook = true;
}

abbrev balance : BalanceView
balance = record {
  currency = "USDT";
  total = "500";
  available = "400";
  frozen = "0";
  updated_at = 1;
}

abbrev position : PositionSnapshot
position = record {
  contract = "BTC_USDT";
  side = PositionSide.long;
  size = "3";
  entry_price = "5";
  mark_price = "5";
  unrealized_pnl = "0";
  leverage = 1;
  updated_at = 0;
}

abbrev ready_projection : Projection ℤ
ready_projection = record {
  balance = some balance;
  positions = ("BTC_USDT", position) ∷ [];
  revision = 4;
  ready = true;
  equities = [];
}

abbrev closed : PositionSnapshot
closed = record position { size = "0" }

on_user_event-position_example :
    (position_for_contract whole outside "BTC_USDT"
        (on_user_event whole outside (some (position_update (some closed))) ready_projection)
      ≡ (if str_eq "BTC_USDT" "BTC_USDT"
          then ok (if position_size_is_zero whole outside "0" then none else some closed)
          else position_for_contract whole outside "BTC_USDT" ready_projection))
    × ((on_user_event whole outside
          (some (position_update (some closed)))
          ready_projection).revision
        ≡ 5)
on_user_event-position_example =
    on_user_event-position whole outside closed ready_projection "BTC_USDT" refl refl

-- One refresh, and then the event.
abbrev after_event : Projection ℤ
after_event =
    on_user_event whole outside (some (position_update (some closed)))
      (refresh whole outside (ok balance) (ok (some position ∷ none ∷ [])) new_projection).0

Reached-snapshot_example :
    ((after_event.ready ≡ false) × (snapshot whole outside "BTC_USDT" after_event ≡ err not_ready))
    ⊎ ((after_event.ready ≡ true)
        × ((b : BalanceView) × (after_event.balance ≡ some b)
            × (snapshot whole outside "BTC_USDT" after_event
                ≡ ok (b, lookup "BTC_USDT" after_event.positions, after_event.revision))))
Reached-snapshot_example = Reached-snapshot whole outside after_event "BTC_USDT" (
    merged outside (some (position_update (some closed)))
      (refreshed outside (ok balance) (ok (some position ∷ none ∷ [])) fresh))
