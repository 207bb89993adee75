-- ===== src/Projection/Positions.antt =====
-- What an event about a position leaves.
use signalix.Prelude.{
  suc, ◌≡◌, true, false, none, some, String, ok, str_eq, arith, Bool-cases, inl, inr, if◌then◌else◌,
}
use signalix.Prelude.Dict.{lookup-insert, lookup-erase}
use signalix.Numbers.{Numbers}
use signalix.Models.{PositionSnapshot}
use signalix.Projection.{
  Outside, Projection, position_update, position_size_is_zero, apply_position_update, apply_event,
  on_user_event, position_for_contract,
}

-- Once the projection is ready, an event about a position of a named contract replaces what is
-- known of that contract, by nothing if its size is zero, changes what is known of no other
-- contract, and raises the revision by one.
pub on_user_event-position :
    (num : Numbers) (out : Outside) (v : PositionSnapshot) (p : Projection num.Decimal)
    (contract : String)
    → p.ready ≡ true
    → str_eq v.contract "" ≡ false
    → (position_for_contract num out contract
          (on_user_event num out (some (position_update (some v))) p)
        ≡ (if str_eq v.contract contract
            then ok (if position_size_is_zero num out v.size then none else some v)
            else position_for_contract num out contract p))
      × ((on_user_event num out (some (position_update (some v))) p).revision ≡ suc p.revision)
unfolding on_user_event apply_event apply_position_update position_for_contract
on_user_event-position num out v p contract on named =
    elim (Bool-cases (position_size_is_zero num out v.size)) [
      | inl gone ↦ (
        ground (arith, on, named, gone, lookup-erase v.contract contract p.positions),
        ground (arith, on, named, gone),
      )
      | inr open_ ↦ (
        ground (arith, on, named, open_, lookup-insert v.contract contract v p.positions),
        ground (arith, on, named, open_),
      )
    ]
