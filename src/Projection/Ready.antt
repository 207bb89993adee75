-- ===== src/Projection/Ready.antt =====
-- When the projection can be read.
use signalix.Prelude.{
  ◌≡◌, refl, Bool, true, false, not, Option, none, some, List, [], String, Result, ok, err, str_eq,
  arith, ◌⊎◌, inl, inr, Bool-cases, if◌then◌else◌,
}
use signalix.Prelude.Dict.{lookup}
use signalix.Prelude.Text.{trim_space}
use signalix.Numbers.{Numbers}
use signalix.Models.{PositionSnapshot, BalanceView}
use signalix.Projection.{
  Outside, Projection, UserEvent, order_update, position_update, balance_update, other_event,
  BalanceUpdate, not_ready, notify_parsed, notify_equity, position_size_is_zero,
  apply_position_update, update_balance, apply_balance_update, apply_event, on_user_event,
  refresh_with, refresh, snapshot, with_total,
}

-- NewAccountProjection
abbrev pub new_projection : {D : Type 0} → Projection D
new_projection = record {
  balance = none;
  positions = [];
  revision = 0;
  ready = false;
  equities = [];
}

-- The states that refreshes and events lead to, with a world that changes at each.
pub data Reached (num : Numbers) : Projection num.Decimal → Type 0 where
  fresh : Reached num new_projection
  refreshed :
      {p : Projection num.Decimal} (out : Outside) (bal : Result String BalanceView)
      (list : Result String (List (Option PositionSnapshot)))
      → Reached num p
      → Reached num (refresh num out bal list p).0
  merged :
      {p : Projection num.Decimal} (out : Outside) (ev : Option UserEvent)
      → Reached num p
      → Reached num (on_user_event num out ev p)

-- Without a balance the projection is not ready.
abbrev pub HasBalance : {D : Type 0} → Projection D → Type 0
HasBalance p = (p.ready ≡ false) ⊎ ((b : BalanceView) × (p.balance ≡ some b))

module _ (num : Numbers) (out : Outside) where
  open num use {Decimal}

  notify_equity-keeps :
      (p : Projection Decimal)
      → ((notify_equity num out p).balance ≡ p.balance)
        × ((notify_equity num out p).ready ≡ p.ready)
  unfolding notify_equity notify_parsed
  notify_equity-keeps p = (ground arith, ground arith)

  update_balance-HasBalance :
      (u : BalanceUpdate) (b : Option BalanceView) (p : Projection Decimal)
      → p.balance ≡ b
      → HasBalance p
      → HasBalance (update_balance num out u b p)
  unfolding update_balance notify_equity
  update_balance-HasBalance u none p e h = h
  update_balance-HasBalance u (some b) p e h =
      elim (Bool-cases (out.equal_fold (trim_space u.currency) (trim_space b.currency))) [
        | inr other ↦ rw other h
        | inl same ↦ elim (Bool-cases (str_eq (trim_space u.balance) "")) [
          | inl blank ↦ rw (same, blank) h
          | inr given ↦ rw (same, given) (inr (with_total num out u b, (notify_equity-keeps _).0))
        ]
      ]

  apply_position_update-HasBalance :
      (v : Option PositionSnapshot) (p : Projection Decimal)
      → HasBalance p
      → HasBalance (apply_position_update num out v p)
  unfolding apply_position_update
  apply_position_update-HasBalance none p h = h
  apply_position_update-HasBalance (some v) p h = elim (Bool-cases (str_eq v.contract "")) [
    | inl unnamed ↦ rw unnamed h
    | inr named ↦ elim (Bool-cases (position_size_is_zero num out v.size)) [
      | inl gone ↦ rw (named, gone) h
      | inr open_ ↦ rw (named, open_) h
    ]
  ]

  apply_event-HasBalance :
      (ev : UserEvent) (p : Projection Decimal)
      → HasBalance p
      → HasBalance (apply_event num out ev p)
  unfolding apply_event apply_balance_update
  apply_event-HasBalance (position_update v) p h = apply_position_update-HasBalance v p h
  apply_event-HasBalance (balance_update none) p h = h
  apply_event-HasBalance (balance_update (some u)) p h =
      update_balance-HasBalance u p.balance p refl h
  apply_event-HasBalance other_event p h = h
  apply_event-HasBalance (order_update o) p h = h

  if-HasBalance :
      (c : Bool) (p q : Projection Decimal)
      → HasBalance p
      → HasBalance q
      → HasBalance (if c then p else q)
  if-HasBalance true p q h k = h
  if-HasBalance false p q h k = k

  on_user_event-HasBalance :
      (ev : Option UserEvent) (p : Projection Decimal)
      → HasBalance p
      → HasBalance (on_user_event num out ev p)
  unfolding on_user_event
  on_user_event-HasBalance none p h = h
  on_user_event-HasBalance (some ev) p h =
      if-HasBalance (not p.ready) p (apply_event num out ev p) h (apply_event-HasBalance ev p h)

  refresh_with-HasBalance :
      (bal : BalanceView) (list : Result String (List (Option PositionSnapshot)))
      (p : Projection Decimal)
      → HasBalance p
      → HasBalance (refresh_with num out bal list p).0
  unfolding refresh_with
  refresh_with-HasBalance bal (err e) p h = h
  refresh_with-HasBalance bal (ok list) p h = inr (bal, (notify_equity-keeps _).0)

  refresh-HasBalance :
      (bal : Result String BalanceView) (list : Result String (List (Option PositionSnapshot)))
      (p : Projection Decimal)
      → HasBalance p
      → HasBalance (refresh num out bal list p).0
  unfolding refresh
  refresh-HasBalance (err e) list p h = h
  refresh-HasBalance (ok bal) list p h = refresh_with-HasBalance bal list p h

Reached-HasBalance : (num : Numbers) (p : Projection num.Decimal) → Reached num p → HasBalance p
Reached-HasBalance num _ fresh = inl refl
Reached-HasBalance num _ (refreshed {p} out bal list r) =
    refresh-HasBalance num out bal list p (Reached-HasBalance num p r)
Reached-HasBalance num _ (merged {p} out ev r) =
    on_user_event-HasBalance num out ev p (Reached-HasBalance num p r)

-- After any refreshes and events from the start on, Snapshot fails exactly while the projection is
-- not ready; once it is, it gives a balance, the contract's position, if there is one, and the
-- revision.
pub Reached-snapshot :
    (num : Numbers) (out : Outside) (p : Projection num.Decimal) (contract : String)
    → Reached num p
    → ((p.ready ≡ false) × (snapshot num out contract p ≡ err not_ready))
      ⊎ ((p.ready ≡ true)
          × ((b : BalanceView) × (p.balance ≡ some b)
              × (snapshot num out contract p ≡ ok (b, lookup contract p.positions, p.revision))))
unfolding snapshot
Reached-snapshot num out p contract r = ground (arith, Reached-HasBalance num p r)
