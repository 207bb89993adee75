-- ===== src/Exchange.antt =====
-- The client's names of orders: pkg/exchange/perp/client_order_id.go, whose interface the executor
-- uses and the Gate.io client implements.
pub mod ClientId
use signalix.Prelude.{Bool, false, true, ◌≡◌, ◌≢◌, String}
use signalix.Prelude.Text.{trim_space}

-- perp.ClientOrderIDCodec
pub record Codec : Type 0 where
  pub tag_from_local : String → String
  pub local_from_tag : String → String × Bool

-- What the executor relies on: a tag has no white space around it, and a name that is read back
-- from a tag is not empty.
pub record IsCodec (c : Codec) : Type 0 where
  pub trimmed : (id : String) → trim_space (c.tag_from_local id) ≡ c.tag_from_local id
  pub named : (tag : String) → (c.local_from_tag tag).1 ≡ true → (c.local_from_tag tag).0 ≢ ""
