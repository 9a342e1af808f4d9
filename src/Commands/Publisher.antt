-- ===== src/Commands/Publisher.antt =====
-- CommandPublisher (src/common/command_n_control/publisher.py) as the service uses it: one context,
-- one envelope. What the broker does is a parameter.
use work_behavior_analytics.Prelude.{
  Bool, true, false, String, List, [], ◌∷◌, ◌==◌, text_key, if◌then◌else◌,
}
use work_behavior_analytics.Prelude.Text.{◌++◌}
use work_behavior_analytics.Commands.Row.{Envelope}

-- `connects` is false when the connection, the channel or the exchange raises; `accepts` says
-- whether a publish under a routing key returns.
pub record Broker : Type 0 where
  pub connects : Bool
  pub accepts : String → Bool

-- A message that the exchange has taken.
pub record Delivery : Type 0 where
  pub routing_key : String
  pub body : Envelope

abbrev pub routing_key : String → String
routing_key target = "command_n_control." ++ target

-- The `for` loop: it stops at the first publish that raises.
unfoldable pub publish_each : (String → Bool) → Envelope → List String → List Delivery × Bool
publish_each accepts envelope [] = ([], true)
publish_each accepts envelope (target ∷ rest) =
    let (sent, done) = publish_each accepts envelope rest in
    if accepts (routing_key target)
    then (record { routing_key = routing_key target; body = envelope } ∷ sent, done)
    else ([], false)

abbrev pub targets_of : List String → String → List String
targets_of known target = if target == "*" then known else target ∷ []

-- The messages that were sent, and whether the context returned without raising.
unfoldable pub publish : Broker → List String → Envelope → List Delivery × Bool
unfolding publish_each
publish broker known envelope =
    if broker.connects
    then publish_each broker.accepts envelope (targets_of known envelope.target)
    else ([], false)
