-- ===== src/Sessions/History.antt =====
-- The requests that change the session table, in the order in which their database work is done. An
-- exchange is two events, with any others between.
use work_behavior_analytics.Prelude.{ℕ, String, Option, none, List, [], ◌∷◌}
use work_behavior_analytics.Tokens.Service.{Response}
use work_behavior_analytics.Sessions.Table.{AuthSession, SessionTable, purge_expired}
use work_behavior_analytics.Sessions.Keycloak.{Env, Outcome}
use work_behavior_analytics.Sessions.Login.{Draw, Grant, open_session}
use work_behavior_analytics.Sessions.Exchange.{begin_exchange, finish_exchange, logout}

pub data Event : Type 0 where
  signs_in : Draw → Outcome Grant → Event
  begins : ℕ → Option String → Event
  finishes : AuthSession → ℕ → Response → Event
  signs_out : ℕ → Option String → Event
  purges : ℕ → Event

unfoldable pub step : Env → SessionTable → Event → SessionTable
unfolding open_session begin_exchange finish_exchange logout purge_expired
step env t (signs_in draw grant) = (open_session env draw t grant).1
step env t (begins now session_id) = (begin_exchange env t now session_id).1
step env t (finishes row now answer) = (finish_exchange env t row now answer).1
step env t (signs_out now session_id) = (logout env now none t session_id).1
step env t (purges now) = (purge_expired t now).0

unfoldable pub run_requests : Env → SessionTable → List Event → SessionTable
unfolding step
run_requests env t [] = t
run_requests env t (e ∷ events) = run_requests env (step env t e) events
