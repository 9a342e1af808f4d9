-- ===== src/Sessions/Over.antt =====
-- Sessions that an exchange of src/app/api/auth/v1/service.py has ended.
use work_behavior_analytics.Prelude.{ℕ, true, false, String, some, List, All, ℕ_key, ◌≡◌, arith}
use work_behavior_analytics.Prelude.Text.{is_empty}
use work_behavior_analytics.Tokens.Service.{Response}
use work_behavior_analytics.Sessions.Table.{SessionTable}
use work_behavior_analytics.Sessions.Keycloak.{Env, AuthError, unknown_session, Outcome, raised}
use work_behavior_analytics.Sessions.Exchange.{TokenResponse, exchange_token}
use work_behavior_analytics.Sessions.History.{Event, run_requests}
use work_behavior_analytics.Sessions.Rows.{IsOut}
use work_behavior_analytics.Sessions.Unique.{IsSound}
use work_behavior_analytics.Sessions.Revoked.{
  Spares, revoked-IsOut, run_requests-IsOut, exchange_token-IsOut,
}
use work_behavior_analytics.Sessions.Verdict.{
  ends_session, Effect, refused, aged, unused, spared, renewed,
}
use work_behavior_analytics.Sessions.Effect.{exchange_token-Effect}

Effect-IsOut :
    (env : Env) (now : ℕ) (post : List (String × String) → Response) (t : SessionTable)
    (sid : String) (e : AuthError) (o : Outcome TokenResponse) (t' : SessionTable)
    → IsSound t
    → ends_session e ≡ true
    → o ≡ raised e
    → Effect env now post t sid o t'
    → IsOut (env.hash_session_id sid) t'.rows
Effect-IsOut env now post t sid e _ _ s k h (refused row r) =
    revoked-IsOut (env.hash_session_id sid) row now t.rows s.distinct r.found
Effect-IsOut env now post t sid e _ _ s k h (aged row f old) =
    revoked-IsOut (env.hash_session_id sid) row now t.rows s.distinct f
Effect-IsOut env now post t sid e _ _ s k h (unused row f l idle) =
    revoked-IsOut (env.hash_session_id sid) row now t.rows s.distinct f
Effect-IsOut env now post t sid e _ _ s k h (spared e' k' n l) = absurd (ground arith)
Effect-IsOut env now post t sid e _ _ s k h (renewed row token r f x d g) = absurd cc

-- After an exchange that found its session too old or too idle, or refused by Keycloak, and whatever
-- requests follow as long as no login draws the same session id, an exchange of the cookie raises
-- SessionNotFoundError and changes nothing.
pub exchange_token-ends :
    (env : Env) (now later : ℕ) (post again : List (String × String) → Response) (t : SessionTable)
    (sid : String) (e : AuthError) (events : List Event)
    → IsSound t
    → is_empty sid ≡ false
    → ends_session e ≡ true
    → (exchange_token env now post t (some sid)).0 ≡ raised e
    → All (Spares env (env.hash_session_id sid)) events
    → exchange_token env later again
        (run_requests env (exchange_token env now post t (some sid)).1 events)
        (some sid)
      ≡ (
        raised unknown_session,
        run_requests env (exchange_token env now post t (some sid)).1 events,
      )
exchange_token-ends env now later post again t sid e events s m k h sp =
    exchange_token-IsOut env later again _ sid m (
      run_requests-IsOut (env.hash_session_id sid) env _ events sp
        (Effect-IsOut env now post t sid e _ _ s k h (exchange_token-Effect env now post t sid)))
