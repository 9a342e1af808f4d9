-- ===== src/Sessions/Verdict.antt =====
-- What an exchange of src/app/api/auth/v1/service.py may leave in the session table.
use work_behavior_analytics.Prelude.{
  ℕ, ◌-◌, ◌*◌, ◌<◌, ◌≤◌, Bool, true, false, String, Option, none, some, List, ℕ_key, ◌≡◌,
}
use work_behavior_analytics.Prelude.Text.{is_empty}
use work_behavior_analytics.Prelude.Json.{Json}
use work_behavior_analytics.Tokens.Service.{Response, response}
use work_behavior_analytics.Sessions.Table.{
  AuthSession, SessionTable, get_active_session, revoke_session, touch_session,
}
use work_behavior_analytics.Sessions.Keycloak.{
  Env, AuthError, grant_refused, too_old, too_idle, Outcome, returned, raised,
}
use work_behavior_analytics.Sessions.Exchange.{
  TokenResponse, session_expired, refresh_grant, Refreshed, served, set_roles,
}

-- The errors after which the user has to log in again.
abbrev pub ends_session : AuthError → Bool
ends_session grant_refused = true
ends_session too_old = true
ends_session too_idle = true
ends_session _ = false

-- Neither past its end nor past its idle limit.
abbrev pub IsLasting : Env → AuthSession → ℕ → Type 0
IsLasting env row now = (now ≤ row.expires_at) × (now - row.last_seen_at ≤ env.idle_minutes * 60)

module _ (env : Env) (now : ℕ) (post : List (String × String) → Response) (t : SessionTable)
    (sid : String) where
  -- The session is there and not over, its refresh token is readable, and Keycloak answers the grant with
  -- status 400.
  pub record IsRefused (row : AuthSession) : Type 0 where
    pub known : is_empty sid ≡ false
    pub found : get_active_session t (env.hash_session_id sid) ≡ some row
    pub valid : session_expired env row now ≡ none
    pub token : String
    pub readable : env.decrypt row.refresh_token_encrypted ≡ some token
    pub body : Option Json
    pub answered : post (refresh_grant env token) ≡ response 400 body

  -- A session that is over or whose grant is refused is revoked, any other error leaves the table as it
  -- was, and a token comes with the roles and the refresh token that Keycloak gave with it.
  pub data Effect : Outcome TokenResponse → SessionTable → Type 0 where
    refused :
        (row : AuthSession)
        → IsRefused row
        → Effect (raised grant_refused) (revoke_session t row now)
    aged :
        (row : AuthSession)
        → get_active_session t (env.hash_session_id sid) ≡ some row
        → row.expires_at < now
        → Effect (raised too_old) (revoke_session t row now)
    unused :
        (row : AuthSession)
        → get_active_session t (env.hash_session_id sid) ≡ some row
        → now ≤ row.expires_at
        → env.idle_minutes * 60 < now - row.last_seen_at
        → Effect (raised too_idle) (revoke_session t row now)
    spared :
        (e : AuthError)
        → ends_session e ≡ false
        → ((row : AuthSession) → ¬ IsRefused row)
        → ((row : AuthSession)
            → is_empty sid ≡ false
            → get_active_session t (env.hash_session_id sid) ≡ some row
            → IsLasting env row now)
        → Effect (raised e) t
    renewed :
        (row : AuthSession) (token : String) (r : Refreshed)
        → get_active_session t (env.hash_session_id sid) ≡ some row
        → session_expired env row now ≡ none
        → env.decrypt row.refresh_token_encrypted ≡ some token
        → served env (post (refresh_grant env token)) ≡ returned r
        → Effect (returned (record { access_token = r.access_token; expires_in = r.expires_in })) (
            touch_session
              (set_roles t row r.principal.roles)
              row
              now
              (some (env.encrypt r.refresh_token)))
