-- ===== src/Sessions/Exchange.antt =====
-- `exchange_token` and `logout` of src/app/api/auth/v1/service.py. An exchange is two steps, before
-- and after the request to Keycloak, since other requests run while it waits.
use work_behavior_analytics.Prelude.{
  ℕ, ◌-◌, ◌*◌, ltb, leb, String, Option, none, some, List, [], ◌∷◌, ◌==◌, ℕ_key, if◌then◌else◌,
}
use work_behavior_analytics.Prelude.Text.{◌++◌, is_empty, rstrip_slash}
use work_behavior_analytics.Prelude.Json.{Fields, get}
use work_behavior_analytics.Tokens.Service.{Response, unreachable, response, numeric}
use work_behavior_analytics.Sessions.Table.{
  AuthSession, SessionTable, find_active, get_active_session, update_where, touch_session,
  revoke_session,
}
use work_behavior_analytics.Sessions.Keycloak.{
  Principal, Env, AuthError, no_cookie, unknown_session, grant_refused, too_old, too_idle,
  unreachable_keycloak, unavailable_keycloak, no_access_token, not_rotated, token_not_validated,
  value_error, Outcome, returned, raised, and_then, as_str, parse_token_response,
}

pub record TokenResponse : Type 0 where
  pub access_token : String
  pub expires_in : ℕ

-- `_session_expired`. A row that was seen in the future is not idle.
unfoldable pub session_expired : Env → AuthSession → ℕ → Option AuthError
session_expired env row now =
    if ltb row.expires_at now
    then some too_old
    else if ltb (env.idle_minutes * 60) (now - row.last_seen_at)
    then some too_idle
    else none

-- Up to the request: an error, or the row with its refresh token.
pub data Begun : Type 0 where
  refused : AuthError → Begun
  asking : AuthSession → String → Begun

abbrev pub with_token : AuthSession → Option String → Begun
with_token row none = refused value_error
with_token row (some token) = asking row token

abbrev pub unless_expired :
    Env → SessionTable → ℕ → AuthSession → Option AuthError → Begun × SessionTable
unless_expired env t now row (some e) = (refused e, revoke_session t row now)
unless_expired env t now row none = (with_token row (env.decrypt row.refresh_token_encrypted), t)

abbrev pub for_row : Env → SessionTable → ℕ → Option AuthSession → Begun × SessionTable
for_row env t now none = (refused unknown_session, t)
for_row env t now (some row) = unless_expired env t now row (session_expired env row now)

abbrev pub for_cookie : Env → SessionTable → ℕ → String → Begun × SessionTable
for_cookie env t now session_id =
    if is_empty session_id
    then (refused no_cookie, t)
    else for_row env t now (get_active_session t (env.hash_session_id session_id))

unfoldable pub begin_exchange : Env → SessionTable → ℕ → Option String → Begun × SessionTable
unfolding session_expired find_active update_where
begin_exchange env t now none = (refused no_cookie, t)
begin_exchange env t now (some session_id) = for_cookie env t now session_id

abbrev pub refresh_grant : Env → String → List (String × String)
refresh_grant env token =
    ("grant_type", "refresh_token")
    ∷ ("client_id", env.client_id)
    ∷ ("client_secret", env.client_secret)
    ∷ ("refresh_token", token)
    ∷ []

abbrev pub or_zero : Option ℕ → ℕ
or_zero none = 0
or_zero (some n) = n

-- A validated refresh: the tokens and the principal.
pub record Refreshed : Type 0 where
  pub access_token : String
  pub refresh_token : String
  pub principal : Principal
  pub expires_in : ℕ

abbrev pub validated : String → String → ℕ → Option Principal → Outcome Refreshed
validated access refresh expires_in none = raised token_not_validated
validated access refresh expires_in (some principal) = returned (record {
  access_token = access;
  refresh_token = refresh;
  principal = principal;
  expires_in = expires_in;
})

abbrev pub rotated : Env → Option String → Option String → ℕ → Outcome Refreshed
rotated env none refresh expires_in = raised no_access_token
rotated env (some access) none expires_in = raised not_rotated
rotated env (some access) (some refresh) expires_in =
    validated access refresh expires_in (env.validate_bearer_token access)

abbrev pub read_refresh : Env → Fields → Outcome Refreshed
read_refresh env d =
    rotated env (as_str (get d "access_token")) (as_str (get d "refresh_token"))
      (or_zero (numeric (get d "expires_in")))

unfoldable pub served : Env → Response → Outcome Refreshed
unfolding get parse_token_response
served env answer = and_then (parse_token_response answer) (read_refresh env)

-- `row.roles = …`, which the commit writes.
abbrev pub set_roles : SessionTable → AuthSession → List String → SessionTable
set_roles t row roles = record t {
  rows = update_where row.id (λ r. record r { roles = roles }) t.rows;
}

abbrev pub store_refresh :
    Env → SessionTable → AuthSession → ℕ → Outcome Refreshed → Outcome TokenResponse × SessionTable
store_refresh env t row now (raised e) = (raised e, t)
store_refresh env t row now (returned r) = (
  returned (record { access_token = r.access_token; expires_in = r.expires_in }),
  touch_session (set_roles t row r.principal.roles) row now (some (env.encrypt r.refresh_token)),
)

-- `now` is the clock as the exchange began.
unfoldable pub finish_exchange :
    Env → SessionTable → AuthSession → ℕ → Response → Outcome TokenResponse × SessionTable
unfolding served update_where
finish_exchange env t row now unreachable = (raised unreachable_keycloak, t)
finish_exchange env t row now (response status body) =
    if status == 400
    then (raised grant_refused, revoke_session t row now)
    else if leb 500 status
    then (raised unavailable_keycloak, t)
    else store_refresh env t row now (served env (response status body))

abbrev pub continue_exchange :
    Env
    → ℕ
    → (List (String × String) → Response)
    → Begun × SessionTable
    → Outcome TokenResponse × SessionTable
continue_exchange env now post (refused e, t) = (raised e, t)
continue_exchange env now post (asking row token, t) =
    finish_exchange env t row now (post (refresh_grant env token))

unfoldable pub exchange_token :
    Env
    → ℕ
    → (List (String × String) → Response)
    → SessionTable
    → Option String
    → Outcome TokenResponse × SessionTable
unfolding begin_exchange finish_exchange
exchange_token env now post t session_id =
    continue_exchange env now post (begin_exchange env t now session_id)

-- `endpoint` is the discovered one, none where discovery fails or has no text for it.
abbrev pub end_session_endpoint : Env → Option String → String
end_session_endpoint env (some endpoint) =
    if is_empty endpoint
    then rstrip_slash env.issuer ++ "/protocol/openid-connect/logout"
    else endpoint
end_session_endpoint env none = rstrip_slash env.issuer ++ "/protocol/openid-connect/logout"

abbrev pub revoke_found : SessionTable → ℕ → Option AuthSession → SessionTable
revoke_found t now none = t
revoke_found t now (some row) = revoke_session t row now

abbrev pub revoke_cookie : Env → SessionTable → ℕ → Option String → SessionTable
revoke_cookie env t now none = t
revoke_cookie env t now (some session_id) =
    if is_empty session_id
    then t
    else revoke_found t now (get_active_session t (env.hash_session_id session_id))

unfoldable pub logout :
    Env → ℕ → Option String → SessionTable → Option String → String × SessionTable
unfolding update_where find_active
logout env now endpoint t session_id = (
  end_session_endpoint env endpoint
      ++ "?"
      ++ env.urlencode (
          ("client_id", env.client_id)
          ∷ ("post_logout_redirect_uri", rstrip_slash env.public_base_url ++ "/app")
          ∷ []),
  revoke_cookie env t now session_id,
)
