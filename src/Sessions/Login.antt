-- ===== src/Sessions/Login.antt =====
-- `start_login` and `complete_login` of src/app/api/auth/v1/service.py.
use work_behavior_analytics.Prelude.{
  ℕ, ◌+◌, ◌*◌, Bool, ◌&&◌, String, Option, none, some, List, [], ◌∷◌, ◌==◌, text_key, if◌then◌else◌,
}
use work_behavior_analytics.Prelude.Text.{◌++◌, is_empty, rstrip_slash}
use work_behavior_analytics.Prelude.Json.{Fields, get}
use work_behavior_analytics.Tokens.Service.{Response}
use work_behavior_analytics.Sessions.Table.{SessionTable, create_session, purge_expired}
use work_behavior_analytics.Sessions.Paths.{sanitize_next_path}
use work_behavior_analytics.Sessions.Keycloak.{
  Principal, Env, login_error, no_state_cookie, state_mismatch, no_tokens, not_validated,
  type_error, integrity_error, Outcome, returned, raised, and_then, as_str, parse_token_response,
  encode_pkce_cookie, decode_pkce_cookie, decode_pkce_next, is_ascii,
}

pub record LoginRedirect : Type 0 where
  pub authorize_url : String
  pub pkce_cookie_value : String
  pub next_path : String

pub record LoginResult : Type 0 where
  pub session_id : String
  pub next_path : String

-- `_redirect_uri`
abbrev pub redirect_uri : Env → String
redirect_uri env = rstrip_slash env.public_base_url ++ "/api/v1/auth/callback"

abbrev pub authorize_params : Env → String → String → List (String × String)
authorize_params env state verifier =
    ("client_id", env.client_id)
    ∷ ("redirect_uri", redirect_uri env)
    ∷ ("response_type", "code")
    ∷ ("scope", "openid profile")
    ∷ ("code_challenge", env.challenge verifier)
    ∷ ("code_challenge_method", "S256")
    ∷ ("state", state)
    ∷ []

-- `state` and `verifier` are what `secrets.token_urlsafe` draws.
unfoldable pub start_login : Env → String → String → Option String → LoginRedirect
start_login env state verifier next_path =
    let safe_next = sanitize_next_path next_path in
    record {
      authorize_url =
          rstrip_slash env.issuer
          ++ "/protocol/openid-connect/auth"
          ++ "?"
          ++ env.urlencode (authorize_params env state verifier);
      pkce_cookie_value = encode_pkce_cookie env state verifier (some safe_next);
      next_path = safe_next;
    }

-- What the callback reads of its cookie.
pub record Started : Type 0 where
  pub expected_state : String
  pub verifier : String
  pub requested_next : Option String

abbrev pub as_started : Outcome (String × String) → Outcome (Option String) → Outcome Started
as_started (raised e) next = raised (login_error no_state_cookie)
as_started (returned p) (raised e) = raised (login_error no_state_cookie)
as_started (returned (state, verifier)) (returned next) =
    returned (record { expected_state = state; verifier = verifier; requested_next = next })

abbrev pub read_cookie : Env → String → Outcome Started
read_cookie env value = as_started (decode_pkce_cookie env value) (decode_pkce_next env value)

-- `secrets.compare_digest` raises on texts that are not ASCII.
unfoldable pub check_state : String → Started → Outcome Started
check_state state s =
    if is_empty state
    then raised (login_error state_mismatch)
    else if is_ascii s.expected_state && is_ascii state
    then if s.expected_state == state then returned s else raised (login_error state_mismatch)
    else raised type_error

abbrev pub code_grant : Env → String → String → List (String × String)
code_grant env code verifier =
    ("grant_type", "authorization_code")
    ∷ ("code", code)
    ∷ ("redirect_uri", redirect_uri env)
    ∷ ("client_id", env.client_id)
    ∷ ("client_secret", env.client_secret)
    ∷ ("code_verifier", verifier)
    ∷ []

pub record Grant : Type 0 where
  pub principal : Principal
  pub refresh_token : String
  pub requested_next : Option String

abbrev pub validated : Option String → String → Option Principal → Outcome Grant
validated next refresh none = raised (login_error not_validated)
validated next refresh (some principal) =
    returned (record { principal = principal; refresh_token = refresh; requested_next = next })

abbrev pub grant_of : Env → Option String → Option String → Option String → Outcome Grant
grant_of env next none refresh = raised (login_error no_tokens)
grant_of env next (some access) none = raised (login_error no_tokens)
grant_of env next (some access) (some refresh) =
    validated next refresh (env.validate_bearer_token access)

abbrev pub read_grant : Env → Option String → Fields → Outcome Grant
read_grant env next d =
    grant_of env next (as_str (get d "access_token")) (as_str (get d "refresh_token"))

-- `complete_login` up to the session; `post` is the token endpoint.
unfoldable pub obtain_grant :
    Env → (List (String × String) → Response) → String → String → String → Outcome Grant
unfolding check_state parse_token_response get
obtain_grant env post code state cookie = and_then (read_cookie env cookie) (λ s.
    and_then (check_state state s) (λ s.
      and_then (parse_token_response (post (code_grant env code s.verifier)))
        (read_grant env s.requested_next)))

-- The random id, the readings of the clock, and whether the purge works.
pub record Draw : Type 0 where
  pub session_id : String
  pub login_now : ℕ
  pub row_now : ℕ
  pub purge_now : ℕ
  pub purge_works : Bool

-- `_purge_opportunistically`
abbrev pub purge_opportunistically : Draw → SessionTable → SessionTable
purge_opportunistically draw t = if draw.purge_works then (purge_expired t draw.purge_now).0 else t

abbrev pub committed :
    Draw → Grant → SessionTable → Option SessionTable → Outcome LoginResult × SessionTable
committed draw grant t none = (raised integrity_error, t)
committed draw grant t (some t') = (
  returned (record {
    session_id = draw.session_id;
    next_path = sanitize_next_path grant.requested_next;
  }),
  purge_opportunistically draw t',
)

unfoldable pub open_session :
    Env → Draw → SessionTable → Outcome Grant → Outcome LoginResult × SessionTable
unfolding create_session purge_expired
open_session env draw t (raised e) = (raised e, t)
open_session env draw t (returned grant) = committed draw grant t (
    create_session t (env.hash_session_id draw.session_id) grant.principal.subject
      grant.principal.username grant.principal.roles (env.encrypt grant.refresh_token)
      (draw.login_now + env.max_hours * 3600) draw.row_now)

abbrev pub complete_login :
    Env
    → Draw
    → (List (String × String) → Response)
    → SessionTable
    → String
    → String
    → String
    → Outcome LoginResult × SessionTable
complete_login env draw post t code state cookie =
    open_session env draw t (obtain_grant env post code state cookie)
