-- ===== src/Sessions/Examples.antt =====
-- A login, exchanges and a logout against a small Keycloak, and the theorems about them at these
-- inputs.
use work_behavior_analytics.Prelude.{
  ℕ, true, String, Option, none, some, List, [], ◌∷◌, ◌≡◌, refl, if◌then◌else◌, ◌==◌, text_key,
  arith, eq_iff,
}
use work_behavior_analytics.Prelude.Text.{has_text, strip, rstrip_slash}
use work_behavior_analytics.Prelude.Json.{Json, str, num, obj, field, end, get}
use work_behavior_analytics.Tokens.Service.{Response, response}
use work_behavior_analytics.Sessions.Table.{
  AuthSession, SessionTable, create_session, find_active, update_where, purge_expired,
}
use work_behavior_analytics.Sessions.Paths.{
  has_bad_text, sanitize, sanitize_next_path, IsSafe, Guarded, or_empty,
}
use work_behavior_analytics.Sessions.Guard.{sanitize_next_path-Guarded}
use work_behavior_analytics.Sessions.Keycloak.{
  Principal, Env, login_error, state_mismatch, unknown_session, too_idle, unavailable_keycloak,
  bad_status, returned, raised, pkce_payload, decode_pkce_cookie, decode_pkce_next,
  parse_token_response, and_then,
}
use work_behavior_analytics.Sessions.Login.{
  start_login, check_state, code_grant, read_grant, obtain_grant, Draw, Grant, open_session,
  complete_login,
}
use work_behavior_analytics.Sessions.Exchange.{
  session_expired, begin_exchange, refresh_grant, served, finish_exchange, exchange_token, logout,
}
use work_behavior_analytics.Sessions.History.{Event, begins, finishes, purges, run_requests}
use work_behavior_analytics.Sessions.Unique.{IsSound, run_requests-IsSound}
use work_behavior_analytics.Sessions.Revoked.{logout-ends}
use work_behavior_analytics.Sessions.Effect.{exchange_token-Effect}
use work_behavior_analytics.Sessions.Verdict.{Effect}
use work_behavior_analytics.Sessions.Return.{obtain_grant-start_login, complete_login-forged}
use work_behavior_analytics.Sessions.Opened.{login_row, open_session-exchange_token}

abbrev sealed : String → String
sealed s = String.◌∷◌ "#" s

abbrev unsealed : String → Option String
unsealed String.[] = none
unsealed (String.◌∷◌ c s) = some s

abbrev ann : Principal
ann = record { subject = "u1"; username = "ann"; roles = "wba-user" ∷ [] }

abbrev payload : Json
payload = pkce_payload "st" "ve" (some "/app/timeline")

abbrev env : Env
env = record {
  hash_session_id = sealed;
  encrypt = sealed;
  decrypt = unsealed;
  dumps = λ j. "doc";
  loads = λ s. if s == "doc" then some payload else none;
  challenge = λ s. s;
  urlencode = λ ps. "q";
  validate_bearer_token = λ s. some ann;
  client_id = "wba";
  client_secret = "secret";
  issuer = "https://id/realms/wba/";
  public_base_url = "https://wba/";
  max_hours = 8;
  idle_minutes = 30;
}

abbrev tokens : Json
tokens = obj (
    field "access_token" (str "a1")
      (field "refresh_token" (str "r2") (field "expires_in" (num 300) end)))

abbrev serves : List (String × String) → Response
serves form = response 200 (some tokens)

abbrev refuses : List (String × String) → Response
refuses form = response 400 none

abbrev fails : List (String × String) → Response
fails form = response 503 none

abbrev draw : Draw
draw = record {
  session_id = "c1";
  login_now = 1000;
  row_now = 1000;
  purge_now = 1001;
  purge_works = true;
}

abbrev grant : Grant
grant = record { principal = ann; refresh_token = "r1"; requested_next = none }

abbrev empty_table : SessionTable
empty_table = record { rows = []; next_id = 1 }

abbrev row_of : ℕ → String → AuthSession
row_of id hash = record {
  id = id;
  session_id_hash = hash;
  subject = "u1";
  username = "ann";
  roles = [];
  refresh_token_encrypted = "#r1";
  expires_at = 29800;
  last_seen_at = 1000;
  revoked_at = none;
}

abbrev table : SessionTable
table = record { rows = row_of 1 "#c1" ∷ row_of 2 "#c2" ∷ []; next_id = 3 }

table-IsSound : IsSound table
table-IsSound = record { below = ground arith; distinct = ground (arith, eq_iff "#c1" "#c2") }

abbrev later_events : List Event
later_events =
    begins 2000 (some "c1")
    ∷ finishes (row_of 1 "#c1") 1990 (response 200 (some tokens))
    ∷ purges 5000
    ∷ []

program : Unit {0}
unfolding has_text strip has_bad_text sanitize sanitize_next_path get create_session find_active
    update_where purge_expired decode_pkce_cookie decode_pkce_next check_state parse_token_response
    obtain_grant open_session start_login session_expired begin_exchange served finish_exchange
    exchange_token logout rstrip_slash
program = tt
  where
    home : sanitize_next_path (some " /app/timeline ") ≡ "/app/timeline"
    home = refl

    elsewhere : sanitize_next_path (some "/app//evil.example") ≡ "/app/graph"
    elsewhere = refl

    callback : String
    callback = (start_login env "st" "ve" (some "/app/timeline")).pkce_cookie_value

    logged_in :
        (complete_login env draw serves empty_table "code" "st" callback).0
        ≡ returned (record { session_id = "c1"; next_path = "/app/timeline" })
    logged_in = refl

    exchanged :
        (exchange_token env 1500 serves table (some "c1")).0
        ≡ returned (record { access_token = "a1"; expires_in = 300 })
    exchanged = refl

    preserved :
        exchange_token env 1500 fails table (some "c1") ≡ (raised unavailable_keycloak, table)
    preserved = refl

    idle : (exchange_token env 3000 serves table (some "c1")).0 ≡ raised too_idle
    idle = refl

    -- A status that is neither 400 nor a server's is the error of a login.
    unhandled :
        (exchange_token env 1500 (λ d. response 401 none) table (some "c1")).0
        ≡ raised (login_error (bad_status 401))
    unhandled = refl

    logout_url :
        (logout env 1500 none table (some "c1")).0
        ≡ "https://id/realms/wba/protocol/openid-connect/logout?q"
    logout_url = refl

sanitize_next_path-Guarded_example :
    IsSafe (sanitize_next_path (some "//evil"))
    × Guarded (strip (or_empty (some "//evil"))) (sanitize_next_path (some "//evil"))
sanitize_next_path-Guarded_example = sanitize_next_path-Guarded (some "//evil")

run_requests-IsSound_example : IsSound (run_requests env table later_events)
run_requests-IsSound_example = run_requests-IsSound env table later_events table-IsSound

logout-ends_example :
    exchange_token env 3000 serves
      (run_requests env (logout env 1500 none table (some "c1")).1 later_events)
      (some "c1")
    ≡ (
      raised unknown_session,
      run_requests env (logout env 1500 none table (some "c1")).1 later_events,
    )
logout-ends_example =
    logout-ends env 1500 3000 none table "c1" later_events serves table-IsSound refl
      (tt, (tt, (tt, tt)))

exchange_token-Effect_example :
    Effect env 1500 fails table "c1"
      (exchange_token env 1500 fails table (some "c1")).0
      (exchange_token env 1500 fails table (some "c1")).1
exchange_token-Effect_example = exchange_token-Effect env 1500 fails table "c1"

obtain_grant-start_login_example :
    obtain_grant env serves "code" "st"
      (start_login env "st" "ve" (some "/app/timeline")).pkce_cookie_value
    ≡ and_then
        (parse_token_response (serves (code_grant env "code" "ve")))
        (read_grant env (some (start_login env "st" "ve" (some "/app/timeline")).next_path))
unfolding sanitize_next_path sanitize has_bad_text has_text strip
obtain_grant-start_login_example =
    obtain_grant-start_login env serves "code" "st" "ve" (some "/app/timeline") (λ s. refl) refl
      refl refl

complete_login-forged_example :
    complete_login env draw serves table "code" "xx"
      (start_login env "st" "ve" (some "/app/timeline")).pkce_cookie_value
    ≡ (raised (login_error state_mismatch), table)
unfolding sanitize_next_path sanitize has_bad_text has_text strip
complete_login-forged_example =
    complete_login-forged env draw serves table "code" "st" "xx" "ve" (some "/app/timeline")
      (λ s. refl) refl refl refl refl

open_session-exchange_token_example :
    exchange_token env 1500 serves
      (open_session env draw empty_table (returned grant)).1
      (some "c1")
    ≡ finish_exchange env
        (open_session env draw empty_table (returned grant)).1
        (login_row env draw empty_table grant)
        1500
        (serves (refresh_grant env "r1"))
open_session-exchange_token_example =
    open_session-exchange_token env draw empty_table grant 1500 serves (λ s. refl) refl refl
      (ground arith) (ground arith) (ground arith)
