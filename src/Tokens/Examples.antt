-- ===== src/Tokens/Examples.antt =====
-- Calls for a token against a small endpoint, and the theorems about them at these inputs.
use work_behavior_analytics.Prelude.{ℕ, zero, suc, ◌+◌, String, ◌≡◌, refl, none, some, [], ◌∷◌}
use work_behavior_analytics.Prelude.Json.{Json, str, num, obj, field, end, get}
use work_behavior_analytics.Tokens.Service.{
  new_state, bad_status, backing_off, returned, raised, Response, response, request_token,
  cached_token, in_failure_backoff, Endpoint, World, Clock, fetch, locked_section,
  get_service_token, invalidate_service_token,
}
use work_behavior_analytics.Tokens.Freshness.{CallOutcome, get_service_token-CallOutcome}
use work_behavior_analytics.Tokens.Backoff.{calls}

abbrev text_of : Json → String
text_of (str s) = s
text_of _ = ""

abbrev body : Json
body = obj (field "access_token" (str "t1") (field "expires_in" (num 300) end))

-- The first request is refused, the later ones are served.
abbrev answers : ℕ → Response
answers zero = response 503 none
answers (suc n) = response 200 (some body)

abbrev keycloak : Endpoint
keycloak = record { show_json = text_of; client_secret = "s"; answer = answers }

abbrev at : ℕ → Clock
at t = record { peeked = t; locked = t; answered = t + 1; failed = t + 1 }

abbrev initial : World
initial = record { state = new_state; requests = 0 }

abbrev second : World
second = record { state = new_state; requests = 1 }

program : Unit {0}
unfolding get request_token cached_token in_failure_backoff fetch locked_section get_service_token
    calls invalidate_service_token
program = tt
  where
    refused : (get_service_token keycloak (at 10) new_state initial).0 ≡ raised (bad_status 503)
    refused = refl

    -- Refused, backing off, then served and shared; one request more after the token was discarded.
    history :
        (calls keycloak initial (at 10 ∷ at 20 ∷ at 41 ∷ at 100 ∷ [])).0
        ≡ raised (bad_status 503) ∷ raised backing_off ∷ returned "t1" ∷ returned "t1" ∷ []
    history = refl

    discarded :
        (get_service_token keycloak (at 50) new_state (
          invalidate_service_token
            (get_service_token keycloak (at 10) new_state second).1)).1.requests
        ≡ 3
    discarded = refl

get_service_token-CallOutcome_example :
    CallOutcome keycloak
      (at 10)
      new_state
      initial
      (get_service_token keycloak (at 10) new_state initial)
get_service_token-CallOutcome_example =
    get_service_token-CallOutcome keycloak (at 10) new_state initial
