-- ===== src/Tokens/Service.antt =====
-- src/common/auth/service_token.py with its process-wide state. A time is a number of seconds of the
-- monotonic clock.
use work_behavior_analytics.Prelude.{
  ℕ, ◌+◌, ◌-◌, ltb, Bool, true, false, not, ◌&&◌, String, Option, none, some, ◌==◌, ℕ_key,
  if◌then◌else◌, is_some,
}
use work_behavior_analytics.Prelude.Text.{is_empty}
use work_behavior_analytics.Prelude.Json.{Json, null, bool, num, str, arr, obj, get, is_falsy}

-- `_TokenState` without its lock.
pub record TokenState : Type 0 where
  pub access_token : Option String
  pub expires_at : ℕ

abbrev pub new_state : TokenState
new_state = record { access_token = none; expires_at = 0 }

-- `ServiceTokenError`, by its message.
pub data TokenError : Type 0 where
  request_failed : TokenError
  bad_status : ℕ → TokenError
  not_json : TokenError
  no_access_token : TokenError
  no_expires_in : TokenError
  backing_off : TokenError
  no_secret : TokenError

pub data Outcome (A : Type 0) : Type 0 where
  returned : A → Outcome A
  raised : TokenError → Outcome A

-- What the token endpoint does: a RequestException, or a status with a body, which is none where it is
-- not JSON.
pub data Response : Type 0 where
  unreachable : Response
  response : ℕ → Option Json → Response

abbrev pub refresh_margin_seconds : ℕ
refresh_margin_seconds = 60

abbrev pub failure_backoff_seconds : ℕ
failure_backoff_seconds = 30

-- `isinstance(v, (int, float))` and `float(v)`: a bool is an int.
abbrev pub numeric : Option Json → Option ℕ
numeric (some (num n)) = some n
numeric (some (bool true)) = some 1
numeric (some (bool false)) = some 0
numeric (some null) = none
numeric (some (str s)) = none
numeric (some (arr xs)) = none
numeric (some (obj d)) = none
numeric none = none

abbrev pub with_expiry : String → ℕ → Option ℕ → Outcome (String × ℕ)
with_expiry token now none = raised no_expires_in
with_expiry token now (some expires_in) =
    returned (token, now + expires_in - refresh_margin_seconds)

-- `show_json` is str() of a decoded value.
abbrev pub token_of : (Json → String) → ℕ → Option Json → Option Json → Outcome (String × ℕ)
token_of show_json now none expires_in = raised no_access_token
token_of show_json now (some token) expires_in =
    if is_falsy token
    then raised no_access_token
    else with_expiry (show_json token) now (numeric expires_in)

abbrev pub parse_payload : (Json → String) → ℕ → Option Json → Outcome (String × ℕ)
parse_payload show_json now none = raised not_json
parse_payload show_json now (some (obj payload)) =
    token_of show_json now (get payload "access_token") (get payload "expires_in")
parse_payload show_json now (some null) = raised no_access_token
parse_payload show_json now (some (bool b)) = raised no_access_token
parse_payload show_json now (some (num n)) = raised no_access_token
parse_payload show_json now (some (str s)) = raised no_access_token
parse_payload show_json now (some (arr xs)) = raised no_access_token

-- `now` is the clock when the answer has been read. An expiry before the clock's zero is zero.
unfoldable pub request_token : (Json → String) → ℕ → Response → Outcome (String × ℕ)
request_token show_json now unreachable = raised request_failed
request_token show_json now (response status body) =
    if status == 200 then parse_payload show_json now body else raised (bad_status status)

-- `_cached_token`
unfoldable pub cached_token : TokenState → ℕ → Option String
cached_token state now = if ltb now state.expires_at then state.access_token else none

-- `_in_failure_backoff`
unfoldable pub in_failure_backoff : TokenState → ℕ → Bool
in_failure_backoff state now = not (is_some state.access_token) && ltb now state.expires_at

-- What the call that asks the endpoint leaves: the number of requests goes up.
pub record Endpoint : Type 0 where
  pub show_json : Json → String
  pub client_secret : String
  pub answer : ℕ → Response

pub record World : Type 0 where
  pub state : TokenState
  pub requests : ℕ

-- The readings of the clock in a call, in their order.
pub record Clock : Type 0 where
  pub peeked : ℕ
  pub locked : ℕ
  pub answered : ℕ
  pub failed : ℕ

abbrev pub after_request : Clock → World → Outcome (String × ℕ) → Outcome String × World
after_request clock w (returned (token, expires_at)) = (
  returned token,
  record w { state = record { access_token = some token; expires_at = expires_at } },
)
after_request clock w (raised e) = (
  raised e,
  record w {
    state = record { access_token = none; expires_at = clock.failed + failure_backoff_seconds };
  },
)

-- Below the second check, under the lock.
unfoldable pub fetch : Endpoint → Clock → World → Outcome String × World
unfolding request_token
fetch endpoint clock w =
    if is_empty endpoint.client_secret
    then (raised no_secret, w)
    else after_request clock (record w { requests = w.requests + 1 })
        (request_token endpoint.show_json clock.answered (endpoint.answer w.requests))

abbrev pub or_fetch : Endpoint → Clock → World → Option String → Bool → Outcome String × World
or_fetch endpoint clock w (some token) backoff = (returned token, w)
or_fetch endpoint clock w none true = (raised backing_off, w)
or_fetch endpoint clock w none false = fetch endpoint clock w

-- The block under `with _state.lock`.
unfoldable pub locked_section : Endpoint → Clock → World → Outcome String × World
unfolding cached_token in_failure_backoff fetch
locked_section endpoint clock w =
    or_fetch endpoint clock w (cached_token w.state clock.locked)
      (in_failure_backoff w.state clock.locked)

abbrev pub or_lock : Endpoint → Clock → World → Option String → Bool → Outcome String × World
or_lock endpoint clock w (some token) backoff = (returned token, w)
or_lock endpoint clock w none true = (raised backing_off, w)
or_lock endpoint clock w none false = locked_section endpoint clock w

-- `seen` is the state that the checks before the lock read; another thread may have changed it by the
-- time the lock is taken.
unfoldable pub get_service_token : Endpoint → Clock → TokenState → World → Outcome String × World
unfolding locked_section
get_service_token endpoint clock seen w =
    or_lock endpoint clock w (cached_token seen clock.peeked) (in_failure_backoff seen clock.peeked)

unfoldable pub invalidate_service_token : World → World
invalidate_service_token w = record w { state = new_state }
