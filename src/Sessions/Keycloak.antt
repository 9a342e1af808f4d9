-- ===== src/Sessions/Keycloak.antt =====
-- What the login flow takes from outside, how it reads Keycloak's answers, and the cookie of
-- src/app/auth/session_cookie.py that carries a login through the browser.
use Prim.Native.Char.{code}
use Prim.Native.String.{[], ◌∷◌}
use work_behavior_analytics.Prelude.{
  ℕ, ltb, Bool, true, ◌&&◌, String, Option, none, some, List, ◌==◌, ℕ_key, if◌then◌else◌,
}
use work_behavior_analytics.Prelude.Json.{
  Json, null, bool, num, str, arr, obj, Fields, end, field, get,
}
use work_behavior_analytics.Tokens.Service.{Response, unreachable, response}

-- `Principal`, its roles sorted.
pub record Principal : Type 0 where
  pub subject : String
  pub username : String
  pub roles : List String

-- SHA-256, Fernet, the JSON codec, the token validation and the settings. A decryption or a document
-- that raises ValueError is none, and so is a token that does not validate.
pub record Env : Type 0 where
  pub hash_session_id : String → String
  pub encrypt : String → String
  pub decrypt : String → Option String
  pub dumps : Json → String
  pub loads : String → Option Json
  pub challenge : String → String
  pub urlencode : List (String × String) → String
  pub validate_bearer_token : String → Option Principal
  pub client_id : String
  pub client_secret : String
  pub issuer : String
  pub public_base_url : String
  pub max_hours : ℕ
  pub idle_minutes : ℕ

pub data LoginProblem : Type 0 where
  no_state_cookie : LoginProblem
  state_mismatch : LoginProblem
  bad_status : ℕ → LoginProblem
  not_json : LoginProblem
  unexpected_body : LoginProblem
  no_tokens : LoginProblem
  not_validated : LoginProblem

-- The exceptions, those of the service by their messages. The last three are not the service's own:
-- a stored token that does not decrypt, a state that `compare_digest` does not take, and a hash that
-- the table has.
pub data AuthError : Type 0 where
  login_error : LoginProblem → AuthError
  no_cookie : AuthError
  unknown_session : AuthError
  grant_refused : AuthError
  too_old : AuthError
  too_idle : AuthError
  unreachable_keycloak : AuthError
  unavailable_keycloak : AuthError
  no_access_token : AuthError
  not_rotated : AuthError
  token_not_validated : AuthError
  value_error : AuthError
  type_error : AuthError
  integrity_error : AuthError

pub data Outcome (A : Type 0) : Type 0 where
  returned : A → Outcome A
  raised : AuthError → Outcome A

abbrev pub and_then : {A B : Type 0} → Outcome A → (A → Outcome B) → Outcome B
and_then (returned a) f = f a
and_then (raised e) f = raised e

-- `isinstance(v, str)`
abbrev pub as_str : Option Json → Option String
as_str (some (str s)) = some s
as_str (some null) = none
as_str (some (bool b)) = none
as_str (some (num n)) = none
as_str (some (arr xs)) = none
as_str (some (obj d)) = none
as_str none = none

-- A document that is an object.
abbrev pub dict_or : AuthError → Json → Outcome Fields
dict_or e (obj d) = returned d
dict_or e null = raised e
dict_or e (bool b) = raised e
dict_or e (num n) = raised e
dict_or e (str s) = raised e
dict_or e (arr xs) = raised e

abbrev pub parse_body : Option Json → Outcome Fields
parse_body none = raised (login_error not_json)
parse_body (some body) = dict_or (login_error unexpected_body) body

-- `_post_token` raises where the endpoint is unreachable, `_parse_token_response` below.
unfoldable pub parse_token_response : Response → Outcome Fields
parse_token_response unreachable = raised unreachable_keycloak
parse_token_response (response status body) =
    if status == 200 then parse_body body else raised (login_error (bad_status status))

abbrev pub with_next : Option String → Fields
with_next none = end
with_next (some next_path) = field "next" (str next_path) end

abbrev pub pkce_payload : String → String → Option String → Json
pkce_payload state verifier next_path =
    obj (field "state" (str state) (field "verifier" (str verifier) (with_next next_path)))

abbrev pub encode_pkce_cookie : Env → String → String → Option String → String
encode_pkce_cookie env state verifier next_path =
    env.encrypt (env.dumps (pkce_payload state verifier next_path))

abbrev pub loaded : Option Json → Outcome Fields
loaded none = raised value_error
loaded (some payload) = dict_or value_error payload

abbrev pub decrypted : Env → Option String → Outcome Fields
decrypted env none = raised value_error
decrypted env (some text) = loaded (env.loads text)

-- `_decode_pkce_payload`
abbrev pub decode_pkce_payload : Env → String → Outcome Fields
decode_pkce_payload env value = decrypted env (env.decrypt value)

abbrev pub state_and_verifier : Option String → Option String → Outcome (String × String)
state_and_verifier none verifier = raised value_error
state_and_verifier (some state) none = raised value_error
state_and_verifier (some state) (some verifier) = returned (state, verifier)

unfoldable pub decode_pkce_cookie : Env → String → Outcome (String × String)
unfolding get
decode_pkce_cookie env value =
    and_then (decode_pkce_payload env value)
      (λ d. state_and_verifier (as_str (get d "state")) (as_str (get d "verifier")))

unfoldable pub decode_pkce_next : Env → String → Outcome (Option String)
unfolding get
decode_pkce_next env value =
    and_then (decode_pkce_payload env value) (λ d. returned (as_str (get d "next")))

abbrev pub is_ascii : String → Bool
is_ascii [] = true
is_ascii (c ∷ s) = ltb (code c) 128 && is_ascii s
