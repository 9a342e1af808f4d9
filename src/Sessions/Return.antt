-- ===== src/Sessions/Return.antt =====
-- A login of src/app/api/auth/v1/service.py from its start through the callback to the first exchange.
use work_behavior_analytics.Prelude.{
  true, false, String, Option, some, List, ◌==◌, ℕ_key, text_key, Bool-cases, same_refl, ◌≡◌, refl,
  inl, inr,
}
use work_behavior_analytics.Prelude.Text.{is_empty}
use work_behavior_analytics.Prelude.Json.{get}
use work_behavior_analytics.Tokens.Service.{Response}
use work_behavior_analytics.Sessions.Table.{SessionTable}
use work_behavior_analytics.Sessions.Paths.{sanitize_next_path}
use work_behavior_analytics.Sessions.Keycloak.{
  Env, login_error, state_mismatch, returned, raised, and_then, pkce_payload, decode_pkce_cookie,
  decode_pkce_next, is_ascii, parse_token_response,
}
use work_behavior_analytics.Sessions.Login.{
  start_login, Started, read_cookie, check_state, code_grant, read_grant, obtain_grant, Draw,
  open_session, complete_login,
}

-- What the callback reads of the cookie that a login's start wrote.
abbrev pub started : String → String → Option String → Started
started state verifier next_path = record {
  expected_state = state;
  verifier = verifier;
  requested_next = some (sanitize_next_path next_path);
}

cookie_round_trip :
    (env : Env) (state verifier : String) (next_path : Option String)
    → ((s : String) → env.decrypt (env.encrypt s) ≡ some s)
    → env.loads (env.dumps (pkce_payload state verifier (some (sanitize_next_path next_path))))
      ≡ some (pkce_payload state verifier (some (sanitize_next_path next_path)))
    → read_cookie env (start_login env state verifier next_path).pkce_cookie_value
      ≡ returned (started state verifier next_path)
unfolding start_login decode_pkce_cookie decode_pkce_next get
cookie_round_trip env state verifier next_path law j =
    rw (law (env.dumps (pkce_payload state verifier (some (sanitize_next_path next_path)))), j) refl

same_state :
    (state : String) (s : Started)
    → is_empty state ≡ false
    → is_ascii state ≡ true
    → s.expected_state ≡ state
    → check_state state s ≡ returned s
unfolding check_state
same_state state s m a e = rw (m, e, a, same_refl state) refl

-- The callback with the cookie and the state of its login's start asks Keycloak with the verifier that
-- the start drew, and carries on with the path that the start announced, where the encryption and the
-- JSON codec give back what they were given and the state is a text of ASCII that is not empty.
pub obtain_grant-start_login :
    (env : Env) (post : List (String × String) → Response) (code state verifier : String)
    (next_path : Option String)
    → ((s : String) → env.decrypt (env.encrypt s) ≡ some s)
    → env.loads (env.dumps (pkce_payload state verifier (some (sanitize_next_path next_path))))
      ≡ some (pkce_payload state verifier (some (sanitize_next_path next_path)))
    → is_empty state ≡ false
    → is_ascii state ≡ true
    → obtain_grant env post code state (start_login env state verifier next_path).pkce_cookie_value
      ≡ and_then
          (parse_token_response (post (code_grant env code verifier)))
          (read_grant env (some (start_login env state verifier next_path).next_path))
unfolding obtain_grant start_login
obtain_grant-start_login env post code state verifier next_path law j m a =
    rw
      (
        cookie_round_trip env state verifier next_path law j,
        same_state state (started state verifier next_path) m a refl,
      )
      refl

other_state :
    (state : String) (s : Started)
    → is_ascii state ≡ true
    → is_ascii s.expected_state ≡ true
    → (s.expected_state == state) ≡ false
    → check_state state s ≡ raised (login_error state_mismatch)
unfolding check_state
other_state state s a b n = elim (Bool-cases (is_empty state)) [
  | inl m ↦ rw m refl
  | inr m ↦ rw (m, b, a, n) refl
]

-- A callback with a state of ASCII other than the state of ASCII that its cookie was made with, where
-- the JSON codec and the encryption give back what they were given, raises LoginError, without a request to
-- Keycloak and without a change of the session table.
pub complete_login-forged :
    (env : Env) (draw : Draw) (post : List (String × String) → Response) (t : SessionTable)
    (code state forged verifier : String) (next_path : Option String)
    → ((s : String) → env.decrypt (env.encrypt s) ≡ some s)
    → env.loads (env.dumps (pkce_payload state verifier (some (sanitize_next_path next_path))))
      ≡ some (pkce_payload state verifier (some (sanitize_next_path next_path)))
    → is_ascii state ≡ true
    → is_ascii forged ≡ true
    → (state == forged) ≡ false
    → complete_login env draw post t code forged
        (start_login env state verifier next_path).pkce_cookie_value
      ≡ (raised (login_error state_mismatch), t)
unfolding obtain_grant open_session
complete_login-forged env draw post t code state forged verifier next_path law j a b n =
    rw
      (
        cookie_round_trip env state verifier next_path law j,
        other_state forged (started state verifier next_path) b a n,
      )
      refl
