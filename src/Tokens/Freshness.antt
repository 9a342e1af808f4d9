-- ===== src/Tokens/Freshness.antt =====
-- What `get_service_token` (src/common/auth/service_token.py) does on each branch.
use mathlib.Core.Path.{subst}
use work_behavior_analytics.Prelude.Json.{
  Json, null, bool, num, str, arr, obj, Fields, get, is_falsy,
}
use work_behavior_analytics.Prelude.{
  ◌-◌, ◌==◌, ℕ_key, sym, ℕ, ◌+◌, ◌<◌, ◌≤◌, ◌≢◌, ap, Option-cases, Bool, true, false, String, ◌≡◌,
  ◌⊎◌, inl, inr, refl, Option, none, some, arith, Bool-cases,
}
use work_behavior_analytics.Prelude.Text.{is_empty, is_empty-eq}
use work_behavior_analytics.Tokens.Service.{
  TokenState, Response, unreachable, response, numeric, token_of, parse_payload, TokenError,
  backing_off, no_secret, Outcome, returned, raised, request_token, cached_token,
  in_failure_backoff, Endpoint, World, Clock, after_request, fetch, or_fetch, locked_section,
  or_lock, get_service_token,
}

-- A state whose token may be used, and one that a failure closed.
abbrev pub IsCached : TokenState → ℕ → String → Type 0
IsCached state now token = (state.access_token ≡ some token) × (now < state.expires_at)

abbrev pub IsBackingOff : TokenState → ℕ → Type 0
IsBackingOff state now = (state.access_token ≡ none) × (now < state.expires_at)

-- Neither: what was learned last has run out.
abbrev pub IsStale : TokenState → ℕ → Type 0
IsStale state now = state.expires_at ≤ now

abbrev pub requested : Endpoint → Clock → World → Outcome (String × ℕ)
requested endpoint clock w =
    request_token endpoint.show_json clock.answered (endpoint.answer w.requests)

-- An answer with a token that is not falsy and a number of seconds: the token may be used up to 60
-- seconds before they are over.
pub record IsGrant (show_json : Json → String) (now : ℕ) (answer : Response) (token : String)
    (expires_at : ℕ) : Type 0 where
  pub payload : Fields
  pub answered : answer ≡ response 200 (some (obj payload))
  pub value : Json
  pub present : get payload "access_token" ≡ some value
  pub usable : is_falsy value ≡ false
  pub shown : token ≡ show_json value
  pub seconds : ℕ
  pub numbered : numeric (get payload "expires_in") ≡ some seconds
  pub early : expires_at ≡ now + seconds - 60

token_of-IsGrant :
    (show_json : Json → String) (now : ℕ) (payload : Fields) (token : String) (expires_at : ℕ)
    (found : Option Json) (expiry : Option ℕ)
    → get payload "access_token" ≡ found
    → numeric (get payload "expires_in") ≡ expiry
    → token_of show_json now found (get payload "expires_in") ≡ returned (token, expires_at)
    → IsGrant show_json now (response 200 (some (obj payload))) token expires_at
token_of-IsGrant show_json now payload token expires_at none expiry f x h = absurd cc
token_of-IsGrant show_json now payload token expires_at (some v) none f x h =
    elim (Bool-cases (is_falsy v)) [
      | inl e ↦ absurd (cc (rw e at h))
      | inr e ↦ absurd (cc (rw (e, x) at h))
    ]
token_of-IsGrant show_json now payload token expires_at (some v) (some n) f x h =
    elim (Bool-cases (is_falsy v)) [
      | inl e ↦ absurd (cc (rw e at h))
      | inr e ↦
          let same = same_grant (show_json v) token (now + n - 60) expires_at (rw (e, x) at h) in
          record {
            payload = payload;
            answered = refl;
            value = v;
            present = f;
            usable = e;
            shown = sym same.0;
            seconds = n;
            numbered = x;
            early = sym same.1;
          }
    ]
  where
    same_grant :
        (t t' : String) (n n' : ℕ)
        → (let a : Outcome (String × ℕ) = returned (t, n) in
            let b : Outcome (String × ℕ) = returned (t', n') in a ≡ b)
        → (t ≡ t') × (n ≡ n')
    same_grant t t' n n' h = (cc, cc)

request_token-IsGrant :
    (show_json : Json → String) (now : ℕ) (answer : Response) (token : String) (expires_at : ℕ)
    → request_token show_json now answer ≡ returned (token, expires_at)
    → IsGrant show_json now answer token expires_at
unfolding request_token
request_token-IsGrant show_json now unreachable token expires_at h = absurd cc
request_token-IsGrant show_json now (response status body) token expires_at h =
    elim (Bool-cases (status == 200)) [
      | inr e ↦ absurd (cc (rw e at h))
      | inl e ↦
          let same : 200 ≡ status = ground (arith, e) in
          subst (λ n. IsGrant show_json now (response n body) token expires_at) same
            (of_body body (rw e at h))
    ]
  where
    of_body :
        (body : Option Json)
        → parse_payload show_json now body ≡ returned (token, expires_at)
        → IsGrant show_json now (response 200 body) token expires_at
    of_body none h = absurd cc
    of_body (some (obj payload)) h =
        token_of-IsGrant show_json now payload token expires_at (get payload "access_token")
          (numeric (get payload "expires_in")) refl refl h
    of_body (some null) h = absurd cc
    of_body (some (bool b)) h = absurd cc
    of_body (some (num n)) h = absurd cc
    of_body (some (str s)) h = absurd cc
    of_body (some (arr xs)) h = absurd cc

-- What a call does: `seen` is the state before the lock.
pub data CallOutcome (endpoint : Endpoint) (clock : Clock) (seen : TokenState) (w : World)
    (r : Outcome String × World) : Type 0 where
  cached :
      (token : String)
      → IsCached seen clock.peeked token ⊎ IsCached w.state clock.locked token
      → r ≡ (returned token, w)
      → CallOutcome endpoint clock seen w r
  closed :
      IsBackingOff seen clock.peeked ⊎ IsBackingOff w.state clock.locked
      → r ≡ (raised backing_off, w)
      → CallOutcome endpoint clock seen w r
  without_secret :
      IsStale seen clock.peeked
      → IsStale w.state clock.locked
      → endpoint.client_secret ≡ ""
      → r ≡ (raised no_secret, w)
      → CallOutcome endpoint clock seen w r
  fetched :
      (token : String) (expires_at : ℕ)
      → IsStale seen clock.peeked
      → IsStale w.state clock.locked
      → endpoint.client_secret ≢ ""
      → IsGrant endpoint.show_json clock.answered (endpoint.answer w.requests) token expires_at
      → r ≡ (
        returned token,
        record {
          state = record { access_token = some token; expires_at = expires_at };
          requests = w.requests + 1;
        },
      )
      → CallOutcome endpoint clock seen w r
  failed :
      (e : TokenError)
      → IsStale seen clock.peeked
      → IsStale w.state clock.locked
      → endpoint.client_secret ≢ ""
      → requested endpoint clock w ≡ raised e
      → r ≡ (
        raised e,
        record {
          state = record { access_token = none; expires_at = clock.failed + 30 };
          requests = w.requests + 1;
        },
      )
      → CallOutcome endpoint clock seen w r

cached_token-IsCached :
    (state : TokenState) (now : ℕ) (token : String)
    → cached_token state now ≡ some token
    → IsCached state now token
unfolding cached_token
cached_token-IsCached state now token h = ground arith

in_failure_backoff-IsBackingOff :
    (state : TokenState) (now : ℕ) → in_failure_backoff state now ≡ true → IsBackingOff state now
unfolding in_failure_backoff
in_failure_backoff-IsBackingOff state now h = ground arith

none-IsStale :
    (state : TokenState) (now : ℕ)
    → cached_token state now ≡ none
    → in_failure_backoff state now ≡ false
    → IsStale state now
unfolding cached_token in_failure_backoff
none-IsStale state now h k = elim (Option-cases state.access_token) [
  | inl e ↦ ground (arith, e)
  | inr (token, e) ↦ ground (arith, e)
]

not_empty : (s : String) → is_empty s ≡ false → s ≢ ""
not_empty s h e = absurd (cc (ap is_empty e))

module _ (endpoint : Endpoint) (clock : Clock) (seen : TokenState) (w : World) where
  abbrev Does : Outcome String × World → Type 0
  Does = CallOutcome endpoint clock seen w

  after_request-Does :
      (o : Outcome (String × ℕ))
      → IsStale seen clock.peeked
      → IsStale w.state clock.locked
      → endpoint.client_secret ≢ ""
      → requested endpoint clock w ≡ o
      → Does (after_request clock (record w { requests = w.requests + 1 }) o)
  after_request-Does (returned (token, expires_at)) a b c e =
      fetched token expires_at a b c
        (request_token-IsGrant endpoint.show_json clock.answered (endpoint.answer w.requests) token
          expires_at e)
        refl
  after_request-Does (raised err) a b c e = failed err a b c e refl

  fetch-Does :
      IsStale seen clock.peeked → IsStale w.state clock.locked → Does (fetch endpoint clock w)
  unfolding fetch
  fetch-Does a b = elim (Bool-cases (is_empty endpoint.client_secret)) [
    | inl missing ↦
        without_secret a b (is_empty-eq endpoint.client_secret missing) (rw missing refl)
    | inr given ↦ rw given (
        after_request-Does (requested endpoint clock w) a b (not_empty endpoint.client_secret given)
          refl)
  ]

  or_fetch-Does :
      (o : Option String) (b : Bool)
      → IsStale seen clock.peeked
      → cached_token w.state clock.locked ≡ o
      → in_failure_backoff w.state clock.locked ≡ b
      → Does (or_fetch endpoint clock w o b)
  or_fetch-Does (some token) b a e f =
      cached token (inr (cached_token-IsCached w.state clock.locked token e)) refl
  or_fetch-Does none true a e f =
      closed (inr (in_failure_backoff-IsBackingOff w.state clock.locked f)) refl
  or_fetch-Does none false a e f = fetch-Does a (none-IsStale w.state clock.locked e f)

  locked_section-Does : IsStale seen clock.peeked → Does (locked_section endpoint clock w)
  unfolding locked_section
  locked_section-Does a = or_fetch-Does _ _ a refl refl

  or_lock-Does :
      (o : Option String) (b : Bool)
      → cached_token seen clock.peeked ≡ o
      → in_failure_backoff seen clock.peeked ≡ b
      → Does (or_lock endpoint clock w o b)
  or_lock-Does (some token) b e f =
      cached token (inl (cached_token-IsCached seen clock.peeked token e)) refl
  or_lock-Does none true e f =
      closed (inl (in_failure_backoff-IsBackingOff seen clock.peeked f)) refl
  or_lock-Does none false e f = locked_section-Does (none-IsStale seen clock.peeked e f)

  -- A call returns a token that one of the two checks found before its expiry, and changes nothing; or
  -- raises, within a failure's backoff or without a secret, and changes nothing; or asks the endpoint
  -- once, and then caches the token of an answer with status 200, up to 60 seconds before it expires, or
  -- starts a backoff of 30 seconds; this only where there is a
  -- secret and both checks found a state whose expiry, of a token or of a backoff, has passed.
  pub get_service_token-CallOutcome :
      CallOutcome endpoint clock seen w (get_service_token endpoint clock seen w)
  unfolding get_service_token
  get_service_token-CallOutcome = or_lock-Does _ _ refl refl
