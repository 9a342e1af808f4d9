-- ===== src/Tokens/Backoff.antt =====
-- How few requests the calls of `get_service_token` (src/common/auth/service_token.py) send.
use work_behavior_analytics.Prelude.{
  ◌+◌, ◌<◌, String, ◌≡◌, ◌≢◌, inl, inr, refl, none, some, List, [], ◌∷◌, arith, All,
}
use work_behavior_analytics.Tokens.Service.{
  TokenError, backing_off, no_secret, Outcome, returned, raised, cached_token, in_failure_backoff,
  Endpoint, World, Clock, get_service_token, failure_backoff_seconds,
}
use work_behavior_analytics.Tokens.Freshness.{
  IsCached, IsBackingOff, CallOutcome, cached, closed, without_secret, fetched, failed,
  get_service_token-CallOutcome,
}

-- The results of calls one after the other, with no other thread, and the world in the end.
unfoldable pub calls : Endpoint → World → List Clock → List (Outcome String) × World
calls endpoint w [] = ([], w)
calls endpoint w (clock ∷ rest) =
    let (result, w') = get_service_token endpoint clock w.state w in
    let (results, end) = calls endpoint w' rest in (result ∷ results, end)

call_cached :
    (endpoint : Endpoint) (clock : Clock) (w : World) (token : String)
    → IsCached w.state clock.peeked token
    → get_service_token endpoint clock w.state w ≡ (returned token, w)
unfolding get_service_token cached_token
call_cached endpoint clock w token h = ground arith

call_closed :
    (endpoint : Endpoint) (clock : Clock) (w : World)
    → IsBackingOff w.state clock.peeked
    → get_service_token endpoint clock w.state w ≡ (raised backing_off, w)
unfolding get_service_token cached_token in_failure_backoff
call_closed endpoint clock w h = ground arith

-- Every result is `result`, and the world stays.
abbrev pub AllGive : Outcome String → World → List (Outcome String) × World → Type 0
AllGive result w r = All (λ o. o ≡ result) r.0 × (r.1 ≡ w)

calls_cached :
    (endpoint : Endpoint) (w : World) (token : String) (clocks : List Clock)
    → w.state.access_token ≡ some token
    → All (λ (c : Clock). c.peeked < w.state.expires_at) clocks
    → AllGive (returned token) w (calls endpoint w clocks)
unfolding calls
calls_cached endpoint w token [] has soon = (tt, refl)
calls_cached endpoint w token (c ∷ rest) has soon =
    rw (call_cached endpoint c w token (has, soon.0))
      (let after = calls_cached endpoint w token rest has soon.1 in ((refl, after.0), after.1))

calls_closed :
    (endpoint : Endpoint) (w : World) (clocks : List Clock)
    → w.state.access_token ≡ none
    → All (λ (c : Clock). c.peeked < w.state.expires_at) clocks
    → AllGive (raised backing_off) w (calls endpoint w clocks)
unfolding calls
calls_closed endpoint w [] has soon = (tt, refl)
calls_closed endpoint w (c ∷ rest) has soon =
    rw (call_closed endpoint c w (has, soon.0))
      (let after = calls_closed endpoint w rest has soon.1 in ((refl, after.0), after.1))

module _ (endpoint : Endpoint) (clock : Clock) (w : World) where
  IsCached-token :
      (r : Outcome String × World) (token : String)
      → CallOutcome endpoint clock w.state w r
      → r.0 ≡ returned token
      → r.1.state.access_token ≡ some token
  IsCached-token r token (cached t (inl h) e) is = rw e (cc (h.0, e, is))
  IsCached-token r token (cached t (inr h) e) is = rw e (cc (h.0, e, is))
  IsCached-token r token (closed h e) is = cc
  IsCached-token r token (without_secret a b' h e) is = cc
  IsCached-token r token (fetched t expires_at a b' c h e) is = rw e (cc (e, is))
  IsCached-token r token (failed err a b' c h e) is = cc

  -- The state after a failed request.
  abbrev IsClosed : World → Type 0
  IsClosed w' =
      (w'.state.access_token ≡ none)
      × (w'.state.expires_at ≡ clock.failed + failure_backoff_seconds)

  IsClosed-after :
      (r : Outcome String × World) (err : TokenError)
      → CallOutcome endpoint clock w.state w r
      → r.0 ≡ raised err
      → err ≢ no_secret
      → err ≢ backing_off
      → IsClosed r.1
  IsClosed-after r err (cached t h e) is n b = cc
  IsClosed-after r err (closed h e) is n b = absurd (b (cc (e, is)))
  IsClosed-after r err (without_secret a b' h e) is n b = absurd (n (cc (e, is)))
  IsClosed-after r err (fetched t expires_at a b' c h e) is n b = cc
  IsClosed-after r err (failed err' a b' c h e) is n b = rw e (refl, refl)

-- Once a call has returned a token, and with no other thread, the calls before the expiry in the cache
-- return the same token and send no request.
pub calls_share_token :
    (endpoint : Endpoint) (clock : Clock) (w : World) (token : String) (clocks : List Clock)
    → (get_service_token endpoint clock w.state w).0 ≡ returned token
    → All
        (λ (c : Clock). c.peeked < (get_service_token endpoint clock w.state w).1.state.expires_at)
        clocks
    → AllGive
        (returned token)
        (get_service_token endpoint clock w.state w).1
        (calls endpoint (get_service_token endpoint clock w.state w).1 clocks)
calls_share_token endpoint clock w token clocks is soon =
    calls_cached endpoint (get_service_token endpoint clock w.state w).1 token clocks
      (IsCached-token endpoint clock w (get_service_token endpoint clock w.state w) token
        (get_service_token-CallOutcome endpoint clock w.state w) is)
      soon

-- Once a request has failed, and with no other thread, the calls of the next 30 seconds raise at once and
-- send no request.
pub calls_back_off :
    (endpoint : Endpoint) (clock : Clock) (w : World) (err : TokenError) (clocks : List Clock)
    → (get_service_token endpoint clock w.state w).0 ≡ raised err
    → err ≢ no_secret
    → err ≢ backing_off
    → All (λ (c : Clock). c.peeked < clock.failed + failure_backoff_seconds) clocks
    → AllGive
        (raised backing_off)
        (get_service_token endpoint clock w.state w).1
        (calls endpoint (get_service_token endpoint clock w.state w).1 clocks)
calls_back_off endpoint clock w err clocks is n b soon =
    let after =
      IsClosed-after endpoint clock w (get_service_token endpoint clock w.state w) err
        (get_service_token-CallOutcome endpoint clock w.state w) is n b in
    calls_closed endpoint (get_service_token endpoint clock w.state w).1 clocks after.0
      (rw after.1 soon)
