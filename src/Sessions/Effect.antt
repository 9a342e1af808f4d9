-- ===== src/Sessions/Effect.antt =====
-- What an exchange of src/app/api/auth/v1/service.py leaves in the session table, for every answer.
use mathlib.Core.Path.{subst}
use work_behavior_analytics.Prelude.{
  ℕ, ◌-◌, ◌*◌, ◌≢◌, ap, ltb, leb, false, String, Option, none, some, List, ◌==◌, ℕ_key, Bool-cases,
  Option-cases, ◌≡◌, ◌∙◌, refl, inl, inr, arith,
}
use work_behavior_analytics.Prelude.Text.{is_empty}
use work_behavior_analytics.Prelude.Json.{Json, null, bool, num, str, arr, obj}
use work_behavior_analytics.Tokens.Service.{Response, unreachable, response}
use work_behavior_analytics.Sessions.Table.{
  AuthSession, SessionTable, get_active_session, revoke_session,
}
use work_behavior_analytics.Sessions.Keycloak.{
  Env, AuthError, too_old, too_idle, Outcome, returned, raised, parse_token_response,
}
use work_behavior_analytics.Sessions.Exchange.{
  TokenResponse, session_expired, begin_exchange, refresh_grant, Refreshed, rotated, served,
  store_refresh, finish_exchange, continue_exchange, for_row, with_token, unless_expired,
  exchange_token,
}
use work_behavior_analytics.Sessions.Verdict.{
  ends_session, IsLasting, IsRefused, Effect, refused, aged, unused, spared, renewed,
}

abbrev NoEnd : Outcome Refreshed → Type 0
NoEnd (raised e) = ends_session e ≡ false
NoEnd (returned r) = Unit

rotated-NoEnd :
    (env : Env) (access refresh : Option String) (n : ℕ) → NoEnd (rotated env access refresh n)
rotated-NoEnd env none refresh n = refl
rotated-NoEnd env (some access) none n = refl
rotated-NoEnd env (some access) (some refresh) n =
    elim (Option-cases (env.validate_bearer_token access)) [
      | inl e ↦ rw e refl
      | inr (p, e) ↦ rw e tt
    ]

body-NoEnd : (env : Env) (body : Option Json) → NoEnd (served env (response 200 body))
unfolding served parse_token_response
body-NoEnd env none = refl
body-NoEnd env (some (obj d)) = rotated-NoEnd env _ _ _
body-NoEnd env (some null) = refl
body-NoEnd env (some (bool b)) = refl
body-NoEnd env (some (num n)) = refl
body-NoEnd env (some (str s)) = refl
body-NoEnd env (some (arr xs)) = refl

served-NoEnd : (env : Env) (answer : Response) → NoEnd (served env answer)
unfolding served parse_token_response
served-NoEnd env unreachable = refl
served-NoEnd env (response status body) = elim (Bool-cases (status == 200)) [
  | inl e ↦ rw e (body-NoEnd env body)
  | inr e ↦ rw e refl
]

module _ (env : Env) (now : ℕ) (post : List (String × String) → Response) (t : SessionTable)
    (sid : String) where
  abbrev Shown : Outcome TokenResponse × SessionTable → Type 0
  Shown result = Effect env now post t sid result.0 result.1

  found_again :
      (row row' : AuthSession)
      → get_active_session t (env.hash_session_id sid) ≡ some row
      → IsRefused env now post t sid row'
      → row' ≡ row
  found_again row row' f r = cc (r.found, f)

  -- Another answer than status 400 to the grant of the session's token.
  not-IsRefused :
      (row : AuthSession) (token : String)
      → get_active_session t (env.hash_session_id sid) ≡ some row
      → env.decrypt row.refresh_token_encrypted ≡ some token
      → ((body : Option Json) → post (refresh_grant env token) ≢ response 400 body)
      → (row' : AuthSession) → ¬ IsRefused env now post t sid row'
  not-IsRefused row token f d n row' r = n r.body cc

  lasts :
      (row : AuthSession)
      → get_active_session t (env.hash_session_id sid) ≡ some row
      → session_expired env row now ≡ none
      → (row' : AuthSession) → is_empty sid ≡ false
      → get_active_session t (env.hash_session_id sid) ≡ some row'
      → IsLasting env row' now
  unfolding session_expired
  lasts row f x row' m f' =
      let same : row ≡ row' = cc (f, f') in
      subst (λ q. IsLasting env q now) same (ground (arith, x))

  served-Effect :
      (row : AuthSession) (token : String)
      → get_active_session t (env.hash_session_id sid) ≡ some row
      → session_expired env row now ≡ none
      → env.decrypt row.refresh_token_encrypted ≡ some token
      → ((body : Option Json) → post (refresh_grant env token) ≢ response 400 body)
      → (r : Outcome Refreshed) → served env (post (refresh_grant env token)) ≡ r
      → NoEnd r
      → Shown (store_refresh env t row now r)
  served-Effect row token f x d n (raised e) h k =
      spared e k (not-IsRefused row token f d n) (lasts row f x)
  served-Effect row token f x d n (returned r) h k = renewed row token r f x d h

  finished-Effect :
      (row : AuthSession) (token : String)
      → is_empty sid ≡ false
      → get_active_session t (env.hash_session_id sid) ≡ some row
      → session_expired env row now ≡ none
      → env.decrypt row.refresh_token_encrypted ≡ some token
      → (answer : Response) → post (refresh_grant env token) ≡ answer
      → Shown (finish_exchange env t row now answer)
  unfolding finish_exchange
  finished-Effect row token m f x d unreachable h =
      spared _ refl (not-IsRefused row token f d (λ body e. absurd cc)) (lasts row f x)
  finished-Effect row token m f x d (response status body) h = elim (Bool-cases (status == 400)) [
    | inl e ↦ rw e (
        refused row (record {
          known = m;
          found = f;
          valid = x;
          token = token;
          readable = d;
          body = body;
          answered = h ∙ ap (λ n. response n body) (ground (arith, e));
        }))
    | inr e ↦
        let other = not-IsRefused row token f d (other_status status body h e) in
        elim (Bool-cases (leb 500 status)) [
          | inl g ↦ rw (e, g) (spared _ refl other (lasts row f x))
          | inr g ↦
              rw (e, g)
                (served-Effect row token f x d (other_status status body h e) _ (rw h refl)
                  (served-NoEnd env (response status body)))
        ]
  ]
    where
      other_status :
          (status : ℕ) (body : Option Json)
          → post (refresh_grant env token) ≡ response status body
          → (status == 400) ≡ false
          → (body' : Option Json) → post (refresh_grant env token) ≢ response 400 body'
      other_status status body h e body' g =
          absurd (let same : status ≡ 400 = cc (h, g) in ground (arith, e, same))

  decrypted-Effect :
      (row : AuthSession)
      → is_empty sid ≡ false
      → get_active_session t (env.hash_session_id sid) ≡ some row
      → session_expired env row now ≡ none
      → (token : Option String) → env.decrypt row.refresh_token_encrypted ≡ token
      → Shown (continue_exchange env now post (with_token row token, t))
  unfolding finish_exchange
  decrypted-Effect row m f x none d =
      spared _ refl
        (λ row' r. absurd (
          let same = found_again row row' f r in
          let readable : env.decrypt row.refresh_token_encrypted ≡ some r.token =
            subst (λ q. env.decrypt q.refresh_token_encrypted ≡ some r.token) same r.readable in
          cc))
        (lasts row f x)
  decrypted-Effect row m f x (some token) d = finished-Effect row token m f x d _ refl

  over :
      (row : AuthSession) (e : AuthError)
      → get_active_session t (env.hash_session_id sid) ≡ some row
      → session_expired env row now ≡ some e
      → Shown (raised e, revoke_session t row now)
  unfolding session_expired
  over row e f x = elim (Bool-cases (ltb row.expires_at now)) [
    | inl h ↦
        let same : too_old ≡ e = ground (arith, x, h) in
        subst (λ e. Shown (raised e, revoke_session t row now)) same
          (aged row f (ground (arith, h)))
    | inr h ↦ elim (Bool-cases (ltb (env.idle_minutes * 60) (now - row.last_seen_at))) [
      | inl k ↦
          let same : too_idle ≡ e = ground (arith, x, h, k) in
          subst (λ e. Shown (raised e, revoke_session t row now)) same
            (unused row f (ground (arith, h)) (ground (arith, k)))
      | inr k ↦ absurd (ground (arith, x, h, k))
    ]
  ]

  row-Effect :
      (row : Option AuthSession)
      → is_empty sid ≡ false
      → get_active_session t (env.hash_session_id sid) ≡ row
      → Shown (continue_exchange env now post (for_row env t now row))
  row-Effect none m f =
      spared _ refl (λ row r. absurd (let found = r.found in cc)) (λ row m' f'. absurd cc)
  row-Effect (some row) m f = by_expiry (session_expired env row now) refl
    where
      by_expiry :
          (x : Option AuthError)
          → session_expired env row now ≡ x
          → Shown (continue_exchange env now post (unless_expired env t now row x))
      by_expiry none x = decrypted-Effect row m f x _ refl
      by_expiry (some e) x = over row e f x

-- An exchange revokes the row of its session exactly where its end is before now, or else its idle limit
-- has passed, or else Keycloak answers the grant of its refresh token with status 400, and raises which.
-- On any other error, an unreachable or failing Keycloak and an unreadable answer included, the table
-- is as before. Where it returns a token, the row takes the roles and the rotated refresh token of the
-- answer.
pub exchange_token-Effect :
    (env : Env) (now : ℕ) (post : List (String × String) → Response) (t : SessionTable)
    (sid : String)
    → Effect env now post t sid
        (exchange_token env now post t (some sid)).0
        (exchange_token env now post t (some sid)).1
unfolding exchange_token begin_exchange
exchange_token-Effect env now post t sid = elim (Bool-cases (is_empty sid)) [
  | inl e ↦
      rw e (spared _ refl (λ row r. absurd (let known = r.known in cc)) (λ row m f. absurd cc))
  | inr e ↦ rw e (row-Effect env now post t sid _ e refl)
]
