-- ===== src/Sessions/Rotation.antt =====
-- Two exchanges of one session of src/app/api/auth/v1/service.py in a row, and what an exchange leaves
-- of the other sessions.
use work_behavior_analytics.Prelude.{
  ℕ, false, String, some, List, ◌==◌, ℕ_key, text_key, ◌≡◌, refl, ◌∙◌, arith,
}
use work_behavior_analytics.Tokens.Service.{Response}
use work_behavior_analytics.Sessions.Table.{
  AuthSession, SessionTable, is_active, find_active, get_active_session, revoke_session,
  update_where, touched,
}
use work_behavior_analytics.Sessions.Keycloak.{Env, Outcome, returned}
use work_behavior_analytics.Sessions.Exchange.{
  TokenResponse, refresh_grant, Refreshed, served, set_roles, finish_exchange, exchange_token,
}
use work_behavior_analytics.Sessions.Unique.{IsSound, update-IsSound}
use work_behavior_analytics.Sessions.Rows.{KeepsKeys}
use work_behavior_analytics.Sessions.Effect.{exchange_token-Effect}
use work_behavior_analytics.Sessions.Verdict.{Effect, refused, aged, unused, spared, renewed}
use work_behavior_analytics.Sessions.Found.{find_active-update, rows-IsOther, find_active-other}

-- The row that a refresh leaves.
abbrev pub renewed_row : Env → ℕ → Refreshed → AuthSession → AuthSession
renewed_row env now r row = record row {
  roles = r.principal.roles;
  last_seen_at = now;
  refresh_token_encrypted = env.encrypt r.refresh_token;
}

module _ (env : Env) (now later : ℕ) (post again : List (String × String) → Response) (sid : String)
    (t : SessionTable) (row : AuthSession) where
  -- The first exchange asked Keycloak with the row's token; the second asks with the one it got.
  pub data Rotated (t' : SessionTable) : Type 0 where
    rotates :
        (token : String) (r : Refreshed)
        → env.decrypt row.refresh_token_encrypted ≡ some token
        → served env (post (refresh_grant env token)) ≡ returned r
        → exchange_token env later again t' (some sid)
          ≡ finish_exchange env t'
              (renewed_row env now r row)
              later
              (again (refresh_grant env r.refresh_token))
        → Rotated t'

update-other :
    (other hash : String) (row : AuthSession) (f : AuthSession → AuthSession) (t : SessionTable)
    → (other == hash) ≡ false
    → IsSound t
    → get_active_session t hash ≡ some row
    → KeepsKeys f
    → ((r : AuthSession) → is_active other r ≡ false → is_active other (f r) ≡ false)
    → find_active other (update_where row.id f t.rows) ≡ find_active other t.rows
update-other other hash row f t n s e k m =
    find_active-other other row f t.rows k m (rows-IsOther hash other row t.rows n s.distinct e)

revoke-other :
    (env : Env) (now : ℕ) (t : SessionTable) (sid other : String) (row : AuthSession)
    → IsSound t
    → (other == env.hash_session_id sid) ≡ false
    → get_active_session t (env.hash_session_id sid) ≡ some row
    → get_active_session (revoke_session t row now) other ≡ get_active_session t other
revoke-other env now t sid other row s n f =
    update-other other (env.hash_session_id sid) row (λ r. record r { revoked_at = some now }) t n s
      f (λ r. (refl, refl)) (λ r h. ground arith)

Effect-other :
    (env : Env) (now : ℕ) (post : List (String × String) → Response) (t : SessionTable)
    (sid other : String) (o : Outcome TokenResponse) (t' : SessionTable)
    → IsSound t
    → (other == env.hash_session_id sid) ≡ false
    → Effect env now post t sid o t'
    → get_active_session t' other ≡ get_active_session t other
Effect-other env now post t sid other _ _ s n (refused row r) =
    revoke-other env now t sid other row s n r.found
Effect-other env now post t sid other _ _ s n (aged row f o) =
    revoke-other env now t sid other row s n f
Effect-other env now post t sid other _ _ s n (unused row f o k) =
    revoke-other env now t sid other row s n f
Effect-other env now post t sid other _ _ s n (spared e k r l) = refl
Effect-other env now post t sid other _ _ s n (renewed row token r f k d g) =
    let hash = env.hash_session_id sid in
    let roles : AuthSession → AuthSession = λ q. record q { roles = r.principal.roles } in
    update-other other hash (roles row) (touched now (some (env.encrypt r.refresh_token)))
      (set_roles t row r.principal.roles) n (update-IsSound t row.id roles (λ q. (refl, refl)) s)
      (find_active-update hash row roles t.rows
        (record { keeps = λ q. (refl, refl); same = λ q. refl }) f)
      (λ q. (refl, refl)) (λ q h. h)
    ∙ update-other other hash row roles t n s f (λ q. (refl, refl)) (λ q h. h)

-- An exchange, whatever its outcome, leaves the active row of every other cookie as it was.
pub exchange_token-other :
    (env : Env) (now : ℕ) (post : List (String × String) → Response) (t : SessionTable)
    (sid other : String)
    → IsSound t
    → (other == env.hash_session_id sid) ≡ false
    → get_active_session (exchange_token env now post t (some sid)).1 other
      ≡ get_active_session t other
exchange_token-other env now post t sid other s n =
    Effect-other env now post t sid other _ _ s n (exchange_token-Effect env now post t sid)
