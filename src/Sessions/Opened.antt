-- ===== src/Sessions/Opened.antt =====
-- The first exchange after a login of src/app/api/auth/v1/service.py.
use mathlib.Core.Path.{subst}
use work_behavior_analytics.Prelude.{
  ℕ, ◌+◌, ◌-◌, ◌*◌, ◌≤◌, Bool, true, false, not, String, none, some, List, [], filter, ◌∷◌, ◌++◌,
  any, ◌==◌, ℕ_key, text_key, Bool-cases, same_refl, ◌≡◌, refl, sym, ap, inl, inr, arith,
}
use work_behavior_analytics.Prelude.Text.{is_empty}
use work_behavior_analytics.Tokens.Service.{Response}
use work_behavior_analytics.Sessions.Table.{
  AuthSession, SessionTable, get_active_session, find_active, create_session, is_taken, session_row,
  is_active, purge_expired, is_purgeable,
}
use work_behavior_analytics.Sessions.Keycloak.{Env, returned}
use work_behavior_analytics.Sessions.Login.{Grant, Draw, purge_opportunistically, open_session}
use work_behavior_analytics.Sessions.Exchange.{
  session_expired, begin_exchange, exchange_token, finish_exchange, refresh_grant,
}
use work_behavior_analytics.Sessions.Rows.{first_active}

find_active-snoc :
    (hash : String) (rows : List AuthSession) (row : AuthSession)
    → any (λ r. r.session_id_hash == hash) rows ≡ false
    → is_active hash row ≡ true
    → find_active hash (rows ++ row ∷ []) ≡ some row
unfolding find_active
find_active-snoc hash [] row n a = rw a refl
find_active-snoc hash (r ∷ rows) row n a = ground (arith, find_active-snoc hash rows row, a)

find_active-filter :
    (hash : String) (rows : List AuthSession) (row : AuthSession) (p : AuthSession → Bool)
    → find_active hash rows ≡ some row
    → p row ≡ true
    → find_active hash (filter p rows) ≡ some row
unfolding find_active
find_active-filter hash [] row p e k = cc
find_active-filter hash (r ∷ rows) row p e k = elim (Bool-cases (is_active hash r)) [
  | inl a ↦
      let same = first_active hash r row rows a e in
      rw (subst (λ q. p q ≡ true) (sym same) k, a) (ap (λ q. some q) same)
  | inr a ↦ elim (Bool-cases (p r)) [
    | inl b ↦ rw (b, a) (find_active-filter hash rows row p (ground arith) k)
    | inr b ↦ rw b (find_active-filter hash rows row p (ground arith) k)
  ]
]

-- The row of a login.
abbrev pub login_row : Env → Draw → SessionTable → Grant → AuthSession
login_row env draw t grant =
    session_row t (env.hash_session_id draw.session_id) grant.principal.subject
      grant.principal.username grant.principal.roles (env.encrypt grant.refresh_token)
      (draw.login_now + env.max_hours * 3600) draw.row_now

login_row-kept :
    (env : Env) (draw : Draw) (t : SessionTable) (grant : Grant)
    → draw.purge_now ≤ draw.login_now + 24 * 3600
    → not (is_purgeable draw.purge_now (login_row env draw t grant)) ≡ true
login_row-kept env draw t grant h = ground arith

purged-found :
    (draw : Draw) (t : SessionTable) (hash : String) (row : AuthSession)
    → get_active_session t hash ≡ some row
    → not (is_purgeable draw.purge_now row) ≡ true
    → get_active_session (purge_opportunistically draw t) hash ≡ some row
unfolding purge_expired
purged-found draw t hash row f k = elim (Bool-cases draw.purge_works) [
  | inl e ↦ rw e (find_active-filter hash t.rows row (λ r. not (is_purgeable draw.purge_now r)) f k)
  | inr e ↦ rw e f
]

open_session-found :
    (env : Env) (draw : Draw) (t : SessionTable) (grant : Grant)
    → is_taken (env.hash_session_id draw.session_id) t ≡ false
    → draw.purge_now ≤ draw.login_now + 24 * 3600
    → get_active_session
        (open_session env draw t (returned grant)).1
        (env.hash_session_id draw.session_id)
      ≡ some (login_row env draw t grant)
unfolding open_session create_session
open_session-found env draw t grant n h = rw n (
    purged-found draw _ (env.hash_session_id draw.session_id) (login_row env draw t grant)
      (find_active-snoc (env.hash_session_id draw.session_id) t.rows (login_row env draw t grant) n
        (rw (same_refl (env.hash_session_id draw.session_id)) refl))
      (login_row-kept env draw t grant h))

login_row-lives :
    (env : Env) (draw : Draw) (t : SessionTable) (grant : Grant) (now : ℕ)
    → now ≤ draw.login_now + env.max_hours * 3600
    → now - draw.row_now ≤ env.idle_minutes * 60
    → session_expired env (login_row env draw t grant) now ≡ none
unfolding session_expired
login_row-lives env draw t grant now x i = ground arith

-- After a login whose session id no row has, and whose purge runs within a day, the first exchange of
-- its cookie within the idle limit and the session's length asks Keycloak with the refresh token of
-- the login's grant, for a row that has the grant's subject, name and roles.
pub open_session-exchange_token :
    (env : Env) (draw : Draw) (t : SessionTable) (grant : Grant) (now : ℕ)
    (post : List (String × String) → Response)
    → ((s : String) → env.decrypt (env.encrypt s) ≡ some s)
    → is_empty draw.session_id ≡ false
    → is_taken (env.hash_session_id draw.session_id) t ≡ false
    → draw.purge_now ≤ draw.login_now + 24 * 3600
    → now ≤ draw.login_now + env.max_hours * 3600
    → now - draw.row_now ≤ env.idle_minutes * 60
    → exchange_token env now post
        (open_session env draw t (returned grant)).1
        (some draw.session_id)
      ≡ finish_exchange env
          (open_session env draw t (returned grant)).1
          (login_row env draw t grant)
          now
          (post (refresh_grant env grant.refresh_token))
unfolding exchange_token begin_exchange
open_session-exchange_token env draw t grant now post law m n h x i =
    rw
      (
        m,
        open_session-found env draw t grant n h,
        login_row-lives env draw t grant now x i,
        law grant.refresh_token,
      )
      refl
