-- ===== src/Sessions/Steps.antt =====
-- What every request keeps of the session table: a predicate that the edits of rows, the purge and
-- the new rows of src/app/api/auth/v1/query.py keep.
use work_behavior_analytics.Prelude.{
  ℕ, true, String, Option, none, some, ◌==◌, ℕ_key, Bool-cases, Option-cases, leb, is_some, ◌≡◌,
  refl, inl, inr,
}
use work_behavior_analytics.Prelude.Text.{is_empty}
use work_behavior_analytics.Tokens.Service.{Response, unreachable, response}
use work_behavior_analytics.Sessions.Table.{
  AuthSession, SessionTable, update_where, purge_expired, revoke_session,
}
use work_behavior_analytics.Sessions.Rows.{KeepsKeys}
use work_behavior_analytics.Sessions.Keycloak.{Env, Outcome, returned, raised}
use work_behavior_analytics.Sessions.Login.{open_session}
use work_behavior_analytics.Sessions.Exchange.{
  session_expired, for_row, begin_exchange, Refreshed, store_refresh, finish_exchange, revoke_found,
  logout,
}
use work_behavior_analytics.Sessions.History.{
  Event, signs_in, begins, finishes, signs_out, purges, step,
}

-- A change of a row that leaves its keys alone and does not take a revocation back.
pub record IsEdit (f : AuthSession → AuthSession) : Type 0 where
  pub keeps : KeepsKeys f
  pub stays : (r : AuthSession) → is_some r.revoked_at ≡ true → is_some (f r).revoked_at ≡ true

module _ (P : SessionTable → Type 0)
    (edit : (t : SessionTable) (id : ℕ) (f : AuthSession → AuthSession)
      → IsEdit f
      → P t
      → P (record t { rows = update_where id f t.rows }))
    (purge : (t : SessionTable) (now : ℕ) → P t → P (purge_expired t now).0) where
  revoke_session-closed :
      (t : SessionTable) (row : AuthSession) (now : ℕ) → P t → P (revoke_session t row now)
  revoke_session-closed t row now =
      edit t row.id _ (record { keeps = λ r. (refl, refl); stays = λ r h. refl })

  for_row-closed :
      (env : Env) (t : SessionTable) (now : ℕ) (row : Option AuthSession)
      → P t
      → P (for_row env t now row).1
  for_row-closed env t now none s = s
  for_row-closed env t now (some row) s = elim (Option-cases (session_expired env row now)) [
    | inl e ↦ rw e s
    | inr (x, e) ↦ rw e (revoke_session-closed t row now s)
  ]

  begin_exchange-closed :
      (env : Env) (t : SessionTable) (now : ℕ) (sid : Option String)
      → P t
      → P (begin_exchange env t now sid).1
  unfolding begin_exchange
  begin_exchange-closed env t now none s = s
  begin_exchange-closed env t now (some sid) s = elim (Bool-cases (is_empty sid)) [
    | inl e ↦ rw e s
    | inr e ↦ rw e (for_row-closed env t now _ s)
  ]

  store_refresh-closed :
      (env : Env) (t : SessionTable) (row : AuthSession) (now : ℕ) (r : Outcome Refreshed)
      → P t
      → P (store_refresh env t row now r).1
  store_refresh-closed env t row now (raised e) s = s
  store_refresh-closed env t row now (returned r) s =
      edit _ row.id _ (record { keeps = λ q. (refl, refl); stays = λ q h. h })
        (edit t row.id _ (record { keeps = λ q. (refl, refl); stays = λ q h. h }) s)

  finish_exchange-closed :
      (env : Env) (t : SessionTable) (row : AuthSession) (now : ℕ) (answer : Response)
      → P t
      → P (finish_exchange env t row now answer).1
  unfolding finish_exchange
  finish_exchange-closed env t row now unreachable s = s
  finish_exchange-closed env t row now (response status body) s =
      elim (Bool-cases (status == 400)) [
        | inl e ↦ rw e (revoke_session-closed t row now s)
        | inr e ↦ elim (Bool-cases (leb 500 status)) [
          | inl f ↦ rw (e, f) s
          | inr f ↦ rw (e, f) (store_refresh-closed env t row now _ s)
        ]
      ]

  revoke_found-closed :
      (t : SessionTable) (now : ℕ) (row : Option AuthSession) → P t → P (revoke_found t now row)
  revoke_found-closed t now none s = s
  revoke_found-closed t now (some row) s = revoke_session-closed t row now s

  logout-closed :
      (env : Env) (now : ℕ) (endpoint : Option String) (t : SessionTable) (sid : Option String)
      → P t
      → P (logout env now endpoint t sid).1
  unfolding logout
  logout-closed env now endpoint t none s = s
  logout-closed env now endpoint t (some sid) s = elim (Bool-cases (is_empty sid)) [
    | inl e ↦ rw e s
    | inr e ↦ rw e (revoke_found-closed t now _ s)
  ]

  -- What is left to show of a login.
  abbrev pub CreateKeeps : Env → SessionTable → Event → Type 0
  CreateKeeps env t (signs_in draw grant) = P (open_session env draw t grant).1
  CreateKeeps env t (begins now sid) = Unit
  CreateKeeps env t (finishes row now answer) = Unit
  CreateKeeps env t (signs_out now sid) = Unit
  CreateKeeps env t (purges now) = Unit

  pub step-closed :
      (env : Env) (t : SessionTable) (e : Event) → CreateKeeps env t e → P t → P (step env t e)
  unfolding step
  step-closed env t (signs_in draw grant) c s = c
  step-closed env t (begins now sid) c s = begin_exchange-closed env t now sid s
  step-closed env t (finishes row now answer) c s = finish_exchange-closed env t row now answer s
  step-closed env t (signs_out now sid) c s = logout-closed env now none t sid s
  step-closed env t (purges now) c s = purge t now s
