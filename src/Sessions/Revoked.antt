-- ===== src/Sessions/Revoked.antt =====
-- A session that ended gives no token any more: the revocations of src/app/api/auth/v1/service.py
-- under every later request.
use mathlib.Core.Path.{subst}
use work_behavior_analytics.Prelude.{
  ℕ, Bool, true, false, String, Option, some, List, [], ◌∷◌, All, ◌==◌, ℕ_key, text_key,
  if◌then◌else◌, Bool-cases, Option-cases, same_refl, ◌≡◌, refl, eq_iff, inl, inr, arith,
}
use work_behavior_analytics.Prelude.Text.{is_empty}
use work_behavior_analytics.Tokens.Service.{Response}
use work_behavior_analytics.Sessions.Table.{
  AuthSession, SessionTable, unless_taken, create_session, update_where, purge_expired, is_active,
  find_active, get_active_session,
}
use work_behavior_analytics.Sessions.Keycloak.{Env, unknown_session, Outcome, returned, raised}
use work_behavior_analytics.Sessions.Login.{
  Draw, Grant, purge_opportunistically, committed, open_session,
}
use work_behavior_analytics.Sessions.Exchange.{begin_exchange, exchange_token, logout}
use work_behavior_analytics.Sessions.History.{
  Event, signs_in, begins, finishes, signs_out, purges, step, run_requests,
}
use work_behavior_analytics.Sessions.Rows.{
  All-map, All-filter, All-snoc, Differ, Distinct, IsOut, find_active-IsOut, first_active,
  IsOut-find_active,
}
use work_behavior_analytics.Sessions.Steps.{IsEdit, CreateKeeps, step-closed}
use work_behavior_analytics.Sessions.Unique.{IsSound}

edit-inactive :
    (hash : String) (id : ℕ) (f : AuthSession → AuthSession)
    → IsEdit f
    → (r : AuthSession) → is_active hash r ≡ false
    → is_active hash (if r.id == id then f r else r) ≡ false
edit-inactive hash id f k r h = elim (Bool-cases (r.id == id)) [
  | inr e ↦ rw e h
  | inl e ↦ rw (e, (k.keeps r).1) (ground (arith, k.stays r))
]

other-inactive :
    (hash : String) (r q : AuthSession) (now id : ℕ)
    → is_active hash r ≡ true
    → Differ r q
    → is_active hash (if q.id == id then record q { revoked_at = some now } else q) ≡ false
other-inactive hash r q now id a d = ground (
  arith,
  eq_iff r.session_id_hash hash,
  eq_iff q.session_id_hash hash,
  eq_iff r.session_id_hash q.session_id_hash,
)

revoked_first :
    (hash : String) (r : AuthSession) (now : ℕ) (rows : List AuthSession)
    → is_active hash r ≡ true
    → All (Differ r) rows
    → IsOut hash (update_where r.id (λ q. record q { revoked_at = some now }) (r ∷ rows))
unfolding update_where
revoked_first hash r now rows a d = (
  rw (same_refl r.id) (ground arith),
  All-map (Differ r) (λ q. is_active hash q ≡ false) _ rows
      (λ q h. other-inactive hash r q now r.id a h) d,
)

revoke-IsEdit : (now : ℕ) → IsEdit (λ r. record r { revoked_at = some now })
revoke-IsEdit now = record { keeps = λ r. (refl, refl); stays = λ r h. refl }

pub revoked-IsOut :
    (hash : String) (row : AuthSession) (now : ℕ) (rows : List AuthSession)
    → Distinct rows
    → find_active hash rows ≡ some row
    → IsOut hash (update_where row.id (λ r. record r { revoked_at = some now }) rows)
unfolding find_active update_where
revoked-IsOut hash row now [] d e = tt
revoked-IsOut hash row now (r ∷ rows) d e = elim (Bool-cases (is_active hash r)) [
  | inl a ↦
      subst
        (λ q. IsOut hash (update_where q.id (λ r. record r { revoked_at = some now }) (r ∷ rows)))
        (first_active hash r row rows a e) (revoked_first hash r now rows a d.0)
  | inr a ↦ (
    edit-inactive hash row.id _ (revoke-IsEdit now) r a,
    revoked-IsOut hash row now rows d.1 (ground arith),
  )
]

-- No later login draws the cookie's id again.
abbrev pub Spares : Env → String → Event → Type 0
Spares env hash (signs_in draw grant) = (env.hash_session_id draw.session_id == hash) ≡ false
Spares env hash (begins now sid) = Unit
Spares env hash (finishes row now answer) = Unit
Spares env hash (signs_out now sid) = Unit
Spares env hash (purges now) = Unit

purge-IsOut :
    (hash : String) (t : SessionTable) (now : ℕ)
    → IsOut hash t.rows
    → IsOut hash (purge_expired t now).0.rows
unfolding purge_expired
purge-IsOut hash t now = All-filter _ _ t.rows

purge_opportunistically-IsOut :
    (hash : String) (draw : Draw) (t : SessionTable)
    → IsOut hash t.rows
    → IsOut hash (purge_opportunistically draw t).rows
purge_opportunistically-IsOut hash draw t h = elim (Bool-cases draw.purge_works) [
  | inl e ↦ rw e (purge-IsOut hash t draw.purge_now h)
  | inr e ↦ rw e h
]

committed-IsOut :
    (hash : String) (draw : Draw) (grant : Grant) (t : SessionTable) (row : AuthSession) (b : Bool)
    → (row.session_id_hash == hash) ≡ false
    → IsOut hash t.rows
    → IsOut hash (committed draw grant t (unless_taken t row b)).1.rows
committed-IsOut hash draw grant t row true e h = h
committed-IsOut hash draw grant t row false e h =
    purge_opportunistically-IsOut hash draw _
      (All-snoc (λ r. is_active hash r ≡ false) t.rows row h (rw e refl))

open_session-IsOut :
    (env : Env) (hash : String) (draw : Draw) (t : SessionTable) (grant : Outcome Grant)
    → (env.hash_session_id draw.session_id == hash) ≡ false
    → IsOut hash t.rows
    → IsOut hash (open_session env draw t grant).1.rows
unfolding open_session create_session
open_session-IsOut env hash draw t (raised e) k h = h
open_session-IsOut env hash draw t (returned grant) k h = committed-IsOut hash draw grant t _ _ k h

module _ (hash : String) where
  edit-IsOut :
      (t : SessionTable) (id : ℕ) (f : AuthSession → AuthSession)
      → IsEdit f
      → IsOut hash t.rows
      → IsOut hash (record t { rows = update_where id f t.rows }).rows
  unfolding update_where
  edit-IsOut t id f k =
      All-map (λ r. is_active hash r ≡ false) (λ r. is_active hash r ≡ false) _ t.rows
        (edit-inactive hash id f k)

  created-IsOut :
      (env : Env) (t : SessionTable) (e : Event)
      → Spares env hash e
      → IsOut hash t.rows
      → CreateKeeps (λ t. IsOut hash t.rows) edit-IsOut (purge-IsOut hash) env t e
  created-IsOut env t (signs_in draw grant) k h = open_session-IsOut env hash draw t grant k h
  created-IsOut env t (begins now sid) k h = tt
  created-IsOut env t (finishes row now answer) k h = tt
  created-IsOut env t (signs_out now sid) k h = tt
  created-IsOut env t (purges now) k h = tt

  pub run_requests-IsOut :
      (env : Env) (t : SessionTable) (events : List Event)
      → All (Spares env hash) events
      → IsOut hash t.rows
      → IsOut hash (run_requests env t events).rows
  unfolding run_requests
  run_requests-IsOut env t [] k h = h
  run_requests-IsOut env t (e ∷ events) k h = run_requests-IsOut env (step env t e) events k.1 (
      step-closed (λ t. IsOut hash t.rows) edit-IsOut (purge-IsOut hash) env t e
        (created-IsOut env t e k.0 h) h)

-- Nothing is asked of Keycloak.
pub exchange_token-IsOut :
    (env : Env) (now : ℕ) (post : List (String × String) → Response) (t : SessionTable)
    (sid : String)
    → is_empty sid ≡ false
    → IsOut (env.hash_session_id sid) t.rows
    → exchange_token env now post t (some sid) ≡ (raised unknown_session, t)
unfolding exchange_token begin_exchange
exchange_token-IsOut env now post t sid e h =
    rw (e, find_active-IsOut (env.hash_session_id sid) t.rows h) refl

logout-IsOut :
    (env : Env) (now : ℕ) (endpoint : Option String) (t : SessionTable) (sid : String)
    → IsSound t
    → is_empty sid ≡ false
    → IsOut (env.hash_session_id sid) (logout env now endpoint t (some sid)).1.rows
unfolding logout
logout-IsOut env now endpoint t sid s e =
    elim (Option-cases (get_active_session t (env.hash_session_id sid))) [
      | inl f ↦ rw (e, f) (IsOut-find_active (env.hash_session_id sid) t.rows f)
      | inr (row, f) ↦
          rw (e, f) (revoked-IsOut (env.hash_session_id sid) row now t.rows s.distinct f)
    ]

-- After a logout, whatever other requests follow and however they overlap, as long as no later login
-- draws the same session id: an exchange of the cookie raises SessionNotFoundError and changes nothing.
pub logout-ends :
    (env : Env) (now later : ℕ) (endpoint : Option String) (t : SessionTable) (sid : String)
    (events : List Event) (post : List (String × String) → Response)
    → IsSound t
    → is_empty sid ≡ false
    → All (Spares env (env.hash_session_id sid)) events
    → exchange_token env later post
        (run_requests env (logout env now endpoint t (some sid)).1 events)
        (some sid)
      ≡ (raised unknown_session, run_requests env (logout env now endpoint t (some sid)).1 events)
logout-ends env now later endpoint t sid events post s e k =
    exchange_token-IsOut env later post _ sid e (
      run_requests-IsOut (env.hash_session_id sid) env _ events k
        (logout-IsOut env now endpoint t sid s e))
