-- ===== src/Sessions/Unique.antt =====
-- The invariant of the session table: ids and hashes name one row, under every request.
use work_behavior_analytics.Prelude.{
  ℕ, ◌+◌, ◌<◌, Bool, true, false, String, List, [], ◌∷◌, ◌++◌, any, All, ◌==◌, ℕ_key, text_key,
  Bool-cases, ◌≡◌, refl, inl, inr, arith,
}
use work_behavior_analytics.Sessions.Table.{
  AuthSession, SessionTable, unless_taken, is_taken, create_session, update_where, purge_expired,
}
use work_behavior_analytics.Sessions.Keycloak.{Env, Outcome, returned, raised}
use work_behavior_analytics.Sessions.Login.{
  Draw, Grant, purge_opportunistically, committed, open_session,
}
use work_behavior_analytics.Sessions.Rows.{
  All-mono, All-map, All-filter, All-snoc, Differ, Distinct, Distinct-filter, KeepsKeys,
  Distinct-map, Distinct-snoc, if-KeepsKeys,
}
use work_behavior_analytics.Sessions.History.{
  Event, signs_in, begins, finishes, signs_out, purges, step, run_requests,
}
use work_behavior_analytics.Sessions.Steps.{IsEdit, CreateKeeps, step-closed}

-- Ids are below the next one, and no two rows share an id or a hash.
pub record IsSound (t : SessionTable) : Type 0 where
  pub below : All (λ r. r.id < t.next_id) t.rows
  pub distinct : Distinct t.rows

no_hash :
    (hash : String) (n : ℕ) (a : AuthSession) (rows : List AuthSession)
    → a.id ≡ n
    → a.session_id_hash ≡ hash
    → any (λ r. r.session_id_hash == hash) rows ≡ false
    → All (λ r. r.id < n) rows
    → All (λ r. Differ r a) rows
no_hash hash n a [] i e h b = tt
no_hash hash n a (r ∷ rows) i e h b = rw (i, e) ground (arith, no_hash hash n a rows i e, b)

add-IsSound :
    (t : SessionTable) (a : AuthSession)
    → a.id ≡ t.next_id
    → any (λ r. r.session_id_hash == a.session_id_hash) t.rows ≡ false
    → IsSound t
    → IsSound (record { rows = t.rows ++ a ∷ []; next_id = t.next_id + 1 })
add-IsSound t a i e s = record {
  below =
      All-snoc (λ r. r.id < t.next_id + 1) t.rows a
        (All-mono (λ r. r.id < t.next_id) (λ r. r.id < t.next_id + 1) t.rows (λ r h. omega arith)
          s.below)
        (rw i (omega arith));
  distinct =
      Distinct-snoc t.rows a s.distinct
        (no_hash a.session_id_hash t.next_id a t.rows i refl e s.below);
}

pub update-IsSound :
    (t : SessionTable) (id : ℕ) (f : AuthSession → AuthSession)
    → KeepsKeys f
    → IsSound t
    → IsSound (record t { rows = update_where id f t.rows })
unfolding update_where
update-IsSound t id f k s =
    let keeps = if-KeepsKeys id f k in
    record {
      below =
          All-map (λ r. r.id < t.next_id) (λ r. r.id < t.next_id) _ t.rows
            (λ r h. rw ((keeps r).0) h) s.below;
      distinct = Distinct-map _ t.rows keeps s.distinct;
    }

purge_expired-IsSound : (t : SessionTable) (now : ℕ) → IsSound t → IsSound (purge_expired t now).0
unfolding purge_expired
purge_expired-IsSound t now s = record {
  below = All-filter _ _ t.rows s.below;
  distinct = Distinct-filter _ t.rows s.distinct;
}

purge_opportunistically-IsSound :
    (draw : Draw) (t : SessionTable) → IsSound t → IsSound (purge_opportunistically draw t)
purge_opportunistically-IsSound draw t s = elim (Bool-cases draw.purge_works) [
  | inl e ↦ rw e (purge_expired-IsSound t draw.purge_now s)
  | inr e ↦ rw e s
]

committed-IsSound :
    (draw : Draw) (grant : Grant) (t : SessionTable) (row : AuthSession) (b : Bool)
    → row.id ≡ t.next_id
    → is_taken row.session_id_hash t ≡ b
    → IsSound t
    → IsSound (committed draw grant t (unless_taken t row b)).1
committed-IsSound draw grant t row true i e s = s
committed-IsSound draw grant t row false i e s =
    purge_opportunistically-IsSound draw _ (add-IsSound t row i e s)

open_session-IsSound :
    (env : Env) (draw : Draw) (t : SessionTable) (grant : Outcome Grant)
    → IsSound t
    → IsSound (open_session env draw t grant).1
unfolding open_session create_session
open_session-IsSound env draw t (raised e) s = s
open_session-IsSound env draw t (returned grant) s = committed-IsSound draw grant t _ _ refl refl s

edit-IsSound :
    (t : SessionTable) (id : ℕ) (f : AuthSession → AuthSession)
    → IsEdit f
    → IsSound t
    → IsSound (record t { rows = update_where id f t.rows })
edit-IsSound t id f k = update-IsSound t id f k.keeps

created-IsSound :
    (env : Env) (t : SessionTable) (e : Event)
    → IsSound t
    → CreateKeeps IsSound edit-IsSound purge_expired-IsSound env t e
created-IsSound env t (signs_in draw grant) s = open_session-IsSound env draw t grant s
created-IsSound env t (begins now sid) s = tt
created-IsSound env t (finishes row now answer) s = tt
created-IsSound env t (signs_out now sid) s = tt
created-IsSound env t (purges now) s = tt

step-IsSound : (env : Env) (t : SessionTable) (e : Event) → IsSound t → IsSound (step env t e)
step-IsSound env t e s =
    step-closed IsSound edit-IsSound purge_expired-IsSound env t e (created-IsSound env t e s) s

-- Whatever requests run, and however exchanges overlap: no two rows of the session table share their
-- id or the hash of their cookie, and every id is below the next one, if this holds before.
pub run_requests-IsSound :
    (env : Env) (t : SessionTable) (events : List Event)
    → IsSound t
    → IsSound (run_requests env t events)
unfolding run_requests
run_requests-IsSound env t [] s = s
run_requests-IsSound env t (e ∷ events) s =
    run_requests-IsSound env (step env t e) events (step-IsSound env t e s)
