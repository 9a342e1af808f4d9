-- ===== src/Sessions/Table.antt =====
-- The table `auth_session` of src/app/db/models/auth_session.py and the statements of
-- src/app/api/auth/v1/query.py on it. `created_at`, which nothing reads, is left out. A time is a
-- number of seconds.
use work_behavior_analytics.Prelude.{
  ℕ, ◌+◌, ◌-◌, ◌*◌, ltb, Bool, true, false, not, ◌&&◌, ◌||◌, String, Option, none, some, List, [],
  ◌∷◌, ◌++◌, map, filter, any, length, ◌==◌, ℕ_key, text_key, if◌then◌else◌, is_some,
}

pub record AuthSession : Type 0 where
  pub id : ℕ
  pub session_id_hash : String
  pub subject : String
  pub username : String
  pub roles : List String
  pub refresh_token_encrypted : String
  pub expires_at : ℕ
  pub last_seen_at : ℕ
  pub revoked_at : Option ℕ

-- The rows and the number that the next one gets.
pub record SessionTable : Type 0 where
  pub rows : List AuthSession
  pub next_id : ℕ

-- `_PURGE_GRACE`
abbrev pub purge_grace : ℕ
purge_grace = 24 * 3600

-- The unique column refuses a hash that a row has.
abbrev pub unless_taken : SessionTable → AuthSession → Bool → Option SessionTable
unless_taken t row true = none
unless_taken t row false = some (record { rows = t.rows ++ row ∷ []; next_id = t.next_id + 1 })

abbrev pub is_taken : String → SessionTable → Bool
is_taken hash t = any (λ r. r.session_id_hash == hash) t.rows

-- `now` is read again.
abbrev pub session_row :
    SessionTable → String → String → String → List String → String → ℕ → ℕ → AuthSession
session_row t hash subject username roles token expires_at now = record {
  id = t.next_id;
  session_id_hash = hash;
  subject = subject;
  username = username;
  roles = roles;
  refresh_token_encrypted = token;
  expires_at = expires_at;
  last_seen_at = now;
  revoked_at = none;
}

unfoldable pub create_session :
    SessionTable → String → String → String → List String → String → ℕ → ℕ → Option SessionTable
create_session t hash subject username roles token expires_at now =
    unless_taken t (session_row t hash subject username roles token expires_at now)
      (is_taken hash t)

abbrev pub is_active : String → AuthSession → Bool
is_active hash row = row.session_id_hash == hash && not (is_some row.revoked_at)

-- The column is unique, so that there is one row at most.
unfoldable pub find_active : String → List AuthSession → Option AuthSession
find_active hash [] = none
find_active hash (row ∷ rows) =
    let rest = find_active hash rows in if is_active hash row then some row else rest

abbrev pub get_active_session : SessionTable → String → Option AuthSession
get_active_session t hash = find_active hash t.rows

-- `update(AuthSession).where(AuthSession.id == id)`
unfoldable pub update_where : ℕ → (AuthSession → AuthSession) → List AuthSession → List AuthSession
update_where id f = map λ r. if r.id == id then f r else r

abbrev pub touched : ℕ → Option String → AuthSession → AuthSession
touched last_seen_at none r = record r { last_seen_at = last_seen_at }
touched last_seen_at (some token) r = record r {
  last_seen_at = last_seen_at;
  refresh_token_encrypted = token;
}

abbrev pub touch_session : SessionTable → AuthSession → ℕ → Option String → SessionTable
touch_session t row last_seen_at token = record t {
  rows = update_where row.id (touched last_seen_at token) t.rows;
}

abbrev pub revoke_session : SessionTable → AuthSession → ℕ → SessionTable
revoke_session t row revoked_at = record t {
  rows = update_where row.id (λ r. record r { revoked_at = some revoked_at }) t.rows;
}

-- A comparison with NULL is not true.
abbrev pub is_before : Option ℕ → ℕ → Bool
is_before none cutoff = false
is_before (some t) cutoff = ltb t cutoff

abbrev pub is_purgeable : ℕ → AuthSession → Bool
is_purgeable now r =
    let cutoff = now - purge_grace in ltb r.expires_at cutoff || is_before r.revoked_at cutoff

-- The rows left, and how many were deleted.
unfoldable pub purge_expired : SessionTable → ℕ → SessionTable × ℕ
purge_expired t now = (
  record t { rows = filter (λ r. not (is_purgeable now r)) t.rows },
  length (filter (is_purgeable now) t.rows),
)
