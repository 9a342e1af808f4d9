-- ===== src/Activity/Postgres.antt =====
-- Writing signals to Postgres: `_write_signal` and `_write_batch` of
-- src/connectors/consumers/activity_writer.py on the tables of src/app/db/models/activity_event.py and
-- src/app/db/models/activity_action.py.
use work_behavior_analytics.Prelude.{
  ℕ, ◌+◌, Bool, true, String, Option, List, [], ◌∷◌, ◌++◌, any, length, ◌==◌, eq_iff, Key, text_key,
  ◌&&◌, ◌≡◌, ◌↔◌, arith, if◌then◌else◌,
}
use work_behavior_analytics.Prelude.Json.{Json, Fields}
use work_behavior_analytics.Activity.Signal.{
  ActivitySignal, Relationship, ActionRow, compute_display_name, compute_avatar_url,
  decompose_relationships,
}

-- The columns of the constraint that `ON CONFLICT` names.
pub record EventKey : Type 0 where
  pub source : String
  pub entity_type : String
  pub entity_id : String
  pub event_time : String
  pub content_hash : String

abbrev pub same_key : EventKey → EventKey → Bool
same_key j k =
    (j.source == k.source)
    && (j.entity_type == k.entity_type)
    && (j.entity_id == k.entity_id)
    && (j.event_time == k.event_time)
    && (j.content_hash == k.content_hash)

pub same_key_iff : (j k : EventKey) → (same_key j k ≡ true) ↔ (j ≡ k)
same_key_iff j k = ground (
  arith,
  eq_iff j.source k.source,
  eq_iff j.entity_type k.entity_type,
  eq_iff j.entity_id k.entity_id,
  eq_iff j.event_time k.event_time,
  eq_iff j.content_hash k.content_hash,
)

instance abbrev pub event_key : Key EventKey
event_key = record { same = same_key; same_iff = same_key_iff }

-- A row of activity_events. The JSON columns hold the values that are dumped.
pub record EventRow : Type 0 where
  pub key : EventKey
  pub signal_id : String
  pub display_name : String
  pub avatar_url : Option Json
  pub attributes : Fields
  pub relationships : List Relationship

-- What befalls a write: no connection, the statement on events or the one on actions raises, or none.
pub data Fate : Type 0 where
  no_connection : Fate
  events_fail : Fate
  actions_fail : Fate
  works : Fate

-- The database, with the number of writes attempted.
pub record Postgres : Type 0 where
  pub events : List EventRow
  pub actions : List ActionRow
  pub writes : ℕ

-- The fate of the n-th write, and the digest of a signal's attributes and relationships.
pub record Environment : Type 0 where
  pub fate : ℕ → Fate
  pub content_hash : ActivitySignal → String

-- The return value of `_write_signal`, or an exception.
pub data Written : Type 0 where
  inserted : ℕ → Written
  duplicate : Written
  raised : Written

abbrev pub key_of : Environment → ActivitySignal → EventKey
key_of env s = record {
  source = s.source;
  entity_type = s.entity_type;
  entity_id = s.id;
  event_time = s.event_time;
  content_hash = env.content_hash s;
}

abbrev pub has_key : List EventRow → EventKey → Bool
has_key events k = any (λ row. row.key == k) events

abbrev pub has_signal : List EventRow → String → Bool
has_signal events id = any (λ row. row.signal_id == id) events

abbrev pub event_of : Environment → ActivitySignal → EventRow
event_of env s = record {
  key = key_of env s;
  signal_id = s.signal_id;
  display_name = compute_display_name s;
  avatar_url = compute_avatar_url s;
  attributes = s.attributes;
  relationships = s.relationships;
}

abbrev pub insert_event : Environment → ActivitySignal → Postgres → Postgres
insert_event env s db = record db { events = db.events ++ event_of env s ∷ [] }

abbrev pub insert_actions : ActivitySignal → Postgres → Postgres
insert_actions s db = record db { actions = db.actions ++ decompose_relationships s }

-- After the event was inserted: no statement where there is no action.
abbrev pub write_actions : Fate → ActivitySignal → List Relationship → Postgres → Written × Postgres
write_actions fate s [] db = (inserted 0, db)
write_actions actions_fail s (r ∷ rels) db = (raised, db)
write_actions no_connection s (r ∷ rels) db = (inserted (length (r ∷ rels)), insert_actions s db)
write_actions events_fail s (r ∷ rels) db = (inserted (length (r ∷ rels)), insert_actions s db)
write_actions works s (r ∷ rels) db = (inserted (length (r ∷ rels)), insert_actions s db)

-- ON CONFLICT DO NOTHING on the key; a signal id that is taken under another key violates its own
-- constraint. Each statement commits by itself.
unfoldable pub write_event : Environment → Fate → ActivitySignal → Postgres → Written × Postgres
write_event env fate s db =
    if has_key db.events (key_of env s)
    then (duplicate, db)
    else if has_signal db.events s.signal_id
    then (raised, db)
    else write_actions fate s s.relationships (insert_event env s db)

abbrev pub write_with : Environment → Fate → ActivitySignal → Postgres → Written × Postgres
write_with env no_connection s db = (raised, db)
write_with env events_fail s db = (raised, db)
write_with env actions_fail s db = write_event env actions_fail s db
write_with env works s db = write_event env works s db

unfoldable pub write_signal : Environment → ActivitySignal → Postgres → Written × Postgres
unfolding write_event
write_signal env s db = write_with env (env.fate db.writes) s (record db { writes = db.writes + 1 })

-- The counters that a batch logs.
pub record Counts : Type 0 where
  pub inserted_count : ℕ
  pub duplicate_count : ℕ
  pub action_count : ℕ

abbrev pub count : Counts → Written → Counts
count c (inserted n) = record c {
  inserted_count = c.inserted_count + 1;
  action_count = c.action_count + n;
}
count c duplicate = record c { duplicate_count = c.duplicate_count + 1 }
count c raised = c

-- The `for` loop of `_write_batch`: an exception is logged.
unfoldable pub write_each :
    Environment → List ActivitySignal → Counts → Postgres → Counts × Postgres
unfolding write_signal
write_each env [] c db = (c, db)
write_each env (s ∷ rest) c db =
    let (result, db') = write_signal env s db in write_each env rest (count c result) db'

unfoldable pub write_batch : Environment → Bool → List ActivitySignal → Postgres → Counts × Postgres
unfolding write_each
write_batch env has_pool batch db =
    let none_yet : Counts = record { inserted_count = 0; duplicate_count = 0; action_count = 0 } in
    if has_pool then write_each env batch none_yet db else (none_yet, db)
