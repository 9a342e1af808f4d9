-- ===== src/Activity/Once.antt =====
-- What the tables of the activity timeline hold after writes of src/connectors/consumers/activity_writer.py,
-- whichever of them fail.
use work_behavior_analytics.Prelude.{
  ℕ, ◌+◌, Bool, true, false, ◌||◌, String, ◌≡◌, inl, inr, refl, List, [], ◌∷◌, ◌++◌, arith, ◌==◌,
  eq_iff, text_key, Bool-cases,
}
use work_behavior_analytics.Activity.Signal.{
  ActivitySignal, Relationship, ActionRow, decompose_relationships,
}
use work_behavior_analytics.Activity.Postgres.{
  EventKey, event_key, EventRow, Fate, no_connection, events_fail, actions_fail, works, Postgres,
  Environment, Written, inserted, raised, key_of, has_key, has_signal, event_of, insert_event,
  insert_actions, write_actions, write_event, write_with, write_signal, Counts, count, write_each,
  write_batch,
}

-- The signal that a row was made of, and its actions.
abbrev pub signal_of : EventRow → ActivitySignal
signal_of row = record {
  signal_id = row.signal_id;
  source = row.key.source;
  entity_type = row.key.entity_type;
  id = row.key.entity_id;
  event_time = row.key.event_time;
  attributes = row.attributes;
  relationships = row.relationships;
}

abbrev pub actions_of : EventRow → List ActionRow
actions_of row = decompose_relationships (signal_of row)

-- The actions are those of some of the events, all or none of each, in the order of the events.
pub data Explained : List EventRow → List ActionRow → Type 0 where
  nothing : Explained [] []
  with_actions :
      (events : List EventRow) (actions : List ActionRow) (row : EventRow)
      → Explained events actions
      → Explained (events ++ row ∷ []) (actions ++ actions_of row)
  without :
      (events : List EventRow) (actions : List ActionRow) (row : EventRow)
      → Explained events actions
      → Explained (events ++ row ∷ []) actions

-- No key and no signal id occurs twice.
abbrev pub IsUnique : List EventRow → Type 0
IsUnique [] = Unit
IsUnique (row ∷ rows) =
    (has_key rows row.key ≡ false) × (has_signal rows row.signal_id ≡ false) × IsUnique rows

pub record IsSound (db : Postgres) : Type 0 where
  pub unique : IsUnique db.events
  pub explained : Explained db.events db.actions

pub has_key-append :
    (rows : List EventRow) (row : EventRow) (k : EventKey)
    → has_key (rows ++ row ∷ []) k ≡ (has_key rows k || (row.key == k))
has_key-append [] row k = ground arith
has_key-append (r ∷ rows) row k = ground (arith, has_key-append rows row k)

pub has_signal-append :
    (rows : List EventRow) (row : EventRow) (id : String)
    → has_signal (rows ++ row ∷ []) id ≡ (has_signal rows id || (row.signal_id == id))
has_signal-append [] row id = ground arith
has_signal-append (r ∷ rows) row id = ground (arith, has_signal-append rows row id)

key_sym : (j k : EventKey) → (j == k) ≡ false → (k == j) ≡ false
key_sym j k h = ground (
  arith,
  eq_iff j.source k.source,
  eq_iff j.entity_type k.entity_type,
  eq_iff j.entity_id k.entity_id,
  eq_iff j.event_time k.event_time,
  eq_iff j.content_hash k.content_hash,
  eq_iff k.source j.source,
  eq_iff k.entity_type j.entity_type,
  eq_iff k.entity_id j.entity_id,
  eq_iff k.event_time j.event_time,
  eq_iff k.content_hash j.content_hash,
)

text_sym : (a b : String) → (a == b) ≡ false → (b == a) ≡ false
text_sym a b h = ground (arith, eq_iff a b, eq_iff b a)

or_false : (a b : Bool) → (a || b) ≡ false → (a ≡ false) × (b ≡ false)
or_false true b h = cc
or_false false b h = (refl, h)

IsUnique-append :
    (rows : List EventRow) (row : EventRow)
    → IsUnique rows
    → has_key rows row.key ≡ false
    → has_signal rows row.signal_id ≡ false
    → IsUnique (rows ++ row ∷ [])
IsUnique-append [] row u k i = (refl, refl, tt)
IsUnique-append (r ∷ rows) row u k i =
    let (k0, k1) = or_false (r.key == row.key) (has_key rows row.key) k in
    let (i0, i1) = or_false (r.signal_id == row.signal_id) (has_signal rows row.signal_id) i in
    (
      rw (has_key-append rows row r.key, u.0) (key_sym r.key row.key k0),
      rw (has_signal-append rows row r.signal_id, u.1) (text_sym r.signal_id row.signal_id i0),
      IsUnique-append rows row u.2 k1 i1,
    )

module _ (env : Environment) where
  pub record KeepsSound (r : Written × Postgres) : Type 0 where
    pub sound : IsSound r.1

  write_actions-KeepsSound :
      (fate : Fate) (s : ActivitySignal) (db : Postgres)
      → IsSound db
      → has_key db.events (key_of env s) ≡ false
      → has_signal db.events s.signal_id ≡ false
      → KeepsSound (write_actions fate s s.relationships (insert_event env s db))
  write_actions-KeepsSound fate s db h k i = by_case fate s.relationships
    where
      unique : IsUnique (insert_event env s db).events
      unique = IsUnique-append db.events (event_of env s) h.unique k i

      bare : KeepsSound (raised, insert_event env s db)
      bare = record {
        sound = record {
          unique = unique;
          explained = without db.events db.actions (event_of env s) h.explained;
        };
      }

      full : (n : ℕ) → KeepsSound (inserted n, insert_actions s (insert_event env s db))
      full n = record {
        sound = record {
          unique = unique;
          explained = with_actions db.events db.actions (event_of env s) h.explained;
        };
      }

      by_case :
          (fate : Fate) (rels : List Relationship)
          → KeepsSound (write_actions fate s rels (insert_event env s db))
      by_case fate [] = record { sound = bare.sound }
      by_case actions_fail (r ∷ rels) = bare
      by_case no_connection (r ∷ rels) = full _
      by_case events_fail (r ∷ rels) = full _
      by_case works (r ∷ rels) = full _

  write_event-KeepsSound :
      (fate : Fate) (s : ActivitySignal) (db : Postgres)
      → IsSound db
      → KeepsSound (write_event env fate s db)
  unfolding write_event
  write_event-KeepsSound fate s db h = elim (Bool-cases (has_key db.events (key_of env s))) [
    | inl old ↦ rw old (record { sound = h })
    | inr new ↦ elim (Bool-cases (has_signal db.events s.signal_id)) [
      | inl taken ↦ rw (new, taken) (record { sound = h })
      | inr free ↦ rw (new, free) (write_actions-KeepsSound fate s db h new free)
    ]
  ]

  write_signal-KeepsSound :
      (s : ActivitySignal) (db : Postgres) → IsSound db → KeepsSound (write_signal env s db)
  unfolding write_signal
  write_signal-KeepsSound s db h = by_fate (env.fate db.writes)
    where
      by_fate :
          (fate : Fate) → KeepsSound (write_with env fate s (record db { writes = db.writes + 1 }))
      by_fate no_connection = record {
        sound = record { unique = h.unique; explained = h.explained };
      }
      by_fate events_fail = record { sound = record { unique = h.unique; explained = h.explained } }
      by_fate actions_fail =
          write_event-KeepsSound actions_fail s _
            (record { unique = h.unique; explained = h.explained })
      by_fate works =
          write_event-KeepsSound works s _ (record { unique = h.unique; explained = h.explained })

  pub record BatchKeepsSound (r : Counts × Postgres) : Type 0 where
    pub sound : IsSound r.1

  write_each-KeepsSound :
      (batch : List ActivitySignal) (c : Counts) (db : Postgres)
      → IsSound db
      → BatchKeepsSound (write_each env batch c db)
  unfolding write_each
  write_each-KeepsSound [] c db h = record { sound = h }
  write_each-KeepsSound (s ∷ rest) c db h =
      write_each-KeepsSound rest (count c (write_signal env s db).0) (write_signal env s db).1
        (write_signal-KeepsSound s db h).sound

  -- Whatever fails, a batch keeps the events unique, by key and by signal id, and the actions remain
  -- those of some of the events, all or none of each, in the order of the events.
  pub write_batch-IsSound :
      (has_pool : Bool) (batch : List ActivitySignal) (db : Postgres)
      → IsSound db
      → IsSound (write_batch env has_pool batch db).1
  unfolding write_batch
  write_batch-IsSound true batch db h = (write_each-KeepsSound batch _ db h).sound
  write_batch-IsSound false batch db h = h
