-- ===== src/Persons/Identities.antt =====
-- Identity mappings of src/connectors/commons/person_cache.py: queued for a batch, written on flush.
pub mod Flush
use work_behavior_analytics.Prelude.{
  ℕ, Bool, true, false, String, ◌≡◌, refl, ◌⊎◌, inl, inr, Option, none, some, List, [], ◌∷◌, arith,
  ◌==◌, eq_iff, text_key, if◌then◌else◌, contains, length, is_some, Bool-cases, Option-cases,
  same_refl, ◌+◌,
}
use work_behavior_analytics.Prelude.Dict.{Dict, lookup, insert}
use work_behavior_analytics.Persons.Graph.{Store, IdentityMapping, MapsTo}
use work_behavior_analytics.Persons.Cache.{PersonCache, Session, with_cache}

-- The arguments of `queue_identity_mapping`.
pub record Mapping : Type 0 where
  pub person_id : String
  pub identity_id : String
  pub provider : String
  pub username : String
  pub email : String
  pub last_updated_at : String

abbrev pub pending_of : Mapping → IdentityMapping × MapsTo
pending_of m = (
  record {
    id = m.identity_id;
    provider = m.provider;
    username = m.username;
    email = m.email;
    last_updated_at = m.last_updated_at;
  },
  record { from_id = m.identity_id; to_id = m.person_id },
)

-- An identity that is pending, and a person that was flushed, are skipped.
unfoldable pub queue_identity_mapping : PersonCache → Mapping → PersonCache
queue_identity_mapping c m =
    if is_some (lookup c.pending m.identity_id)
    then c
    else if contains c.flushed m.person_id
    then c
    else record c { pending = insert c.pending m.identity_id (pending_of m) }

-- set.add
abbrev pub add : List String → String → List String
add xs x = if contains xs x then xs else x ∷ xs

-- get_stats, less the text of the rate
pub record Stats : Type 0 where
  pub cache_hits : ℕ
  pub cache_misses : ℕ
  pub db_queries : ℕ
  pub pending_identities : ℕ

abbrev pub get_stats : PersonCache → Stats
get_stats c = record {
  cache_hits = c.cache_hits;
  cache_misses = c.cache_misses;
  db_queries = c.db_queries;
  pending_identities = length c.pending;
}

module _ (store : Store) where
  open store use {Graph, merge_identity_mapping}

  -- Whether all were written, the persons flushed by then, and the graph.
  abbrev pub Flushed : Type 0
  Flushed = Bool × List String × Graph

  -- The loop of `flush_identity_mappings`; an exception ends it.
  unfoldable pub flush_each :
      List (String × (IdentityMapping × MapsTo)) → List String → Graph → Flushed
  flush_each [] flushed g = (true, flushed, g)
  flush_each ((identity_id, (identity, rel)) ∷ rest) flushed g =
      let (written, g') = merge_identity_mapping g identity rel in
      let after = flush_each rest (add flushed rel.to_id) g' in
      if written then after else (false, flushed, g')

  -- The pending mappings are cleared once all are written.
  abbrev pub after_flush : Session store → Flushed → Bool × Session store
  after_flush s (true, flushed, g) =
      (true, record { cache = record s.cache { flushed = flushed; pending = [] }; graph = g })
  after_flush s (false, flushed, g) =
      (false, record { cache = record s.cache { flushed = flushed }; graph = g })

  unfoldable pub flush_identity_mappings : Session store → Bool × Session store
  unfolding flush_each
  flush_identity_mappings s = after_flush s (flush_each s.cache.pending s.cache.flushed s.graph)
