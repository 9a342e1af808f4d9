-- ===== src/Sink/Canonical.antt =====
-- The id that `upsert_signal` of src/connectors/consumers/sinks/neo4j_sink.py gives back for a person.
use mathlib.Core.Path.{subst}
use work_behavior_analytics.Prelude.{
  Bool, true, false, ◌∷◌, contains, is_some, sym, Bool-cases, ◌⊎◌, inl, inr, ap, ◌∙◌, if◌then◌else◌,
  String, none, some, [], text_key, eq_iff, ◌≡◌, refl,
}
use work_behavior_analytics.Prelude.Text.{is_empty}
use work_behavior_analytics.Prelude.Dict.{lookup, insert}
use work_behavior_analytics.Persons.Graph.{Store, IdentityMapping, MapsTo}
use work_behavior_analytics.Persons.Cache.{PersonCache, Session}
use work_behavior_analytics.Persons.Resolve.{person, get_or_create_person}
use work_behavior_analytics.Persons.Identities.{
  Mapping, pending_of, add, queue_identity_mapping, flush_identity_mappings, flush_each,
  after_flush,
}
use work_behavior_analytics.Sink.Handlers.{Signal}
use work_behavior_analytics.Sink.Upsert.{
  PersonMapping, provider_mappings, sighting_of, mapping_of, Sink, Stored, stored, failed, rehomed,
  stored_if, relate, handle_person, flushed, finish, upsert_signal,
}

module _ (store : Store) where
  open store use {Graph, merge_identity_mapping}

  -- Stored under this id with this queue of identity mappings, or an exception.
  abbrev As : String → PersonCache → Stored store × Session store → Type 0
  As id c (failed, t) = Unit
  As id c (stored none, t) = ⊥
  As id c (stored (some i), t) = (i ≡ id) × (t.cache ≡ c)

  -- The last write of the graph was this identity mapping.
  abbrev pub IsWritten : IdentityMapping × MapsTo → Graph → Type 0
  IsWritten (identity, rel) g =
      (before : Graph) × (merge_identity_mapping before identity rel ≡ (true, g))

  -- The same with no mapping left to write, and the one of the signal written, unless the person had
  -- one written before.
  abbrev pub Canonical : String → Mapping → PersonCache → Stored store × Session store → Type 0
  Canonical id mapping c (failed, t) = Unit
  Canonical id mapping c (stored none, t) = ⊥
  Canonical id mapping c (stored (some i), t) =
      (i ≡ id)
      × (t.cache.pending ≡ [])
      × ((contains c.flushed mapping.person_id ≡ true) ⊎ IsWritten (pending_of mapping) t.graph)

  stored_if-As :
      (t : Session store) (id : String) (written : Bool × Graph)
      → As id t.cache (stored_if store t id written)
  stored_if-As t id (false, g) = tt
  stored_if-As t id (true, g) = (refl, refl)

  relate-As :
      (sink : Sink store) (later : String) (s : Signal) (m : PersonMapping) (id : String)
      (t : Session store) (rehome : Bool × Graph)
      → As id
          (queue_identity_mapping t.cache (mapping_of later s m id))
          (relate store sink later s m id t rehome)
  relate-As sink later s m id t (false, g) = tt
  relate-As sink later s m id t (true, g) =
      stored_if-As (record t { cache = queue_identity_mapping t.cache (mapping_of later s m id) })
        id _

  nothing-Canonical :
      (t : Session store) (id : String) (mapping : Mapping) (c : PersonCache)
      → t.cache.pending ≡ []
      → contains c.flushed mapping.person_id ≡ true
      → Canonical id mapping c (
          flushed store id
            (after_flush store t (flush_each store t.cache.pending t.cache.flushed t.graph)))
  unfolding flush_each
  nothing-Canonical t id mapping c e h = rw e (refl, refl, inl h)

  one-Canonical :
      (t : Session store) (id : String) (mapping : Mapping) (c : PersonCache)
      → t.cache.pending ≡ (mapping.identity_id, pending_of mapping) ∷ []
      → Canonical id mapping c (
          flushed store id
            (after_flush store t (flush_each store t.cache.pending t.cache.flushed t.graph)))
  unfolding flush_each
  one-Canonical t id mapping c e =
      subst
        (λ d.
          Canonical id mapping c
            (flushed store id (after_flush store t (flush_each store d t.cache.flushed t.graph))))
        (sym e)
        (by_write (merge_identity_mapping t.graph (pending_of mapping).0 (pending_of mapping).1)
          refl)
    where
      by_write :
          (written : Bool × Graph)
          → merge_identity_mapping t.graph (pending_of mapping).0 (pending_of mapping).1 ≡ written
          → Canonical id mapping c (
              flushed store id (
                after_flush store t (
                  if written.0
                  then (true, add t.cache.flushed mapping.person_id, written.1)
                  else (false, t.cache.flushed, written.1))))
      by_write (true, g) w = (refl, refl, inr (t.graph, w))
      by_write (false, g) w = tt

  queued-Canonical :
      (t : Session store) (id : String) (mapping : Mapping) (c : PersonCache)
      → c.pending ≡ []
      → t.cache ≡ queue_identity_mapping c mapping
      → Canonical id mapping c (
          flushed store id
            (after_flush store t (flush_each store t.cache.pending t.cache.flushed t.graph)))
  unfolding queue_identity_mapping lookup insert
  queued-Canonical t id mapping c e q = elim (Bool-cases (contains c.flushed mapping.person_id)) [
    | inl h ↦
        nothing-Canonical t id mapping c
          (subst (λ d. t.cache.pending ≡ d.pending) (queued_known h) (ap (λ d. d.pending) q) ∙ e) h
    | inr h ↦ one-Canonical t id mapping c (ap (λ d. d.pending) q ∙ queued_new h)
  ]
    where
      queued_known :
          contains c.flushed mapping.person_id ≡ true → queue_identity_mapping c mapping ≡ c
      queued_known h = rw (e, h) refl

      queued_new :
          contains c.flushed mapping.person_id ≡ false
          → (queue_identity_mapping c mapping).pending
            ≡ (mapping.identity_id, pending_of mapping) ∷ []
      queued_new h =
          let new : is_some (lookup c.pending mapping.identity_id) ≡ false =
            ap (λ d. is_some (lookup d mapping.identity_id)) e in
          rw (new, h) (ap (λ d. insert d mapping.identity_id (pending_of mapping)) e)

  finish-Canonical :
      (s : Signal) (id : String) (mapping : Mapping) (c : PersonCache)
      (r : Stored store × Session store)
      → is_empty id ≡ false
      → c.pending ≡ []
      → As id (queue_identity_mapping c mapping) r
      → Canonical id mapping c (finish store s r)
  unfolding flush_identity_mappings
  finish-Canonical s id mapping c (failed, t) given e h = tt
  finish-Canonical s id mapping c (stored none, t) given e h = absurd h
  finish-Canonical s id mapping c (stored (some i), t) given e h =
      rw (h.0, given) (queued-Canonical t id mapping c e h.1)

  -- For a person of GitHub, Jira or Confluence whom the cache resolves to an id that is not empty, with no
  -- identity mapping left to write by then, `upsert_signal` gives back this id, not the one of the signal;
  -- then no identity mapping is left to write, and its last write to the graph was the signal's identity
  -- mapping, unless the cache had written one of this person before; or it raises.
  pub upsert_signal-Canonical :
      (sink : Sink store) (now later id : String) (is_new : Bool) (s : Signal) (m : PersonMapping)
      (t t' : Session store)
      → s.entity_type ≡ "Person"
      → lookup provider_mappings s.source ≡ some m
      → get_or_create_person store t (sighting_of now s m) ≡ (person id is_new, t')
      → is_empty id ≡ false
      → t'.cache.pending ≡ []
      → Canonical id (mapping_of later s m id) t'.cache (upsert_signal store sink now later s t)
  unfolding upsert_signal handle_person
  upsert_signal-Canonical sink now later id is_new s m t t' type mapped resolved given e =
      rw ((eq_iff s.entity_type "Person").1 type, mapped, resolved, given)
        (finish-Canonical s id (mapping_of later s m id) t'.cache
          (relate store sink later s m id t' (rehomed store s id t'.graph)) given e
          (relate-As sink later s m id t' (rehomed store s id t'.graph)))
