-- ===== src/Persons/Identities/Flush.antt =====
-- What a flush of src/connectors/commons/person_cache.py leaves behind.
use work_behavior_analytics.Prelude.{
  true, false, String, ◌≡◌, refl, inl, inr, some, List, [], ◌∷◌, arith, ◌==◌, text_key, contains,
  is_some, Bool-cases, same_refl,
}
use work_behavior_analytics.Prelude.Dict.{lookup}
use work_behavior_analytics.Persons.Graph.{Store, IdentityMapping, MapsTo}
use work_behavior_analytics.Persons.Cache.{PersonCache, Session}
use work_behavior_analytics.Persons.Identities.{
  Mapping, queue_identity_mapping, add, Flushed, flush_each, after_flush, flush_identity_mappings,
}

add-contains_self : (xs : List String) (x : String) → contains (add xs x) x ≡ true
add-contains_self xs x = ground (arith, same_refl x)

add-contains :
    (xs : List String) (x y : String) → contains xs y ≡ true → contains (add xs x) y ≡ true
add-contains xs x y h = ground arith

module _ (store : Store) where
  pub record Keeps (x : String) (r : Flushed store) : Type 0 where
    pub kept : contains r.1 x ≡ true

  flush_each-Keeps :
      (d : List (String × (IdentityMapping × MapsTo))) (flushed : List String) (g : store.Graph)
      (x : String)
      → contains flushed x ≡ true
      → Keeps x (flush_each store d flushed g)
  unfolding flush_each
  flush_each-Keeps [] flushed g x h = record { kept = h }
  flush_each-Keeps ((i, (identity, rel)) ∷ rest) flushed g x h =
      elim (Bool-cases (store.merge_identity_mapping g identity rel).0) [
        | inl written ↦ rw written (
            flush_each-Keeps rest (add flushed rel.to_id)
              (store.merge_identity_mapping g identity rel).1 x
              (add-contains flushed rel.to_id x h))
        | inr failed ↦ rw failed (record { kept = h })
      ]

  pub record Covers (x : String) (r : Flushed store) : Type 0 where
    pub covered : r.0 ≡ true → contains r.1 x ≡ true

  flush_each-Covers :
      (d : List (String × (IdentityMapping × MapsTo))) (flushed : List String) (g : store.Graph)
      (i : String)
      → (im : IdentityMapping) (rel : MapsTo) → lookup d i ≡ some (im, rel)
      → Covers rel.to_id (flush_each store d flushed g)
  unfolding flush_each lookup
  flush_each-Covers [] flushed g i im rel h = cc
  flush_each-Covers ((j, (identity, rel')) ∷ rest) flushed g i im rel h =
      elim (Bool-cases (store.merge_identity_mapping g identity rel').0) [
        | inr failed ↦ rw failed (record { covered = λ e. cc })
        | inl written ↦ rw written (elim (Bool-cases (j == i)) [
          | inl here ↦ record {
            covered = λ e.
                (flush_each-Keeps rest (add flushed rel'.to_id)
                  (store.merge_identity_mapping g identity rel').1 rel.to_id
                  (ground (arith, add-contains_self flushed rel'.to_id))).kept;
          }
          | inr there ↦
              flush_each-Covers rest (add flushed rel'.to_id)
                (store.merge_identity_mapping g identity rel').1 i im rel (rw there at h)
        ])
      ]

queue-flushed :
    (c : PersonCache) (m : Mapping)
    → contains c.flushed m.person_id ≡ true
    → queue_identity_mapping c m ≡ c
unfolding queue_identity_mapping
queue-flushed c m h = elim (Bool-cases (is_some (lookup c.pending m.identity_id))) [
  | inl pending ↦ rw pending refl
  | inr new ↦ rw (new, h) refl
]

module _ (store : Store) where
  after_flush-queued :
      (s : Session store) (r : Flushed store) (rel : MapsTo) (m : Mapping)
      → (after_flush store s r).0 ≡ true
      → Covers store rel.to_id r
      → m.person_id ≡ rel.to_id
      → ((after_flush store s r).1.cache.pending ≡ [])
        × (queue_identity_mapping (after_flush store s r).1.cache m
            ≡ (after_flush store s r).1.cache)
  after_flush-queued s (false, flushed, g) rel m ok h to = cc
  after_flush-queued s (true, flushed, g) rel m ok h to = (
    refl,
    queue-flushed (record s.cache { flushed = flushed; pending = [] }) m (rw to (h.covered refl)),
  )

  -- A flush that succeeds clears what is pending, and then every person that was waiting counts as
  -- flushed: to queue any identity for that person again changes nothing.
  pub flush_identity_mappings-queued :
      (s : Session store) (i : String) (im : IdentityMapping) (rel : MapsTo) (m : Mapping)
      → (flush_identity_mappings store s).0 ≡ true
      → lookup s.cache.pending i ≡ some (im, rel)
      → m.person_id ≡ rel.to_id
      → ((flush_identity_mappings store s).1.cache.pending ≡ [])
        × (queue_identity_mapping (flush_identity_mappings store s).1.cache m
            ≡ (flush_identity_mappings store s).1.cache)
  unfolding flush_identity_mappings
  flush_identity_mappings-queued s i im rel m ok found to =
      after_flush-queued s (flush_each store s.cache.pending s.cache.flushed s.graph) rel m ok
        (flush_each-Covers store s.cache.pending s.cache.flushed s.graph i im rel found) to
