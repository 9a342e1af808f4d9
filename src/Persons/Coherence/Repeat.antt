-- ===== src/Persons/Coherence/Repeat.antt =====
-- A second call of `get_or_create_person` (src/connectors/commons/person_cache.py) for the same person.
use work_behavior_analytics.Prelude.{
  Bool, false, String, ◌≡◌, refl, Option, none, some, text_key, pair_key, same_refl,
}
use work_behavior_analytics.Persons.Graph.{Store}
use work_behavior_analytics.Persons.Cache.{PersonCache, Sighting, hit, Session, truthy}
use work_behavior_analytics.Persons.Resolve.{
  person, Key, provider_hit, resolve, key_of, get_or_create_person,
}
use work_behavior_analytics.Persons.Remembered.{Remembers, EmailLeads}
use work_behavior_analytics.Persons.Coherence.{resolve-Remembers}

module _ (store : Store) (p : Sighting) (id : String) where
  hit_remembered :
      (s : Session store) (email : Option String)
      → EmailLeads s.cache email id
      → ((provider_hit store s p email id).0 ≡ person id false)
        × ((provider_hit store s p email id).1.cache ≡ hit s.cache)
  unfolding provider_hit
  hit_remembered s none e = (refl, refl)
  hit_remembered s (some email) e = rw (e, same_refl id) (refl, refl)

  resolve_remembered :
      (s : Session store) (k : Key)
      → Remembers s.cache k id
      → ((resolve store s p k).0 ≡ person id false) × ((resolve store s p k).1.cache ≡ hit s.cache)
  unfolding resolve
  resolve_remembered s k r = rw (r.by_key, resolve) (hit_remembered s k.email r.by_email)

same_key :
    (p p' : Sighting) (provider external_id id : String) (c : PersonCache)
    → p'.email ≡ p.email
    → Remembers c (key_of p provider external_id) id
    → Remembers c (key_of p' provider external_id) id
same_key p p' provider external_id id c se r = record {
  by_key = r.by_key;
  by_email = rw se r.by_email;
}

-- After a call has answered with a person, a call with the same provider, external id and email gives
-- that person, as not new, and costs one cache hit and no database query: the caches do not change.
pub get_or_create_person_again :
    (store : Store) (s : Session store) (p p' : Sighting) (provider external_id id : String)
    (is_new : Bool)
    → truthy p.provider ≡ some provider
    → truthy p.external_id ≡ some external_id
    → p'.provider ≡ p.provider
    → p'.external_id ≡ p.external_id
    → p'.email ≡ p.email
    → (get_or_create_person store s p).0 ≡ person id is_new
    → ((get_or_create_person store (get_or_create_person store s p).1 p').0 ≡ person id false)
      × ((get_or_create_person store (get_or_create_person store s p).1 p').1.cache
          ≡ hit (get_or_create_person store s p).1.cache)
unfolding get_or_create_person
get_or_create_person_again store s p p' provider external_id id is_new hp hx sp sx se e =
    rw (sp, sx, hp, hx)
      (resolve_remembered store p' id (resolve store s p (key_of p provider external_id)).1
        (key_of p' provider external_id)
        (same_key p p' provider external_id id _ se (
          resolve-Remembers store s p (key_of p provider external_id) id is_new
            (rw (hp, hx, get_or_create_person) at e))))
