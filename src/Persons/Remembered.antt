-- ===== src/Persons/Remembered.antt =====
-- What it means that the caches of src/connectors/commons/person_cache.py lead to a person.
use work_behavior_analytics.Prelude.{
  true, String, ◌≡◌, inl, inr, Option, none, some, [], ◌∷◌, arith, eq_iff, Key as Comparable,
  text_key, pair_key, Bool-cases, same_refl,
}
use work_behavior_analytics.Prelude.Dict.{Dict, lookup, lookup-insert_self}
use work_behavior_analytics.Persons.Cache.{PersonCache, remember, rename}
use work_behavior_analytics.Persons.Resolve.{Answer, person, raised, Key, cache_key, is_owner}

-- The email, where there is one, leads to `id`.
abbrev pub EmailLeads : PersonCache → Option String → String → Type 0
EmailLeads c none id = Unit
EmailLeads c (some email) id = lookup c.email_cache email ≡ some id

-- The caches lead from the key of a call to `id`.
pub record Remembers (c : PersonCache) (k : Key) (id : String) : Type 0 where
  pub by_key : lookup c.provider_cache (cache_key k) ≡ some id
  pub by_email : EmailLeads c k.email id

pub lookup-rename {ℓ} :
    {K : Type ℓ} ⦃key : Comparable K⦄ (stale owner : String) (d : Dict K String) (k : K)
    → lookup d k ≡ some stale
    → lookup (rename stale owner d) k ≡ some owner
unfolding lookup rename
lookup-rename stale owner [] k h = cc
lookup-rename ⦃key⦄ stale owner ((j, v) ∷ d) k h = elim (Bool-cases (key.same j k)) [
  | inl here ↦ ground (arith, eq_iff v stale, same_refl stale)
  | inr there ↦ rw there (lookup-rename stale owner d k (rw there at h))
]

pub remember-Remembers :
    (c : PersonCache) (k : Key) (account : Option String) (id : String)
    → Remembers (remember c (cache_key k) k.email account id) k id
remember-Remembers c k account id = record {
  by_key = lookup-insert_self c.provider_cache (cache_key k) id;
  by_email = leads k.email;
}
  where
    leads :
        (email : Option String) → EmailLeads (remember c (cache_key k) email account id) email id
    leads none = tt
    leads (some email) = lookup-insert_self c.email_cache email id

abbrev pub Leads : Key → Answer → PersonCache → Type 0
Leads k raised c = Unit
Leads k (person id is_new) c = Remembers c k id

pub is_owner-eq : (o : Option String) (id : String) → is_owner o id ≡ true → o ≡ some id
is_owner-eq none id h = cc
is_owner-eq (some owner) id h = ground (arith, eq_iff owner id)
