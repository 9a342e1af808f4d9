-- ===== src/Persons/Coherence.antt =====
-- What the caches hold after `get_or_create_person` (src/connectors/commons/person_cache.py), and a
-- second call for the same key.
pub mod Repeat
use work_behavior_analytics.Prelude.{
  ℕ, ◌+◌, Bool, true, false, not, String, ◌≡◌, refl, ap, ◌∙◌, sym, ◌⊎◌, inl, inr, Option, none,
  some, List, [], ◌∷◌, arith, ◌==◌, eq_iff, Key as Comparable, text_key, pair_key, if◌then◌else◌,
  is_some, Bool-cases, Option-cases, same_refl,
}
use mathlib.Core.Path.{subst}
use work_behavior_analytics.Prelude.Dict.{Dict, lookup, insert, lookup-insert, lookup-insert_self}
use work_behavior_analytics.Persons.Graph.{Store, Person, wba_format}
use work_behavior_analytics.Persons.Cache.{
  PersonCache, Sighting, truthy, hit, miss, query, put_some, remember, rename, Session, with_cache,
  person_of, try_merge,
}
use work_behavior_analytics.Persons.Resolve.{
  Answer, person, raised, Key, cache_key, purge, after_rehome, reroute_to, reroute_to_email_owner,
  keep_or_reroute, is_owner, provider_hit, email_hit, after_merge, merge_and_remember, by_own_id,
  lookup_by_atlassian_account, by_account_query, by_account_cache, by_account_if, by_account,
  by_email_query, cached_email, by_email_cache, resolve, key_of, resolve_with, get_or_create_person,
}
use work_behavior_analytics.Persons.Remembered.{
  EmailLeads, Remembers, lookup-rename, remember-Remembers, Leads, is_owner-eq,
}

module _ (store : Store) (p : Sighting) (k : Key) where
  pub record Holds (r : Answer × Session store) : Type 0 where
    pub leads : Leads k r.0 r.1.cache

  after_merge-Holds :
      (s : Session store) (id : String) (is_new : Bool) (r : Bool × store.Graph)
      → Holds (after_merge store s k id is_new r)
  after_merge-Holds s id is_new (false, g) = record { leads = tt }
  after_merge-Holds s id is_new (true, g) = record {
    leads = remember-Remembers s.cache k k.account id;
  }

  merge_and_remember-Holds :
      (s : Session store) (id : String) (is_new : Bool)
      → Holds (merge_and_remember store s p k id is_new)
  unfolding merge_and_remember
  merge_and_remember-Holds s id is_new =
      after_merge-Holds s id is_new (store.merge_person s.graph (person_of store p id k.email))

  by_own_id-Holds : (s : Session store) → Holds (by_own_id store s p k)
  unfolding by_own_id
  by_own_id-Holds s = merge_and_remember-Holds _ _ _

  by_account_query-Holds :
      (s : Session store) (account : String) → Holds (by_account_query store s p k account)
  unfolding by_account_query
  by_account_query-Holds s account =
      elim (Option-cases (truthy (lookup_by_atlassian_account store s.graph account))) [
        | inl absent ↦
            rw (absent, by_account_query) (by_own_id-Holds (with_cache store s (query s.cache)))
        | inr (id, found) ↦
            rw (found, by_account_query)
              (merge_and_remember-Holds (with_cache store s (query s.cache)) id false)
      ]

  by_account_cache-Holds :
      (s : Session store) (account : String) → Holds (by_account_cache store s p k account)
  unfolding by_account_cache
  by_account_cache-Holds s account = elim (Option-cases (lookup s.cache.account_cache account)) [
    | inl absent ↦ rw (absent, by_account_cache) (by_account_query-Holds s account)
    | inr (id, found) ↦
        rw (found, by_account_cache) (record { leads = remember-Remembers (hit s.cache) k none id })
  ]

  by_account_if-Holds :
      (s : Session store) (atlassian : Bool) (account : Option String)
      → Holds (by_account_if store s p k atlassian account)
  by_account_if-Holds s true (some account) = by_account_cache-Holds s account
  by_account_if-Holds s true none = by_own_id-Holds s
  by_account_if-Holds s false account = by_own_id-Holds s

  by_account-Holds : (s : Session store) → Holds (by_account store s p k)
  unfolding by_account
  by_account-Holds s = by_account_if-Holds s _ _

  by_email_query-Holds :
      (s : Session store) (email : Option String) → Holds (by_email_query store s p k email)
  unfolding by_email_query
  by_email_query-Holds s none = by_account-Holds s
  by_email_query-Holds s (some email) = elim (Option-cases (store.person_by_email s.graph email)) [
    | inl absent ↦
        rw (absent, by_email_query) (by_account-Holds (with_cache store s (query s.cache)))
    | inr (id, found) ↦
        rw (found, by_email_query)
          (merge_and_remember-Holds (with_cache store s (query s.cache)) id false)
  ]

  email_kept :
      (c : PersonCache) (account : Option String) (id : String) (email : Option String)
      → cached_email c email ≡ some id
      → EmailLeads (remember c (cache_key k) none account id) email id
  email_kept c account id none e = cc
  email_kept c account id (some email) e = e

  by_email_cache-Holds :
      (s : Session store) (o : Option String)
      → cached_email s.cache k.email ≡ o
      → Holds (by_email_cache store s p k o)
  unfolding email_hit
  by_email_cache-Holds s none e = by_email_query-Holds (with_cache store s (miss s.cache)) k.email
  by_email_cache-Holds s (some id) e = record {
    leads = record {
      by_key = lookup-insert_self s.cache.provider_cache (cache_key k) id;
      by_email = email_kept s.cache k.account id k.email e;
    };
  }

  module _ (id : String) (email : String) where
    abbrev pub LeadsBoth : Option String → Session store → Type 0
    LeadsBoth none s = lookup s.cache.provider_cache (cache_key k) ≡ some id
    LeadsBoth (some owner) s =
        (lookup s.cache.provider_cache (cache_key k) ≡ some owner)
        × (lookup s.cache.email_cache email ≡ some owner)

    after_rehome-leads :
        (s : Session store) (owner : String) (r : Bool × store.Graph)
        → lookup s.cache.provider_cache (cache_key k) ≡ some id
        → LeadsBoth
            (after_rehome store s p id owner email r).0
            (after_rehome store s p id owner email r).1
    after_rehome-leads s owner (false, g) h = h
    after_rehome-leads s owner (true, g) h = (
      lookup-rename id owner s.cache.provider_cache (cache_key k) h,
      lookup-insert_self (rename id owner s.cache.email_cache) email owner,
    )

    record Rerouted (r : Option String × Session store) : Type 0 where
      leads : LeadsBoth r.0 r.1

    reroute_to-Rerouted :
        (s : Session store) (o : Option String)
        → lookup s.cache.provider_cache (cache_key k) ≡ some id
        → Rerouted (reroute_to store s p id email o)
    reroute_to-Rerouted s none h = record { leads = h }
    reroute_to-Rerouted s (some owner) h = elim (Bool-cases (owner == id)) [
      | inl same ↦ rw same (record { leads = h })
      | inr other ↦
          rw other
            (record { leads = after_rehome-leads s owner (store.rehome_person s.graph id owner) h })
    ]

    reroute-Rerouted :
        (s : Session store)
        → lookup s.cache.provider_cache (cache_key k) ≡ some id
        → Rerouted (reroute_to_email_owner store s p id email)
    unfolding reroute_to_email_owner
    reroute-Rerouted s h = elim (Option-cases (lookup s.cache.email_cache email)) [
      | inl absent ↦
          rw (absent, reroute_to_email_owner)
            (reroute_to-Rerouted (with_cache store s (query s.cache)) _ h)
      | inr (owner, found) ↦
          rw (found, reroute_to_email_owner) (reroute_to-Rerouted s (some owner) h)
    ]

    keep-leads :
        (o : Option String) (s : Session store)
        → LeadsBoth o s
        → (answer : String) × ((keep_or_reroute store p id email (o, s)).0 ≡ person answer false)
          × (lookup (keep_or_reroute store p id email (o, s)).1.cache.provider_cache (cache_key k)
              ≡ some answer)
          × (lookup (keep_or_reroute store p id email (o, s)).1.cache.email_cache email
              ≡ some answer)
    keep-leads none s h = (id, refl, h, lookup-insert_self s.cache.email_cache email id)
    keep-leads (some owner) s h = (owner, refl, h.0, h.1)

  module _ (id : String) (s : Session store)
      (cached : lookup s.cache.provider_cache (cache_key k) ≡ some id) where
    abbrev Hit : Option String → Answer × Session store → Type 0
    Hit email r =
        (answer : String) × (r.0 ≡ person answer false)
        × (lookup r.1.cache.provider_cache (cache_key k) ≡ some answer)
        × EmailLeads r.1.cache email answer

    record IsHit (email : Option String) (r : Answer × Session store) : Type 0 where
      at : Hit email r

    kept :
        (email : String) (r : Option String × Session store)
        → Rerouted id email r
        → IsHit (some email) (keep_or_reroute store p id email r)
    kept email (o, s') h = record { at = keep-leads id email o s' h.leads }

    provider_hit-IsHit : (email : Option String) → IsHit email (provider_hit store s p email id)
    unfolding provider_hit
    provider_hit-IsHit none = record { at = (id, refl, cached, tt) }
    provider_hit-IsHit (some email) =
        elim (Bool-cases (is_owner (lookup s.cache.email_cache email) id)) [
          | inl same ↦
              rw (same, provider_hit)
                (record {
                  at = (id, refl, cached, is_owner-eq (lookup s.cache.email_cache email) id same);
                })
          | inr other ↦
              rw (other, provider_hit)
                (kept email _ (reroute-Rerouted id email (with_cache store s (hit s.cache)) cached))
        ]

    hit-Leads :
        (answer : String) (r : Answer × Session store)
        → r.0 ≡ person answer false
        → (lookup r.1.cache.provider_cache (cache_key k) ≡ some answer)
        → EmailLeads r.1.cache k.email answer
        → Leads k r.0 r.1.cache
    hit-Leads answer r e by_key by_email = rw e (record { by_key = by_key; by_email = by_email })

    IsHit-Holds : (r : Answer × Session store) → IsHit k.email r → Holds r
    IsHit-Holds r h = record { leads = hit-Leads h.at.0 r h.at.1 h.at.2 h.at.3 }

  pub resolve-Holds : (s : Session store) → Holds (resolve store s p k)
  unfolding resolve
  resolve-Holds s = elim (Option-cases (lookup s.cache.provider_cache (cache_key k))) [
    | inl absent ↦ rw (absent, resolve) (by_email_cache-Holds s (cached_email s.cache k.email) refl)
    | inr (id, found) ↦
        rw (found, resolve) (IsHit-Holds id s found _ (provider_hit-IsHit id s found k.email))
  ]

-- Whenever a call answers with a person, the provider cache leads from its key, and the email cache
-- from its email where it has one, to that person: also after a reroute.
pub resolve-Remembers :
    (store : Store) (s : Session store) (p : Sighting) (k : Key) (id : String) (is_new : Bool)
    → (resolve store s p k).0 ≡ person id is_new
    → Remembers (resolve store s p k).1.cache k id
resolve-Remembers store s p k id is_new e =
    subst (λ a. Leads k a (resolve store s p k).1.cache) e (resolve-Holds store p k s).leads
