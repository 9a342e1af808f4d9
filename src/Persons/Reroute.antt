-- ===== src/Persons/Reroute.antt =====
-- After a reroute (`_reroute_to_email_owner` of src/connectors/commons/person_cache.py) the stale person
-- is nowhere left in the caches.
use work_behavior_analytics.Prelude.{
  Bool, true, false, String, ◌≡◌, refl, inl, inr, Option, none, some, List, [], ◌∷◌, arith, ◌==◌,
  eq_iff, Key as Comparable, text_key, pair_key, contains, Bool-cases, Option-cases,
}
use work_behavior_analytics.Prelude.Dict.{Dict, lookup, insert, lookup-insert, lookup-insert_self}
use work_behavior_analytics.Persons.Graph.{Store, IdentityMapping, MapsTo}
use work_behavior_analytics.Persons.Cache.{
  PersonCache, Sighting, rename, rename_pending, discard, Session, with_cache, query,
}
use work_behavior_analytics.Persons.Resolve.{
  purge, after_rehome, reroute_to, reroute_to_email_owner,
}

-- No key leads to `stale`.
abbrev pub Absent {ℓ} : {K : Type ℓ} ⦃key : Comparable K⦄ → String → Dict K String → Type ℓ
Absent {K = K} stale d = (k : K) → ¬ (lookup d k ≡ some stale)

abbrev pub AbsentTarget : String → Dict String (IdentityMapping × MapsTo) → Type 0
AbsentTarget stale d =
    (k : String) (im : IdentityMapping) (rel : MapsTo)
    → lookup d k ≡ some (im, rel)
    → ¬ (rel.to_id ≡ stale)

-- The caches and what is pending no longer name `stale`, and the email leads to the owner.
pub record Purged (stale owner email : String) (c : PersonCache) : Type 0 where
  pub distinct : ¬ (owner ≡ stale)
  pub keys : Absent stale c.provider_cache
  pub accounts : Absent stale c.account_cache
  pub emails : Absent stale c.email_cache
  pub pending : AbsentTarget stale c.pending
  pub flushed : contains c.flushed stale ≡ false
  pub leads : lookup c.email_cache email ≡ some owner

rename-Absent {ℓ} :
    {K : Type ℓ} ⦃key : Comparable K⦄ (stale owner : String) (d : Dict K String)
    → ¬ (owner ≡ stale)
    → Absent stale (rename stale owner d)
unfolding lookup rename
rename-Absent stale owner [] n k h = cc
rename-Absent ⦃key⦄ stale owner ((j, v) ∷ d) n k h =
    ground (arith, eq_iff v stale, rename-Absent stale owner d n k)

insert-Absent {ℓ} :
    {K : Type ℓ} ⦃key : Comparable K⦄ (stale owner : String) (d : Dict K String) (k : K)
    → ¬ (owner ≡ stale)
    → Absent stale d
    → Absent stale (insert d k owner)
insert-Absent ⦃key⦄ stale owner d k n absent j h =
    ground (arith, lookup-insert d k j owner, absent j)

rename_pending-AbsentTarget :
    (stale owner : String) (d : Dict String (IdentityMapping × MapsTo))
    → ¬ (owner ≡ stale)
    → AbsentTarget stale (rename_pending stale owner d)
unfolding lookup rename_pending
rename_pending-AbsentTarget stale owner [] n k im rel h = cc
rename_pending-AbsentTarget stale owner ((j, (identity, r)) ∷ d) n k im rel h =
    ground (arith, eq_iff r.to_id stale, rename_pending-AbsentTarget stale owner d n k im rel)

discard-contains : (xs : List String) (x : String) → contains (discard xs x) x ≡ false
discard-contains [] x = refl
discard-contains (y ∷ xs) x = ground (arith, discard-contains xs x)

purge-Purged :
    (c : PersonCache) (stale owner email : String)
    → ¬ (owner ≡ stale)
    → Purged stale owner email (purge c stale owner email)
purge-Purged c stale owner email n = record {
  distinct = n;
  keys = rename-Absent stale owner c.provider_cache n;
  accounts = rename-Absent stale owner c.account_cache n;
  emails =
      insert-Absent stale owner (rename stale owner c.email_cache) email n
        (rename-Absent stale owner c.email_cache n);
  pending = rename_pending-AbsentTarget stale owner c.pending n;
  flushed = discard-contains c.flushed stale;
  leads = lookup-insert_self (rename stale owner c.email_cache) email owner;
}

module _ (store : Store) (p : Sighting) (stale email : String) where
  record PurgesOn (r : Option String × Session store) : Type 0 where
    purges : (owner : String) → r.0 ≡ some owner → Purged stale owner email r.1.cache

  after_rehome-PurgesOn :
      (s : Session store) (owner : String) (r : Bool × store.Graph)
      → ¬ (owner ≡ stale)
      → PurgesOn (after_rehome store s p stale owner email r)
  after_rehome-PurgesOn s owner (false, g) n = record { purges = λ o e. cc }
  after_rehome-PurgesOn s owner (true, g) n = record {
    purges =
        λ o e. let same : owner ≡ o = cc in rw (← same) (purge-Purged s.cache stale owner email n);
  }

  reroute_to-PurgesOn :
      (s : Session store) (o : Option String) → PurgesOn (reroute_to store s p stale email o)
  reroute_to-PurgesOn s none = record { purges = λ o e. cc }
  reroute_to-PurgesOn s (some owner) = elim (Bool-cases (owner == stale)) [
    | inl same ↦ rw same (record { purges = λ o e. cc })
    | inr other ↦ rw other (
        after_rehome-PurgesOn s owner (store.rehome_person s.graph stale owner)
          (ground (arith, eq_iff owner stale)))
  ]

  reroute-PurgesOn : (s : Session store) → PurgesOn (reroute_to_email_owner store s p stale email)
  unfolding reroute_to_email_owner
  reroute-PurgesOn s = elim (Option-cases (lookup s.cache.email_cache email)) [
    | inl absent ↦
        rw (absent, reroute_to_email_owner)
          (reroute_to-PurgesOn (with_cache store s (query s.cache)) _)
    | inr (owner, found) ↦ rw (found, reroute_to_email_owner) (reroute_to-PurgesOn s (some owner))
  ]

-- When a reroute gives an owner, it is not the stale person, the email cache leads to it from the
-- email, and the stale person is nowhere left: not in the three caches, not among the flushed persons
-- and not as the person of a pending identity mapping.
pub reroute_to_email_owner-Purged :
    (store : Store) (s : Session store) (p : Sighting) (stale email owner : String)
    → (reroute_to_email_owner store s p stale email).0 ≡ some owner
    → Purged stale owner email (reroute_to_email_owner store s p stale email).1.cache
reroute_to_email_owner-Purged store s p stale email owner e =
    (reroute-PurgesOn store p stale email s).purges owner e
