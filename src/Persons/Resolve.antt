-- ===== src/Persons/Resolve.antt =====
-- `get_or_create_person` of src/connectors/commons/person_cache.py, step by step: each step answers,
-- or hands the session on to the next.
use work_behavior_analytics.Prelude.{
  Bool, true, false, not, String, Option, none, some, [], ◌∷◌, ◌==◌, text_key, pair_key,
  if◌then◌else◌, is_some,
}
use work_behavior_analytics.Prelude.Dict.{lookup, insert}
use work_behavior_analytics.Persons.Graph.{Store, wba_format}
use work_behavior_analytics.Persons.Cache.{
  PersonCache, Sighting, truthy, is_atlassian, account_or, hit, miss, query, remember, rename,
  rename_pending, discard, Session, with_cache, person_of, try_merge,
}

-- What a call gives: `(person_id, is_new)`, or an exception.
pub data Answer : Type 0 where
  person : String → Bool → Answer
  raised : Answer

-- The key, the email and the account of a call, with their empty values taken for none.
pub record Key : Type 0 where
  pub provider : String
  pub external_id : String
  pub email : Option String
  pub account : Option String

abbrev pub cache_key : Key → String × String
cache_key k = (k.provider, k.external_id)

-- The caches after a reroute: `stale` is nowhere left.
abbrev pub purge : PersonCache → String → String → String → PersonCache
purge c stale owner email = record c {
  provider_cache = rename stale owner c.provider_cache;
  account_cache = rename stale owner c.account_cache;
  email_cache = insert (rename stale owner c.email_cache) email owner;
  flushed = discard c.flushed stale;
  pending = rename_pending stale owner c.pending;
}

-- Whether `self._email_cache.get(email) == person_id`.
abbrev pub is_owner : Option String → String → Bool
is_owner none id = false
is_owner (some owner) id = owner == id

abbrev pub cached_email : PersonCache → Option String → Option String
cached_email c none = none
cached_email c (some email) = lookup c.email_cache email

abbrev pub key_of : Sighting → String → String → Key
key_of p provider external_id = record {
  provider = provider;
  external_id = external_id;
  email = truthy p.email;
  account = account_or (is_atlassian provider) (truthy p.account_id) external_id;
}

module _ (store : Store) where
  open store use {
    Graph, person_by_email, person_by_identity, person_by_ids, merge_person, rehome_person,
  }

  abbrev pub after_rehome :
      Session store
      → Sighting
      → String
      → String
      → String
      → Bool × Graph
      → Option String × Session store
  after_rehome s p stale owner email (false, g) = (none, record s { graph = g })
  after_rehome s p stale owner email (true, g) = (
    some owner,
    try_merge store (record { cache = purge s.cache stale owner email; graph = g }) p owner none,
  )

  abbrev pub reroute_to :
      Session store → Sighting → String → String → Option String → Option String × Session store
  reroute_to s p stale email none = (none, s)
  reroute_to s p stale email (some owner) =
      if owner == stale
      then (none, s)
      else after_rehome s p stale owner email (rehome_person s.graph stale owner)

  -- `_reroute_to_email_owner`: the owner is looked up in the cache, else in the database.
  unfoldable pub reroute_to_email_owner :
      Session store → Sighting → String → String → Option String × Session store
  reroute_to_email_owner s p stale email = elim (lookup s.cache.email_cache email) [
    | some owner ↦ reroute_to s p stale email (some owner)
    | none ↦
        reroute_to (with_cache store s (query s.cache)) p stale email
          (person_by_email s.graph email)
  ]

  abbrev pub keep_or_reroute :
      Sighting → String → String → Option String × Session store → Answer × Session store
  keep_or_reroute p id email (some owner, s) = (person owner false, s)
  keep_or_reroute p id email (none, s) =
      let c = record s.cache { email_cache = insert s.cache.email_cache email id } in
      (person id false, try_merge store (with_cache store s c) p id (some email))

  -- 1. The provider cache.
  unfoldable pub provider_hit :
      Session store → Sighting → Option String → String → Answer × Session store
  unfolding reroute_to_email_owner
  provider_hit s p none id =
      (person id false, try_merge store (with_cache store s (hit s.cache)) p id none)
  provider_hit s p (some email) id =
      let s' = with_cache store s (hit s.cache) in
      if is_owner (lookup s.cache.email_cache email) id
      then (person id false, try_merge store s' p id (some email))
      else keep_or_reroute p id email (reroute_to_email_owner s' p id email)

  -- 2. The email cache.
  unfoldable pub email_hit : Session store → Sighting → Key → String → Answer × Session store
  email_hit s p k id =
      let c = hit s.cache in
      let c' = remember c (cache_key k) none k.account id in
      (person id false, try_merge store (with_cache store s c') p id k.email)

  abbrev pub after_merge :
      Session store → Key → String → Bool → Bool × Graph → Answer × Session store
  after_merge s k id is_new (false, g) = (raised, record s { graph = g })
  after_merge s k id is_new (true, g) = (
    person id is_new,
    record { cache = remember s.cache (cache_key k) k.email k.account id; graph = g },
  )

  -- The merge and the three writes that steps 3, 5 and 6 end with.
  unfoldable pub merge_and_remember :
      Session store → Sighting → Key → String → Bool → Answer × Session store
  merge_and_remember s p k id is_new =
      after_merge s k id is_new (merge_person s.graph (person_of store p id k.email))

  -- 6. and 7. The provider-scoped node, found or created.
  unfoldable pub by_own_id : Session store → Sighting → Key → Answer × Session store
  unfolding merge_and_remember wba_format
  by_own_id s p k =
      let id = wba_format k.provider "Person" k.external_id in
      merge_and_remember (with_cache store s (query s.cache)) p k id
        (not (is_some (person_by_ids s.graph (id ∷ []))))

  -- `_lookup_by_atlassian_account`
  unfoldable pub lookup_by_atlassian_account : Graph → String → Option String
  unfolding wba_format
  lookup_by_atlassian_account g account =
      let identities =
        wba_format "jira" "IdentityMapping" account
        ∷ wba_format "confluence" "IdentityMapping" account
        ∷ [] in
      let persons =
        wba_format "jira" "Person" account ∷ wba_format "confluence" "Person" account ∷ [] in
      elim (person_by_identity g identities) [ some id ↦ some id | none ↦ person_by_ids g persons ]

  -- 5. The database by account id.
  unfoldable pub by_account_query : Session store → Sighting → Key → String → Answer × Session store
  unfolding by_own_id lookup_by_atlassian_account
  by_account_query s p k account =
      let s' = with_cache store s (query s.cache) in
      elim (truthy (lookup_by_atlassian_account s.graph account)) [
        | some id ↦ merge_and_remember s' p k id false
        | none ↦ by_own_id s' p k
      ]

  -- 4. The account cache.
  unfoldable pub by_account_cache : Session store → Sighting → Key → String → Answer × Session store
  unfolding by_account_query
  by_account_cache s p k account = elim (lookup s.cache.account_cache account) [
    | some id ↦ (
      person id false,
      try_merge store (with_cache store s (remember (hit s.cache) (cache_key k) k.email none id)) p
          id k.email,
    )
    | none ↦ by_account_query s p k account
  ]

  abbrev pub by_account_if :
      Session store → Sighting → Key → Bool → Option String → Answer × Session store
  by_account_if s p k true (some account) = by_account_cache s p k account
  by_account_if s p k true none = by_own_id s p k
  by_account_if s p k false account = by_own_id s p k

  unfoldable pub by_account : Session store → Sighting → Key → Answer × Session store
  unfolding by_account_cache
  by_account s p k = by_account_if s p k (is_atlassian k.provider) k.account

  -- 3. The database by email.
  unfoldable pub by_email_query :
      Session store → Sighting → Key → Option String → Answer × Session store
  unfolding by_account
  by_email_query s p k none = by_account s p k
  by_email_query s p k (some email) =
      let s' = with_cache store s (query s.cache) in
      elim (person_by_email s.graph email) [
        | some id ↦ merge_and_remember s' p k id false
        | none ↦ by_account s' p k
      ]

  abbrev pub by_email_cache :
      Session store → Sighting → Key → Option String → Answer × Session store
  by_email_cache s p k (some id) = email_hit s p k id
  by_email_cache s p k none = by_email_query (with_cache store s (miss s.cache)) p k k.email

  unfoldable pub resolve : Session store → Sighting → Key → Answer × Session store
  unfolding provider_hit email_hit by_email_query
  resolve s p k = elim (lookup s.cache.provider_cache (cache_key k)) [
    | some id ↦ provider_hit s p k.email id
    | none ↦ by_email_cache s p k (cached_email s.cache k.email)
  ]

  abbrev pub resolve_with :
      Session store → Sighting → Option String → Option String → Answer × Session store
  resolve_with s p (some provider) (some external_id) = resolve s p (key_of p provider external_id)
  resolve_with s p (some provider) none = (raised, s)
  resolve_with s p none external_id = (raised, s)

  -- ValueError without a provider or an external id.
  unfoldable pub get_or_create_person : Session store → Sighting → Answer × Session store
  unfolding resolve
  get_or_create_person s p = resolve_with s p (truthy p.provider) (truthy p.external_id)
