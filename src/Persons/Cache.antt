-- ===== src/Persons/Cache.antt =====
-- The state of `PersonCache` (src/connectors/commons/person_cache.py) and the steps that lookups share.
use work_behavior_analytics.Prelude.{
  ℕ, ◌+◌, Bool, true, false, String, Option, none, some, List, [], ◌∷◌, ◌==◌, text_key, pair_key,
  if◌then◌else◌, contains, filter, not,
}
use work_behavior_analytics.Prelude.Text.{is_empty}
use work_behavior_analytics.Prelude.Dict.{Dict, insert}
use work_behavior_analytics.Persons.Graph.{Store, Person, IdentityMapping, MapsTo}

pub record PersonCache : Type 0 where
  pub email_cache : Dict String String
  pub account_cache : Dict String String
  pub provider_cache : Dict (String × String) String
  pub pending : Dict String (IdentityMapping × MapsTo)
  pub flushed : List String
  pub cache_hits : ℕ
  pub cache_misses : ℕ
  pub db_queries : ℕ

-- `__init__` and `clear`
abbrev pub empty_cache : PersonCache
empty_cache = record {
  email_cache = [];
  account_cache = [];
  provider_cache = [];
  pending = [];
  flushed = [];
  cache_hits = 0;
  cache_misses = 0;
  db_queries = 0;
}

-- The arguments of `get_or_create_person`.
pub record Sighting : Type 0 where
  pub email : Option String
  pub name : String
  pub provider : Option String
  pub external_id : Option String
  pub url : Option String
  pub account_id : Option String
  pub observed_at : Option String

-- `s if s else None`
abbrev pub truthy : Option String → Option String
truthy none = none
truthy (some s) = if is_empty s then none else some s

abbrev pub is_atlassian : String → Bool
is_atlassian provider = contains ("jira" ∷ "confluence" ∷ []) provider

-- The account id of an Atlassian sighting is its external id where none is given.
abbrev pub account_or : Bool → Option String → String → Option String
account_or true none external_id = some external_id
account_or true (some a) external_id = some a
account_or false a external_id = a

abbrev pub hit : PersonCache → PersonCache
hit c = record c { cache_hits = c.cache_hits + 1 }

abbrev pub miss : PersonCache → PersonCache
miss c = record c { cache_misses = c.cache_misses + 1 }

abbrev pub query : PersonCache → PersonCache
query c = record c { db_queries = c.db_queries + 1 }

abbrev pub put_some : Dict String String → Option String → String → Dict String String
put_some d none person = d
put_some d (some k) person = insert d k person

-- `_provider_cache[(provider, external_id)] = person_id`, and the email and the account where given.
abbrev pub remember :
    PersonCache → String × String → Option String → Option String → String → PersonCache
remember c key email account person = record c {
  provider_cache = insert c.provider_cache key person;
  email_cache = put_some c.email_cache email person;
  account_cache = put_some c.account_cache account person;
}

-- Every value that is `stale` becomes `owner`.
unfoldable pub rename {ℓ} : {K : Type ℓ} → String → String → Dict K String → Dict K String
rename stale owner [] = []
rename stale owner ((k, v) ∷ d) = (k, (if v == stale then owner else v)) ∷ rename stale owner d

unfoldable pub rename_pending :
    String
    → String
    → Dict String (IdentityMapping × MapsTo)
    → Dict String (IdentityMapping × MapsTo)
rename_pending stale owner [] = []
rename_pending stale owner ((k, (identity, rel)) ∷ d) =
    (k, (identity, (if rel.to_id == stale then record rel { to_id = owner } else rel)))
    ∷ rename_pending stale owner d

-- set.discard
abbrev pub discard : List String → String → List String
discard xs x = filter (λ y. not (y == x)) xs

-- The cache and the database during a call.
module _ (store : Store) where
  open store use {Graph, merge_person}

  pub record Session : Type 0 where
    pub cache : PersonCache
    pub graph : Graph

  abbrev pub with_cache : Session → PersonCache → Session
  with_cache s c = record s { cache = c }

  abbrev pub person_of : Sighting → String → Option String → Person
  person_of p id email = record {
    id = id;
    name = p.name;
    email = email;
    url = p.url;
    observed_at = p.observed_at;
  }

  -- `_try_merge_richer_person`: a failure is swallowed.
  abbrev pub try_merge : Session → Sighting → String → Option String → Session
  try_merge s p id email = record s { graph = (merge_person s.graph (person_of p id email)).1 }
