-- ===== src/Persons/Examples.antt =====
-- People met on a small in-memory graph, and the theorems of the session cache at these inputs.
use work_behavior_analytics.Prelude.{
  Bool, true, false, not, String, ◌≡◌, refl, Option, none, some, List, [], ◌∷◌, ◌==◌, text_key,
  pair_key, if◌then◌else◌, filter, contains,
}
use work_behavior_analytics.Prelude.Dict.{lookup, insert}
use work_behavior_analytics.Persons.Graph.{Store, Person, wba_format}
use work_behavior_analytics.Persons.Cache.{empty_cache, Sighting, Session, rename, rename_pending}
use work_behavior_analytics.Persons.Resolve.{
  person, raised, key_of, reroute_to_email_owner, provider_hit, email_hit, merge_and_remember,
  by_own_id, lookup_by_atlassian_account, by_account_query, by_account_cache, by_account,
  by_email_query, resolve, get_or_create_person,
}
use work_behavior_analytics.Persons.Identities.{
  Mapping, queue_identity_mapping, flush_each, flush_identity_mappings, get_stats,
}
use work_behavior_analytics.Persons.Remembered.{Remembers}
use work_behavior_analytics.Persons.Coherence.{resolve-Remembers}
use work_behavior_analytics.Persons.Reroute.{Purged, reroute_to_email_owner-Purged}

abbrev has_email : String → Option String → Bool
has_email email none = false
has_email email (some e) = e == email

abbrev find_email : List Person → String → Option String
find_email [] email = none
find_email (q ∷ g) email = if has_email email q.email then some q.id else find_email g email

abbrev find_ids : List Person → List String → Option String
find_ids [] ids = none
find_ids (q ∷ g) ids = if contains ids q.id then some q.id else find_ids g ids

-- A graph of persons, where a later merge stands before an earlier one.
abbrev people : Store
people = record {
  Graph = List Person;
  person_by_email = find_email;
  person_by_identity = λ g ids. none;
  person_by_ids = find_ids;
  merge_person = λ g q. (true, q ∷ g);
  rehome_person = λ g stale owner. (true, filter (λ q. not (q.id == stale)) g);
  merge_identity_mapping = λ g identity rel. (true, g);
}

abbrev empty : Session people
empty = record { cache = empty_cache; graph = [] }

abbrev on_github : Sighting
on_github = record {
  email = none;
  name = "ada";
  provider = some "github";
  external_id = some "ada99";
  url = none;
  account_id = none;
  observed_at = none;
}

abbrev on_jira : Sighting
on_jira = record on_github {
  email = some "ada@x.org";
  provider = some "jira";
  external_id = some "7";
}

-- The same GitHub account, now with the email that the Jira person owns.
abbrev with_email : Sighting
with_email = record on_github { email = some "ada@x.org" }

abbrev after_both : Session people
after_both = (get_or_create_person people (get_or_create_person people empty on_github).1 on_jira).1

abbrev github_id : String
github_id = "github::Person::ada99"

abbrev jira_id : String
jira_id = "jira::Person::7"

abbrev mapping : Mapping
mapping = record {
  person_id = github_id;
  identity_id = "github::IdentityMapping::ada99";
  provider = "GitHub";
  username = "ada99";
  email = "";
  last_updated_at = "";
}

abbrev queued : Session people
queued = record after_both { cache = queue_identity_mapping after_both.cache mapping }

program : Unit {0}
unfolding lookup insert wba_format rename rename_pending reroute_to_email_owner provider_hit
    email_hit merge_and_remember by_own_id lookup_by_atlassian_account by_account_query
    by_account_cache by_account by_email_query resolve get_or_create_person queue_identity_mapping
    flush_each flush_identity_mappings
program = tt
  where
    made : (get_or_create_person people empty on_github).0 ≡ person github_id true
    made = refl

    rerouted : (get_or_create_person people after_both with_email).0 ≡ person jira_id false
    rerouted = refl

    -- A hit in the account cache was counted as a miss before.
    counted_twice :
        let s : Session people = record empty {
          cache = record empty_cache { account_cache = ("7", jira_id) ∷ [] };
        } in
        let c = (get_or_create_person people s (record on_jira { email = none })).1.cache in
        (c.cache_hits ≡ 1) × (c.cache_misses ≡ 1)
    counted_twice = (refl, refl)

    invalid :
        (get_or_create_person people empty (record on_github { external_id = some "" })).0 ≡ raised
    invalid = refl

    pending : (get_stats queued.cache).pending_identities ≡ 1
    pending = refl

resolve-Remembers_example :
    Remembers
      (resolve people empty on_jira (key_of on_jira "jira" "7")).1.cache
      (key_of on_jira "jira" "7")
      jira_id
unfolding lookup insert wba_format lookup_by_atlassian_account merge_and_remember by_own_id
    by_account_query by_account_cache by_account by_email_query resolve
resolve-Remembers_example =
    resolve-Remembers people empty on_jira (key_of on_jira "jira" "7") jira_id true refl

reroute_to_email_owner-Purged_example :
    Purged github_id jira_id "ada@x.org"
      (reroute_to_email_owner people queued with_email github_id "ada@x.org").1.cache
unfolding lookup insert wba_format rename rename_pending reroute_to_email_owner provider_hit
    email_hit merge_and_remember by_own_id lookup_by_atlassian_account by_account_query
    by_account_cache by_account by_email_query resolve get_or_create_person queue_identity_mapping
reroute_to_email_owner-Purged_example =
    reroute_to_email_owner-Purged people queued with_email github_id "ada@x.org" jira_id refl
