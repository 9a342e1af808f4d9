-- ===== src/Sink/Batched.antt =====
-- The batched resolution of src/connectors/consumers/sinks/neo4j_sink.py is the one of each target by
-- itself.
use work_behavior_analytics.Prelude.{
  true, false, ◌&&◌, String, Option, none, some, List, [], ◌∷◌, contains, or_else, text_key,
  if◌then◌else◌, Bool-cases, ◌≡◌, refl, ◌∙◌, inl, inr,
}
use work_behavior_analytics.Prelude.Dict.{Dict, lookup}
use work_behavior_analytics.Persons.Graph.{wba_format}
use work_behavior_analytics.Sink.Resolve.{
  Target, SignalRelationship, Queries, given, has_identifier, is_person, is_atlassian, text_of,
  identity_keys, person_keys, emails_of, urls_of, identities_of, persons_of, distinct, run_query,
  batch_resolve_targets, first_of, resolve_target, convert_all, with_maps, to_db_relationships,
}
use work_behavior_analytics.Sink.Found.{
  last, lookup-run_query, contains-distinct, persons_of-misses, identities_of-misses,
}
use work_behavior_analytics.Sink.Asked.{
  Within, Within-tail, or_else-none, asked, not_asked, emails_head, urls_head, identities_head,
  persons_head,
}

-- Each lookup is a query of its own.
abbrev pub direct_target : Queries → Target → Option String
direct_target session t =
    let account = text_of t.id in
    let identity : String → Option String = λ k. last (session.persons_of_identity k) in
    let person : String → Option String = λ k. last (session.persons_of_id k) in
    or_else
      (if is_person t && given t.email
        then last (session.persons_of_email (text_of t.email))
        else none)
      (or_else (if given t.url then last (session.nodes_of_url (text_of t.url)) else none) (
        or_else
          (if is_atlassian t
            then or_else (first_of identity (identity_keys account))
                (first_of person (person_keys account))
            else none)
          (if given t.source && given t.entity_type && given t.id
            then some (wba_format (text_of t.source) (text_of t.entity_type) account)
            else none)))

module _ (session : Queries) (rels : List SignalRelationship) where
  abbrev account_map : Dict String String
  account_map =
      run_query session.persons_of_id (distinct (persons_of rels))
        (run_query session.persons_of_identity (distinct (identities_of rels)) [])

  identity_found :
      (k : String)
      → contains (identities_of rels) k ≡ true
      → contains (persons_of rels) k ≡ false
      → lookup account_map k ≡ last (session.persons_of_identity k)
  identity_found k h n =
      not_asked session.persons_of_id (persons_of rels) _ k n
      ∙ asked session.persons_of_identity (identities_of rels) k h

  person_found :
      (k : String)
      → contains (persons_of rels) k ≡ true
      → contains (identities_of rels) k ≡ false
      → lookup account_map k ≡ last (session.persons_of_id k)
  unfolding lookup
  person_found k h n =
      lookup-run_query session.persons_of_id (distinct (persons_of rels)) _ k
      ∙ rw
          (
            contains-distinct (persons_of rels) k,
            h,
            not_asked session.persons_of_identity (identities_of rels) [] k n,
          )
          (or_else-none (last (session.persons_of_id k)))

  module _ (rel : SignalRelationship) (rs : List SignalRelationship) (w : Within (rel ∷ rs) rels)
      (h : has_identifier rel.target ≡ true) where
    abbrev target : Target
    target = rel.target

    email_part :
        (if is_person target && given target.email
          then lookup
              (run_query session.persons_of_email (distinct (emails_of rels)) [])
              (text_of target.email)
          else none)
        ≡ (if is_person target && given target.email
            then last (session.persons_of_email (text_of target.email))
            else none)
    email_part = elim (Bool-cases (is_person target && given target.email)) [
      | inr e ↦ rw e refl
      | inl e ↦ rw e (
          asked session.persons_of_email (emails_of rels) (text_of target.email)
            (w.emails (text_of target.email) (emails_head rel rs h e)))
    ]

    url_part :
        (if given target.url
          then lookup
              (run_query session.nodes_of_url (distinct (urls_of rels)) [])
              (text_of target.url)
          else none)
        ≡ (if given target.url then last (session.nodes_of_url (text_of target.url)) else none)
    url_part = elim (Bool-cases (given target.url)) [
      | inr e ↦ rw e refl
      | inl e ↦ rw e (
          asked session.nodes_of_url (urls_of rels) (text_of target.url)
            (w.urls (text_of target.url) (urls_head rel rs h e)))
    ]

    account_part :
        (if is_atlassian target
          then or_else
              (first_of (lookup account_map) (identity_keys (text_of target.id)))
              (first_of (lookup account_map) (person_keys (text_of target.id)))
          else none)
        ≡ (if is_atlassian target
            then or_else
                (first_of
                  (λ k. last (session.persons_of_identity k))
                  (identity_keys (text_of target.id)))
                (first_of (λ k. last (session.persons_of_id k)) (person_keys (text_of target.id)))
            else none)
    account_part = elim (Bool-cases (is_atlassian target)) [
      | inr e ↦ rw e refl
      | inl e ↦
          let account = text_of target.id in
          let i = identities_head rel rs h e in
          let p = persons_head rel rs h e in
          let no_p = persons_of-misses rels account in
          let no_i = identities_of-misses rels account in
          rw
            (
              e,
              identity_found (wba_format "jira" "IdentityMapping" account) (w.identities _ i.0)
                  no_p.0,
              identity_found (wba_format "confluence" "IdentityMapping" account)
                  (w.identities _ i.1) no_p.1,
              person_found (wba_format "jira" "Person" account) (w.persons _ p.0) no_i.0,
              person_found (wba_format "confluence" "Person" account) (w.persons _ p.1) no_i.1,
            )
            refl
    ]

    target_part :
        with_maps (batch_resolve_targets session rels) target ≡ direct_target session target
    unfolding batch_resolve_targets resolve_target
    target_part = rw (email_part, url_part, account_part) refl

  convert_all-direct :
      (rs : List SignalRelationship) (from_id from_type : String)
      → Within rs rels
      → convert_all (with_maps (batch_resolve_targets session rels)) rs from_id from_type
        ≡ convert_all (direct_target session) rs from_id from_type
  unfolding convert_all
  convert_all-direct [] from_id from_type w = refl
  convert_all-direct (rel ∷ rs) from_id from_type w =
      let rest = convert_all-direct rs from_id from_type (Within-tail rel rs rels w) in
      elim (Bool-cases (has_identifier rel.target)) [
        | inl h ↦ rw (h, target_part rel rs w h, rest) refl
        | inr h ↦ rw (h, rest) refl
      ]

-- Four queries for all relationships of a signal together give the relationships of the graph that a
-- query for each key would give: a person by its email, else a node by its url, else a person of Jira
-- or Confluence by its identity mapping or its id, else the id made of source, type and id.
pub to_db_relationships-direct :
    (session : Queries) (rels : List SignalRelationship) (from_id from_type : String)
    → to_db_relationships session rels from_id from_type
      ≡ convert_all (direct_target session) rels from_id from_type
unfolding to_db_relationships
to_db_relationships-direct session rels from_id from_type =
    convert_all-direct session rels rels from_id from_type
      (record { emails = λ k h. h; urls = λ k h. h; identities = λ k h. h; persons = λ k h. h })
