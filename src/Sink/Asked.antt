-- ===== src/Sink/Asked.antt =====
-- The keys that the batched queries of src/connectors/consumers/sinks/neo4j_sink.py ask for.
use work_behavior_analytics.Prelude.{
  Bool, true, false, ◌&&◌, ◌||◌, String, Option, none, some, List, [], ◌∷◌, contains, or_else, ◌==◌,
  text_key, same_refl, ◌≡◌, refl, ◌∙◌, arith,
}
use work_behavior_analytics.Prelude.Dict.{Dict, lookup}
use work_behavior_analytics.Persons.Graph.{wba_format}
use work_behavior_analytics.Sink.Resolve.{
  SignalRelationship, given, has_identifier, is_person, is_atlassian, text_of, add_if, emails_of,
  urls_of, identities_of, persons_of, distinct, run_query,
}
use work_behavior_analytics.Sink.Found.{last, lookup-run_query, contains-append, contains-distinct}

-- The keys of the first list are asked for in the second.
pub record Within (rs rels : List SignalRelationship) : Type 0 where
  pub emails : (k : String) → contains (emails_of rs) k ≡ true → contains (emails_of rels) k ≡ true
  pub urls : (k : String) → contains (urls_of rs) k ≡ true → contains (urls_of rels) k ≡ true
  pub identities :
      (k : String) → contains (identities_of rs) k ≡ true → contains (identities_of rels) k ≡ true
  pub persons :
      (k : String) → contains (persons_of rs) k ≡ true → contains (persons_of rels) k ≡ true

hits :
    (b : Bool) (keys rest : List String) (k : String)
    → contains rest k ≡ true
    → contains (add_if b keys rest) k ≡ true
hits true keys rest k h = contains-append keys rest k ∙ ground (arith, h)
hits false keys rest k h = h

hits_first :
    (keys rest : List String) (k : String)
    → contains keys k ≡ true
    → contains (add_if true keys rest) k ≡ true
hits_first keys rest k h = contains-append keys rest k ∙ rw h refl

pub Within-tail :
    (rel : SignalRelationship) (rs rels : List SignalRelationship)
    → Within (rel ∷ rs) rels
    → Within rs rels
unfolding emails_of urls_of identities_of persons_of
Within-tail rel rs rels w = record {
  emails = λ k h. w.emails k (hits _ _ (emails_of rs) k h);
  urls = λ k h. w.urls k (hits _ _ (urls_of rs) k h);
  identities = λ k h. w.identities k (hits _ _ (identities_of rs) k h);
  persons = λ k h. w.persons k (hits _ _ (persons_of rs) k h);
}

pub or_else-none : (o : Option String) → or_else o none ≡ o
or_else-none none = refl
or_else-none (some a) = refl

-- A key that was asked for, in a map that begins empty.
pub asked :
    (rows : String → List String) (keys : List String) (k : String)
    → contains keys k ≡ true
    → lookup (run_query rows (distinct keys) []) k ≡ last (rows k)
unfolding lookup
asked rows keys k h =
    lookup-run_query rows (distinct keys) [] k
    ∙ rw (contains-distinct keys k, h) (or_else-none (last (rows k)))

pub not_asked :
    (rows : String → List String) (keys : List String) (found : Dict String String) (k : String)
    → contains keys k ≡ false
    → lookup (run_query rows (distinct keys) found) k ≡ lookup found k
not_asked rows keys found k h =
    lookup-run_query rows (distinct keys) found k ∙ rw (contains-distinct keys k, h) refl

pub emails_head :
    (rel : SignalRelationship) (rs : List SignalRelationship)
    → has_identifier rel.target ≡ true
    → (is_person rel.target && given rel.target.email) ≡ true
    → contains (emails_of (rel ∷ rs)) (text_of rel.target.email) ≡ true
unfolding emails_of
emails_head rel rs h e = rw (h, e, same_refl (text_of rel.target.email)) refl

pub urls_head :
    (rel : SignalRelationship) (rs : List SignalRelationship)
    → has_identifier rel.target ≡ true
    → given rel.target.url ≡ true
    → contains (urls_of (rel ∷ rs)) (text_of rel.target.url) ≡ true
unfolding urls_of
urls_head rel rs h e = rw (h, e, same_refl (text_of rel.target.url)) refl

or_true : (b : Bool) → (b || true) ≡ true
or_true true = refl
or_true false = refl

-- Both keys of an account are among those of its relationship.
both_of :
    (a b : String) (rest : List String)
    → (contains (a ∷ b ∷ rest) a ≡ true) × (contains (a ∷ b ∷ rest) b ≡ true)
both_of a b rest = (rw (same_refl a) refl, rw (same_refl b) (or_true (a == b)))

pub identities_head :
    (rel : SignalRelationship) (rs : List SignalRelationship)
    → has_identifier rel.target ≡ true
    → is_atlassian rel.target ≡ true
    → (contains
          (identities_of (rel ∷ rs))
          (wba_format "jira" "IdentityMapping" (text_of rel.target.id))
        ≡ true)
      × (contains
            (identities_of (rel ∷ rs))
            (wba_format "confluence" "IdentityMapping" (text_of rel.target.id))
          ≡ true)
unfolding identities_of
identities_head rel rs h e =
    rw (h, e)
      (both_of (wba_format "jira" "IdentityMapping" (text_of rel.target.id))
        (wba_format "confluence" "IdentityMapping" (text_of rel.target.id)) (identities_of rs))

pub persons_head :
    (rel : SignalRelationship) (rs : List SignalRelationship)
    → has_identifier rel.target ≡ true
    → is_atlassian rel.target ≡ true
    → (contains (persons_of (rel ∷ rs)) (wba_format "jira" "Person" (text_of rel.target.id)) ≡ true)
      × (contains (persons_of (rel ∷ rs)) (wba_format "confluence" "Person" (text_of rel.target.id))
          ≡ true)
unfolding persons_of
persons_head rel rs h e =
    rw (h, e)
      (both_of (wba_format "jira" "Person" (text_of rel.target.id))
        (wba_format "confluence" "Person" (text_of rel.target.id)) (persons_of rs))
