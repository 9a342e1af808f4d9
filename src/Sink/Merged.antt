-- ===== src/Sink/Merged.antt =====
-- What the handlers of src/connectors/consumers/sinks/neo4j_sink.py give to their merges.
use work_behavior_analytics.Prelude.{
  String, Option, none, some, List, [], ◌∷◌, ◌++◌, All, ◌==◌, text_key, eq_iff, if◌then◌else◌,
  Bool-cases, ◌≡◌, ◌⊎◌, refl, inl, inr,
}
use mathlib.Core.Path.{subst}
use work_behavior_analytics.Prelude.Dict.{Dict, lookup}
use work_behavior_analytics.Persons.Graph.{wba_format}
use work_behavior_analytics.Sink.Resolve.{
  Target, SignalRelationship, DbRelationship, Queries, equals, has_identifier, db_relationship,
  converted, convert_all, to_db_relationships,
}
use work_behavior_analytics.Sink.Handlers.{Signal, wba_node_id, Merge, merged, handlers}

-- One end of the relationship is the node with this id and label.
abbrev pub Touches : String → String → DbRelationship → Type 0
Touches id label rel =
    ((rel.from_id ≡ id) × (rel.from_type ≡ label)) ⊎ ((rel.to_id ≡ id) × (rel.to_type ≡ label))

db_relationship-Touches :
    (rel : SignalRelationship) (id label to_id : String)
    → Touches id label (db_relationship rel id label to_id)
db_relationship-Touches rel id label to_id = elim (Bool-cases (equals rel.direction "IN")) [
  | inl e ↦ rw e (inr (refl, refl))
  | inr e ↦ rw e (inl (refl, refl))
]

converted-Touches :
    (rel : SignalRelationship) (id label : String) (o : Option String)
    → All (Touches id label) (converted rel id label o)
converted-Touches rel id label none = tt
converted-Touches rel id label (some to_id) = (db_relationship-Touches rel id label to_id, tt)

All-append :
    (P : DbRelationship → Type 0) (xs ys : List DbRelationship)
    → All P xs
    → All P ys
    → All P (xs ++ ys)
All-append P [] ys h k = k
All-append P (x ∷ xs) ys h k = (h.0, All-append P xs ys h.1 k)

convert_all-Touches :
    (resolve : Target → Option String) (rels : List SignalRelationship) (id label : String)
    → All (Touches id label) (convert_all resolve rels id label)
unfolding convert_all
convert_all-Touches resolve [] id label = tt
convert_all-Touches resolve (rel ∷ rels) id label =
    let rest = convert_all-Touches resolve rels id label in
    elim (Bool-cases (has_identifier rel.target)) [
      | inl e ↦ rw e (All-append (Touches id label) _ _ (converted-Touches rel id label _) rest)
      | inr e ↦ rw e rest
    ]

pub to_db_relationships-Touches :
    (queries : Queries) (rels : List SignalRelationship) (id label : String)
    → All (Touches id label) (to_db_relationships queries rels id label)
unfolding to_db_relationships
to_db_relationships-Touches queries rels id label = convert_all-Touches _ rels id label

-- The node of the signal, and its relationships.
pub record IsOwn (s : Signal) (m : Merge) : Type 0 where
  pub label : m.label ≡ s.entity_type
  pub id : m.id ≡ wba_format s.source s.entity_type s.id
  pub relationships : All (Touches m.id m.label) m.relationships

abbrev OwnLabel : String × (Queries → String → Signal → Merge) → Type 0
OwnLabel (label, handler) =
    (queries : Queries) (now : String) (s : Signal)
    → ((handler queries now s).label ≡ label)
      × ((handler queries now s).id ≡ wba_format s.source s.entity_type s.id)
      × All (Touches (handler queries now s).id (handler queries now s).label)
          (handler queries now s).relationships

own_parts :
    (queries : Queries) (s : Signal) (label : String)
    → (label ≡ label)
      × (wba_node_id s ≡ wba_format s.source s.entity_type s.id)
      × All
          (Touches (wba_node_id s) label)
          (to_db_relationships queries s.relationships (wba_node_id s) label)
own_parts queries s label =
    (refl, refl, to_db_relationships-Touches queries s.relationships (wba_node_id s) label)

same_handler :
    (f handler : Queries → String → Signal → Merge) → Option.some f ≡ some handler → f ≡ handler
same_handler f handler h = cc

lookup-All :
    (P : String × (Queries → String → Signal → Merge) → Type 0)
    (d : Dict String (Queries → String → Signal → Merge)) (k : String)
    (handler : Queries → String → Signal → Merge)
    → All P d
    → lookup d k ≡ some handler
    → P (k, handler)
unfolding lookup
lookup-All P [] k handler a h = absurd cc
lookup-All P ((j, f) ∷ d) k handler a h = elim (Bool-cases (j == k)) [
  | inl e ↦
      let same =
        same_handler f handler
          (subst (λ b. (if b then some f else lookup d k) ≡ some handler) e h) in
      subst (λ g. P (k, g)) same (subst (λ i. P (i, f)) ((eq_iff j k).0 e) a.0)
  | inr e ↦
      lookup-All P d k handler a.1
        (subst (λ b. (if b then some f else lookup d k) ≡ some handler) e h)
]

handlers-OwnLabel : All OwnLabel handlers
unfolding merged
handlers-OwnLabel = (
  λ q n s. own_parts q s "Repository",
  (
    λ q n s. own_parts q s "Commit",
    (
      λ q n s. own_parts q s "PullRequest",
      (
        λ q n s. own_parts q s "Space",
        (
          λ q n s. own_parts q s "Page",
          (
            λ q n s. own_parts q s "Blogpost",
            (
              λ q n s. own_parts q s "Team",
              (
                λ q n s. own_parts q s "Project",
                (
                  λ q n s. own_parts q s "Initiative",
                  (
                    λ q n s. own_parts q s "Epic",
                    (
                      λ q n s. own_parts q s "Sprint",
                      (λ q n s. own_parts q s "Issue", (λ q n s. own_parts q s "File", tt)),
                    ),
                  ),
                ),
              ),
            ),
          ),
        ),
      ),
    ),
  ),
)

-- Whatever handler takes a signal, the node that it merges has the signal's entity type as its label
-- and the signal's own id, and every relationship that is merged with it has this node at one end.
pub handlers-IsOwn :
    (queries : Queries) (now : String) (s : Signal) (handler : Queries → String → Signal → Merge)
    → lookup handlers s.entity_type ≡ some handler
    → IsOwn s (handler queries now s)
handlers-IsOwn queries now s handler h =
    let own =
      lookup-All OwnLabel handlers s.entity_type handler handlers-OwnLabel h queries now s in
    record { label = own.0; id = own.1; relationships = own.2 }
