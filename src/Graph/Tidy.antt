-- ===== src/Graph/Tidy.antt =====
-- No node and no relationship twice: the collections of src/app/api/graph/v1/transformers.py.
use work_behavior_analytics.Prelude.{
  false, ◌||◌, String, List, [], ◌∷◌, ◌++◌, map, contains, ◌==◌, text_key, eq_iff, if◌then◌else◌,
  Bool-cases, All, ◌≡◌, refl, sym, ap, ◌∙◌, inl, inr, arith,
}
use work_behavior_analytics.Prelude.Dict.{Dict, insert}
use work_behavior_analytics.Graph.Values.{
  Node, Relationship, GraphNode, GraphRelationship, transform_node, transform_relationship,
}
use work_behavior_analytics.Graph.Extract.{
  Elements, append_relationship, add_node, add_relationship, add_nodes, add_relationships,
}

-- The ids are different.
abbrev pub IsDistinct : List String → Type 0
IsDistinct [] = Unit
IsDistinct (id ∷ ids) = (contains ids id ≡ false) × IsDistinct ids

abbrev pub add_id : List String → String → List String
add_id ids id = if contains ids id then ids else ids ++ id ∷ []

pub contains-snoc :
    (ids : List String) (id k : String) → contains (ids ++ id ∷ []) k ≡ (contains ids k || id == k)
contains-snoc [] id k = ground arith
contains-snoc (j ∷ ids) id k = ground (arith, contains-snoc ids id k)

pub IsDistinct-snoc :
    (ids : List String) (id : String)
    → IsDistinct ids
    → contains ids id ≡ false
    → IsDistinct (ids ++ id ∷ [])
IsDistinct-snoc [] id d h = (refl, tt)
IsDistinct-snoc (j ∷ ids) id d h = (
  contains-snoc ids id j ∙ ground (arith, d.0, h, eq_iff j id, eq_iff id j),
  IsDistinct-snoc ids id d.1 (ground (arith, h)),
)

abbrev pub keys : Dict String GraphNode → List String
keys = map λ p. p.0

pub keys-insert :
    (d : Dict String GraphNode) (k : String) (n : GraphNode)
    → keys (insert d k n) ≡ add_id (keys d) k
unfolding insert
keys-insert [] k n = refl
keys-insert ((j, m) ∷ d) k n = elim (Bool-cases (j == k)) [
  | inl e ↦ rw e refl
  | inr e ↦ elim (Bool-cases (contains (keys d) k)) [
    | inl c ↦ rw (e, keys-insert d k n, c) refl
    | inr c ↦ rw (e, keys-insert d k n, c) refl
  ]
]

-- Each node stands under its own id.
abbrev pub IsKeyed : Dict String GraphNode → Type 0
IsKeyed = All λ p. p.1.element_id ≡ p.0

pub insert-IsKeyed :
    (d : Dict String GraphNode) (k : String) (n : GraphNode)
    → n.element_id ≡ k
    → IsKeyed d
    → IsKeyed (insert d k n)
unfolding insert
insert-IsKeyed [] k n own h = (own, tt)
insert-IsKeyed ((j, m) ∷ d) k n own h = elim (Bool-cases (j == k)) [
  | inl e ↦ rw e (own ∙ sym ((eq_iff j k).0 e), h.1)
  | inr e ↦ rw e (h.0, insert-IsKeyed d k n own h.1)
]

pub add_id-IsDistinct :
    (ids : List String) (id : String) → IsDistinct ids → IsDistinct (add_id ids id)
add_id-IsDistinct ids id d = elim (Bool-cases (contains ids id)) [
  | inl e ↦ rw e d
  | inr e ↦ rw e (IsDistinct-snoc ids id d e)
]

abbrev pub relationship_ids_of : List GraphRelationship → List String
relationship_ids_of = map λ r. r.id

pub record IsTidy (e : Elements) : Type 0 where
  pub keyed : IsKeyed e.nodes
  pub nodes : IsDistinct (keys e.nodes)
  pub tracked : e.relationship_ids ≡ relationship_ids_of e.relationships
  pub relationships : IsDistinct e.relationship_ids

pub add_node-IsTidy : (n : Node) (e : Elements) → IsTidy e → IsTidy (add_node n e)
unfolding add_node transform_node
add_node-IsTidy n e h = record {
  keyed = insert-IsKeyed e.nodes n.element_id (transform_node n) refl h.keyed;
  nodes =
      rw (keys-insert e.nodes n.element_id (transform_node n))
        (add_id-IsDistinct (keys e.nodes) n.element_id h.nodes);
  tracked = h.tracked;
  relationships = h.relationships;
}

ids-snoc :
    (rels : List GraphRelationship) (rel : GraphRelationship)
    → relationship_ids_of (rels ++ rel ∷ []) ≡ relationship_ids_of rels ++ rel.id ∷ []
ids-snoc [] rel = refl
ids-snoc (r ∷ rels) rel = ap (λ ids. r.id ∷ ids) (ids-snoc rels rel)

pub append_relationship-IsTidy :
    (rel : GraphRelationship) (e : Elements)
    → IsTidy e
    → contains e.relationship_ids rel.id ≡ false
    → IsTidy (append_relationship rel e)
append_relationship-IsTidy rel e h new = record {
  keyed = h.keyed;
  nodes = h.nodes;
  tracked = ap (λ ids. ids ++ rel.id ∷ []) h.tracked ∙ sym (ids-snoc e.relationships rel);
  relationships = IsDistinct-snoc e.relationship_ids rel.id h.relationships new;
}

pub add_relationship-IsTidy :
    (r : Relationship) (e : Elements) → IsTidy e → IsTidy (add_relationship r e)
unfolding add_relationship transform_relationship
add_relationship-IsTidy r e h = elim (Bool-cases (contains e.relationship_ids r.element_id)) [
  | inl c ↦ rw c h
  | inr c ↦ rw c (append_relationship-IsTidy (transform_relationship r) e h c)
]

pub add_nodes-IsTidy : (ns : List Node) (e : Elements) → IsTidy e → IsTidy (add_nodes ns e)
unfolding add_nodes
add_nodes-IsTidy [] e h = h
add_nodes-IsTidy (n ∷ ns) e h = add_nodes-IsTidy ns (add_node n e) (add_node-IsTidy n e h)

pub add_relationships-IsTidy :
    (rs : List Relationship) (e : Elements) → IsTidy e → IsTidy (add_relationships rs e)
unfolding add_relationships
add_relationships-IsTidy [] e h = h
add_relationships-IsTidy (r ∷ rs) e h =
    add_relationships-IsTidy rs (add_relationship r e) (add_relationship-IsTidy r e h)
