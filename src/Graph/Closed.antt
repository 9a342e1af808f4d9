-- ===== src/Graph/Closed.antt =====
-- The ends of the relationships that src/app/api/graph/v1/transformers.py extracts.
use work_behavior_analytics.Prelude.{
  Bool, true, false, ◌||◌, String, List, [], ◌∷◌, ◌++◌, map, contains, ◌==◌, text_key, eq_iff,
  same_refl, Bool-cases, All, ◌≡◌, refl, sym, ◌∙◌, inl, inr, arith,
}
use mathlib.Core.Path.{subst}
use work_behavior_analytics.Graph.Values.{
  Node, Relationship, Value, property, node, relationship, path, list, dict, Values, no_values,
  a_value, Entries, no_entries, an_entry, GraphRelationship, transform_node, transform_relationship,
}
use work_behavior_analytics.Graph.Extract.{
  Elements, append_relationship, add_node, add_relationship, add_nodes, add_relationships,
  extract_value, extract_values, extract_entries, extract_records,
}
use work_behavior_analytics.Graph.Tidy.{
  add_id, contains-snoc, keys, keys-insert, IsTidy, append_relationship-IsTidy, add_node-IsTidy,
}

-- Both ends are among these nodes.
abbrev pub Ends : List String → GraphRelationship → Type 0
Ends ids rel = (contains ids rel.start_node ≡ true) × (contains ids rel.end_node ≡ true)

pub record IsSound (e : Elements) : Type 0 where
  pub tidy : IsTidy e
  pub closed : All (Ends (keys e.nodes)) e.relationships

contains-add_id :
    (ids : List String) (id k : String) → contains (add_id ids id) k ≡ (contains ids k || id == k)
contains-add_id ids id k = elim (Bool-cases (contains ids id)) [
  | inr c ↦ rw c (contains-snoc ids id k)
  | inl c ↦ elim (Bool-cases (id == k)) [
    | inr e ↦ rw (c, e) (ground arith)
    | inl e ↦
        let known : contains ids k ≡ true =
          subst (λ j. contains ids j ≡ true) ((eq_iff id k).0 e) c in
        rw (c, e, known) refl
  ]
]

contains-add_node :
    (n : Node) (e : Elements) (k : String)
    → contains (keys (add_node n e).nodes) k ≡ (contains (keys e.nodes) k || n.element_id == k)
unfolding add_node
contains-add_node n e k =
    rw (keys-insert e.nodes n.element_id (transform_node n))
      (contains-add_id (keys e.nodes) n.element_id k)

keeps :
    (n : Node) (e : Elements) (k : String)
    → contains (keys e.nodes) k ≡ true
    → contains (keys (add_node n e).nodes) k ≡ true
keeps n e k h = contains-add_node n e k ∙ rw h refl

or_true : (b : Bool) → (b || true) ≡ true
or_true true = refl
or_true false = refl

has_own : (n : Node) (e : Elements) → contains (keys (add_node n e).nodes) n.element_id ≡ true
has_own n e = contains-add_node n e n.element_id ∙ rw (same_refl n.element_id) (or_true _)

All-kept :
    (n : Node) (e : Elements) (rels : List GraphRelationship)
    → All (Ends (keys e.nodes)) rels
    → All (Ends (keys (add_node n e).nodes)) rels
All-kept n e [] h = tt
All-kept n e (rel ∷ rels) h =
    ((keeps n e rel.start_node h.0.0, keeps n e rel.end_node h.0.1), All-kept n e rels h.1)

add_node-IsSound : (n : Node) (e : Elements) → IsSound e → IsSound (add_node n e)
unfolding add_node
add_node-IsSound n e h = record {
  tidy = add_node-IsTidy n e h.tidy;
  closed = All-kept n e e.relationships h.closed;
}

All-snoc :
    (P : GraphRelationship → Type 0) (rels : List GraphRelationship) (rel : GraphRelationship)
    → All P rels
    → P rel
    → All P (rels ++ rel ∷ [])
All-snoc P [] rel h p = (p, tt)
All-snoc P (r ∷ rels) rel h p = (h.0, All-snoc P rels rel h.1 p)

pub append_relationship-IsSound :
    (rel : GraphRelationship) (e : Elements)
    → IsSound e
    → contains e.relationship_ids rel.id ≡ false
    → Ends (keys e.nodes) rel
    → IsSound (append_relationship rel e)
append_relationship-IsSound rel e h new ends = record {
  tidy = append_relationship-IsTidy rel e h.tidy new;
  closed = All-snoc (Ends (keys e.nodes)) e.relationships rel h.closed ends;
}

add_relationship-IsSound :
    (r : Relationship) (e : Elements)
    → IsSound e
    → Ends (keys e.nodes) (transform_relationship r)
    → IsSound (add_relationship r e)
unfolding add_relationship transform_relationship
add_relationship-IsSound r e h ends = elim (Bool-cases (contains e.relationship_ids r.element_id)) [
  | inl c ↦ rw c h
  | inr c ↦ rw c (append_relationship-IsSound (transform_relationship r) e h c ends)
]

add_relationship-nodes : (r : Relationship) (e : Elements) → (add_relationship r e).nodes ≡ e.nodes
unfolding add_relationship
add_relationship-nodes r e = elim (Bool-cases (contains e.relationship_ids r.element_id)) [
  | inl c ↦ rw c refl
  | inr c ↦ rw c refl
]

-- The node and the relationship may be added in either order.
add_node-add_relationship :
    (n : Node) (r : Relationship) (e : Elements)
    → add_node n (add_relationship r e) ≡ add_relationship r (add_node n e)
unfolding add_node add_relationship
add_node-add_relationship n r e = elim (Bool-cases (contains e.relationship_ids r.element_id)) [
  | inl c ↦ rw c refl
  | inr c ↦ rw c refl
]

add_relationship_with_ends :
    (r : Relationship) (e : Elements)
    → IsSound e
    → IsSound (add_node r.end_node (add_node r.start_node (add_relationship r e)))
unfolding transform_relationship
add_relationship_with_ends r e h =
    let e' = add_node r.end_node (add_node r.start_node e) in
    let ends : Ends (keys e'.nodes) (transform_relationship r) = (
      keeps r.end_node (add_node r.start_node e) r.start_node.element_id (has_own r.start_node e),
      has_own r.end_node (add_node r.start_node e),
    ) in
    rw
      (
        add_node-add_relationship r.start_node r e,
        add_node-add_relationship r.end_node r (add_node r.start_node e),
      )
      (add_relationship-IsSound r e'
        (add_node-IsSound r.end_node _ (add_node-IsSound r.start_node e h)) ends)

add_nodes-IsSound : (ns : List Node) (e : Elements) → IsSound e → IsSound (add_nodes ns e)
unfolding add_nodes
add_nodes-IsSound [] e h = h
add_nodes-IsSound (n ∷ ns) e h = add_nodes-IsSound ns (add_node n e) (add_node-IsSound n e h)

abbrev pub ids_of : List Node → List String
ids_of = map λ n. n.element_id

add_nodes-keeps :
    (ns : List Node) (e : Elements) (k : String)
    → contains (keys e.nodes) k ≡ true
    → contains (keys (add_nodes ns e).nodes) k ≡ true
unfolding add_nodes
add_nodes-keeps [] e k h = h
add_nodes-keeps (n ∷ ns) e k h = add_nodes-keeps ns (add_node n e) k (keeps n e k h)

add_nodes-has :
    (ns : List Node) (e : Elements) (k : String)
    → contains (ids_of ns) k ≡ true
    → contains (keys (add_nodes ns e).nodes) k ≡ true
unfolding add_nodes
add_nodes-has [] e k h = absurd cc
add_nodes-has (n ∷ ns) e k h = elim (Bool-cases (n.element_id == k)) [
  | inl c ↦ add_nodes-keeps ns (add_node n e) k (contains-add_node n e k ∙ rw c (or_true _))
  | inr c ↦
      add_nodes-has ns (add_node n e) k (subst (λ b. (b || contains (ids_of ns) k) ≡ true) c h)
]

-- A path connects its own nodes.
abbrev pub Connects : List Node → Relationship → Type 0
Connects ns r =
    (contains (ids_of ns) r.start_node.element_id ≡ true)
    × (contains (ids_of ns) r.end_node.element_id ≡ true)

add_relationships-IsSound :
    (ns : List Node) (rs : List Relationship) (e : Elements)
    → ((k : String) → contains (ids_of ns) k ≡ true → contains (keys e.nodes) k ≡ true)
    → All (Connects ns) rs
    → IsSound e
    → IsSound (add_relationships rs e)
unfolding add_relationships transform_relationship
add_relationships-IsSound ns [] e known connects h = h
add_relationships-IsSound ns (r ∷ rs) e known connects h =
    add_relationships-IsSound ns rs (add_relationship r e)
      (λ k i.
        subst (λ d. contains (keys d) k ≡ true) (sym (add_relationship-nodes r e)) (known k i))
      connects.1
      (add_relationship-IsSound r e h
        (known r.start_node.element_id connects.0.0, known r.end_node.element_id connects.0.1))

unfoldable mutual
  pub IsConnected : Value → Type 0
  IsConnected (property p) = Unit
  IsConnected (node n) = Unit
  IsConnected (relationship r) = Unit
  IsConnected (path ns rs) = All (Connects ns) rs
  IsConnected (list xs) = AreConnected xs
  IsConnected (dict d) = HasConnected d

  pub AreConnected : Values → Type 0
  AreConnected no_values = Unit
  AreConnected (a_value x xs) = IsConnected x × AreConnected xs

  pub HasConnected : Entries → Type 0
  HasConnected no_entries = Unit
  HasConnected (an_entry key x d) = IsConnected x × HasConnected d

mutual
  unfolding extract_value IsConnected

  extract_value-IsSound :
      (v : Value) (e : Elements) → IsConnected v → IsSound e → IsSound (extract_value v e).1
  extract_value-IsSound (property p) e c h = h
  extract_value-IsSound (node n) e c h = add_node-IsSound n e h
  extract_value-IsSound (relationship r) e c h = add_relationship_with_ends r e h
  extract_value-IsSound (path ns rs) e c h =
      add_relationships-IsSound ns rs (add_nodes ns e) (add_nodes-has ns e) c
        (add_nodes-IsSound ns e h)
  extract_value-IsSound (list xs) e c h = extract_values-IsSound xs false e c h
  extract_value-IsSound (dict d) e c h = extract_entries-IsSound d false e c h

  extract_values-IsSound :
      (xs : Values) (b : Bool) (e : Elements)
      → AreConnected xs
      → IsSound e
      → IsSound (extract_values xs b e).1
  extract_values-IsSound no_values b e c h = h
  extract_values-IsSound (a_value x xs) b e c h =
      extract_values-IsSound xs _ _ c.1 (extract_value-IsSound x e c.0 h)

  pub extract_entries-IsSound :
      (d : Entries) (b : Bool) (e : Elements)
      → HasConnected d
      → IsSound e
      → IsSound (extract_entries d b e).1
  extract_entries-IsSound no_entries b e c h = h
  extract_entries-IsSound (an_entry key x d) b e c h =
      extract_entries-IsSound d _ _ c.1 (extract_value-IsSound x e c.0 h)

pub extract_records-IsSound :
    (rows : List Entries) (b : Bool) (e : Elements)
    → All HasConnected rows
    → IsSound e
    → IsSound (extract_records rows b e).1
unfolding extract_records
extract_records-IsSound [] b e c h = h
extract_records-IsSound (row ∷ rows) b e c h =
    extract_records-IsSound rows _ _ c.1 (extract_entries-IsSound row b e c.0 h)
