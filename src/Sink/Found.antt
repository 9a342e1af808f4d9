-- ===== src/Sink/Found.antt =====
-- What the batched queries of src/connectors/consumers/sinks/neo4j_sink.py find for a key.
use work_behavior_analytics.Prelude.{
  Bool, true, false, not, ◌||◌, String, Option, none, some, List, [], ◌∷◌, ◌++◌, filter, contains,
  or_else, ◌==◌, text_key, eq_iff, if◌then◌else◌, Bool-cases, ◌≡◌, ◌≢◌, refl, sym, ◌∙◌, inl, inr,
  arith,
}
use work_behavior_analytics.Prelude.Dict.{Dict, lookup, insert, lookup-insert}
use work_behavior_analytics.Persons.Graph.{wba_format}
use work_behavior_analytics.Sink.Ids.{jira_jira, confluence_confluence, jira_confluence}
use work_behavior_analytics.Sink.Resolve.{
  SignalRelationship, text_of, identity_keys, person_keys, add_if, identities_of, persons_of,
  distinct, add_rows, run_query,
}

-- The last of the rows.
abbrev pub last : List String → Option String
last [] = none
last (id ∷ ids) = or_else (last ids) (some id)

or_else-some :
    (o other : Option String) (id : String)
    → or_else o (some id) ≡ or_else (or_else o (some id)) other
or_else-some none other id = refl
or_else-some (some a) other id = refl

or_else-twice :
    (b : Bool) (o other : Option String)
    → (if b then or_else o (or_else o other) else or_else o other) ≡ or_else o other
or_else-twice true none other = refl
or_else-twice true (some a) other = refl
or_else-twice false o other = refl

lookup-add_rows :
    (found : Dict String String) (key k : String) (ids : List String)
    → lookup (add_rows found key ids) k
      ≡ (if key == k then or_else (last ids) (lookup found k) else lookup found k)
unfolding add_rows
lookup-add_rows found key k [] = elim (Bool-cases (key == k)) [
  | inl e ↦ rw e refl
  | inr e ↦ rw e refl
]
lookup-add_rows found key k (id ∷ ids) = elim (Bool-cases (key == k)) [
  | inl e ↦
      rw (lookup-add_rows (insert found key id) key k ids, e, lookup-insert found key k id, e)
        (or_else-some (last ids) (lookup found k) id)
  | inr e ↦
      rw (lookup-add_rows (insert found key id) key k ids, e, lookup-insert found key k id, e) refl
]

pub lookup-run_query :
    (rows : String → List String) (keys : List String) (found : Dict String String) (k : String)
    → lookup (run_query rows keys found) k
      ≡ (if contains keys k then or_else (last (rows k)) (lookup found k) else lookup found k)
unfolding run_query
lookup-run_query rows [] found k = refl
lookup-run_query rows (key ∷ keys) found k = elim (Bool-cases (key == k)) [
  | inl e ↦
      rw
        (
          lookup-run_query rows keys (add_rows found key (rows key)) k,
          lookup-add_rows found key k (rows key),
          e,
          (eq_iff key k).0 e,
        )
        (or_else-twice (contains keys k) (last (rows k)) (lookup found k))
  | inr e ↦
      rw
        (
          lookup-run_query rows keys (add_rows found key (rows key)) k,
          lookup-add_rows found key k (rows key),
          e,
        )
        refl
]

pub contains-append :
    (xs ys : List String) (k : String) → contains (xs ++ ys) k ≡ (contains xs k || contains ys k)
contains-append [] ys k = refl
contains-append (x ∷ xs) ys k = ground (arith, contains-append xs ys k)

contains-filter :
    (xs : List String) (j k : String)
    → (j == k) ≡ false
    → contains (filter (λ i. not (i == j)) xs) k ≡ contains xs k
contains-filter [] j k n = refl
contains-filter (x ∷ xs) j k n =
    ground (arith, contains-filter xs j k n, eq_iff x j, eq_iff x k, eq_iff j k)

pub contains-distinct : (xs : List String) (k : String) → contains (distinct xs) k ≡ contains xs k
unfolding distinct
contains-distinct [] k = refl
contains-distinct (x ∷ xs) k = elim (Bool-cases (x == k)) [
  | inl e ↦ rw e refl
  | inr e ↦ rw (e, contains-filter (distinct xs) x k e) (contains-distinct xs k)
]

pub differ-same : (s t : String) → s ≢ t → (s == t) ≡ false
differ-same s t n = elim (Bool-cases (s == t)) [ inl e ↦ absurd (n ((eq_iff s t).0 e)) | inr e ↦ e ]

-- None of the keys is asked for.
misses :
    (b : Bool) (keys rest : List String) (k : String)
    → contains keys k ≡ false
    → contains rest k ≡ false
    → contains (add_if b keys rest) k ≡ false
misses true keys rest k h r = contains-append keys rest k ∙ rw (h, r) refl
misses false keys rest k h r = r

no_person_key :
    (a b : String)
    → (contains (person_keys b) (wba_format "jira" "IdentityMapping" a) ≡ false)
      × (contains (person_keys b) (wba_format "confluence" "IdentityMapping" a) ≡ false)
no_person_key a b = (
  rw
      (
        differ-same _ _ (λ h. jira_jira a b (sym h)),
        differ-same _ _ (λ h. jira_confluence "IdentityMapping" "Person" a b (sym h)),
      )
      refl,
  rw
      (
        differ-same _ _ (λ h. jira_confluence "Person" "IdentityMapping" b a h),
        differ-same _ _ (λ h. confluence_confluence a b (sym h)),
      )
      refl,
)

no_identity_key :
    (a b : String)
    → (contains (identity_keys b) (wba_format "jira" "Person" a) ≡ false)
      × (contains (identity_keys b) (wba_format "confluence" "Person" a) ≡ false)
no_identity_key a b = (
  rw
      (
        differ-same _ _ (jira_jira b a),
        differ-same _ _ (λ h. jira_confluence "Person" "IdentityMapping" a b (sym h)),
      )
      refl,
  rw
      (
        differ-same _ _ (jira_confluence "IdentityMapping" "Person" b a),
        differ-same _ _ (confluence_confluence b a),
      )
      refl,
)

pub persons_of-misses :
    (rels : List SignalRelationship) (a : String)
    → (contains (persons_of rels) (wba_format "jira" "IdentityMapping" a) ≡ false)
      × (contains (persons_of rels) (wba_format "confluence" "IdentityMapping" a) ≡ false)
unfolding persons_of
persons_of-misses [] a = (refl, refl)
persons_of-misses (rel ∷ rels) a =
    let keys = no_person_key a (text_of rel.target.id) in
    let rest = persons_of-misses rels a in
    (
      misses _ (person_keys (text_of rel.target.id)) _ _ keys.0 rest.0,
      misses _ (person_keys (text_of rel.target.id)) _ _ keys.1 rest.1,
    )

pub identities_of-misses :
    (rels : List SignalRelationship) (a : String)
    → (contains (identities_of rels) (wba_format "jira" "Person" a) ≡ false)
      × (contains (identities_of rels) (wba_format "confluence" "Person" a) ≡ false)
unfolding identities_of
identities_of-misses [] a = (refl, refl)
identities_of-misses (rel ∷ rels) a =
    let keys = no_identity_key a (text_of rel.target.id) in
    let rest = identities_of-misses rels a in
    (
      misses _ (identity_keys (text_of rel.target.id)) _ _ keys.0 rest.0,
      misses _ (identity_keys (text_of rel.target.id)) _ _ keys.1 rest.1,
    )
