-- ===== src/Graph/Resolved.antt =====
-- The query that a request of src/app/api/graph/v1/service.py names.
use work_behavior_analytics.Prelude.{
  Bool, true, false, not, ◌&&◌, ◌||◌, String, Option, none, some, List, [], ◌∷◌, any, contains, All,
  ◌==◌, text_key, eq_iff, Bool-cases, ◌≡◌, ◌≢◌, ◌⊎◌, refl, ap, inl, inr,
}
use work_behavior_analytics.Prelude.Text.{is_empty, is_empty-eq, strip}
use work_behavior_analytics.Prelude.Dict.{Dict, lookup}
use work_behavior_analytics.Prelude.Json.{Json, null, bool, num, str, arr, obj}
use work_behavior_analytics.Graph.Service.{
  GraphError, value_error, query_not_found, Outcome, returned, raised, CatalogParameter,
  CatalogQuery, GraphExecuteRequest, Env, is_missing, names_of, has_unknown, has_missing,
  view_query, from_catalog, nonempty, raw_query, catalog_query, resolve_executable_query,
}

-- A parameter with a value: a text is not blank.
abbrev pub IsGiven : Option Json → Type 0
IsGiven none = ⊥
IsGiven (some null) = ⊥
IsGiven (some (str s)) = is_empty (strip s) ≡ false
IsGiven (some (bool b)) = Unit
IsGiven (some (num n)) = Unit
IsGiven (some (arr xs)) = Unit
IsGiven (some (obj d)) = Unit

-- The request names an entry of the catalog.
pub record Names (env : Env) (r : GraphExecuteRequest) (q : Option CatalogQuery) : Type 0 where
  pub source : r.source ≢ "raw"
  pub id : String
  pub named : r.catalog_id ≡ some id
  pub filled : id ≢ ""
  pub entry : env.get_catalog_query id ≡ q

abbrev pub AllDeclared : CatalogQuery → Dict String Json → Type 0
AllDeclared q = All λ p. contains (names_of q.parameters) p.0 ≡ true

abbrev pub AllGiven : Dict String Json → List CatalogParameter → Type 0
AllGiven given = All λ p. p.required ≡ true → IsGiven (lookup given p.name)

-- A raw query, or the view of a catalog entry whose parameters are those that it declares, with each
-- required one given.
pub data Resolves (env : Env) (r : GraphExecuteRequest) : String × Dict String Json → Type 0 where
  from_raw :
      (query : String)
      → r.source ≡ "raw"
      → r.query ≡ some query
      → query ≢ ""
      → Resolves env r (query, r.parameters)
  from_entry :
      (q : CatalogQuery) (query : String)
      → Names env r (some q)
      → r.view ≢ "auto"
      → lookup q.queries r.view ≡ some query
      → AllDeclared q r.parameters
      → AllGiven r.parameters q.parameters
      → Resolves env r (query, r.parameters)

abbrev IsBlank : Option String → Type 0
IsBlank none = Unit
IsBlank (some s) = s ≡ ""

pub data Unresolved (env : Env) (r : GraphExecuteRequest) : GraphError → Type 0 where
  no_query : r.source ≡ "raw" → IsBlank r.query → Unresolved env r value_error
  no_id : r.source ≢ "raw" → IsBlank r.catalog_id → Unresolved env r value_error
  unknown_entry : Names env r none → Unresolved env r query_not_found
  no_view :
      (q : CatalogQuery)
      → Names env r (some q)
      → (r.view ≡ "auto") ⊎ (lookup q.queries r.view ≡ none)
      → Unresolved env r value_error
  wrong_parameters :
      (q : CatalogQuery)
      → Names env r (some q)
      → (¬ AllDeclared q r.parameters) ⊎ (¬ AllGiven r.parameters q.parameters)
      → Unresolved env r value_error

abbrev pub Resolution : Env → GraphExecuteRequest → Outcome (String × Dict String Json) → Type 0
Resolution env r (raised x) = Unresolved env r x
Resolution env r (returned resolved) = Resolves env r resolved

not_equal : (a b : String) → (a == b) ≡ false → a ≢ b
not_equal a b h e = absurd (let f = (eq_iff a b).1 e in cc)

not_empty : (s : String) → is_empty s ≡ false → s ≢ ""
not_empty s h e = absurd (cc (ap is_empty e))

is_missing-IsGiven : (o : Option Json) → is_missing o ≡ false → IsGiven o
unfolding is_missing
is_missing-IsGiven none h = absurd cc
is_missing-IsGiven (some null) h = absurd cc
is_missing-IsGiven (some (str s)) h = h
is_missing-IsGiven (some (bool b)) h = tt
is_missing-IsGiven (some (num n)) h = tt
is_missing-IsGiven (some (arr xs)) h = tt
is_missing-IsGiven (some (obj d)) h = tt

neither : (a b : Bool) → (a || b) ≡ false → (a ≡ false) × (b ≡ false)
neither true b h = absurd cc
neither false b h = (refl, h)

declared : (b : Bool) → not b ≡ false → b ≡ true
declared true h = refl
declared false h = absurd cc

has_unknown-AllDeclared :
    (q : CatalogQuery) (given : Dict String Json)
    → has_unknown q given ≡ false
    → AllDeclared q given
has_unknown-AllDeclared q [] h = tt
has_unknown-AllDeclared q (p ∷ given) h =
    let (first, rest) =
      neither (not (contains (names_of q.parameters) p.0))
        (any (λ p. not (contains (names_of q.parameters) p.0)) given) h in
    (declared (contains (names_of q.parameters) p.0) first, has_unknown-AllDeclared q given rest)

required : (b m : Bool) → (b && m) ≡ false → b ≡ true → m ≡ false
required true m h e = h
required false m h e = absurd cc

any_missing-AllGiven :
    (given : Dict String Json) (ps : List CatalogParameter)
    → any (λ p. p.required && is_missing (lookup given p.name)) ps ≡ false
    → AllGiven given ps
any_missing-AllGiven given [] h = tt
any_missing-AllGiven given (p ∷ ps) h =
    let (first, rest) =
      neither (p.required && is_missing (lookup given p.name))
        (any (λ p. p.required && is_missing (lookup given p.name)) ps) h in
    (
      λ e.
          is_missing-IsGiven (lookup given p.name)
            (required p.required (is_missing (lookup given p.name)) first e),
      any_missing-AllGiven given ps rest,
    )

AllDeclared-has_unknown :
    (q : CatalogQuery) (given : Dict String Json)
    → AllDeclared q given
    → has_unknown q given ≡ false
AllDeclared-has_unknown q [] h = refl
AllDeclared-has_unknown q (p ∷ given) h = rw (h.0, AllDeclared-has_unknown q given h.1) refl

IsGiven-is_missing : (o : Option Json) → IsGiven o → is_missing o ≡ false
unfolding is_missing
IsGiven-is_missing none h = absurd h
IsGiven-is_missing (some null) h = absurd h
IsGiven-is_missing (some (str s)) h = h
IsGiven-is_missing (some (bool b)) h = refl
IsGiven-is_missing (some (num n)) h = refl
IsGiven-is_missing (some (arr xs)) h = refl
IsGiven-is_missing (some (obj d)) h = refl

AllGiven-any_missing :
    (given : Dict String Json) (ps : List CatalogParameter)
    → AllGiven given ps
    → any (λ p. p.required && is_missing (lookup given p.name)) ps ≡ false
AllGiven-any_missing given [] h = refl
AllGiven-any_missing given (p ∷ ps) h = elim (Bool-cases p.required) [
  | inr e ↦ rw (e, AllGiven-any_missing given ps h.1) refl
  | inl e ↦
      rw (e, IsGiven-is_missing (lookup given p.name) (h.0 e), AllGiven-any_missing given ps h.1)
        refl
]

view_query-Resolution :
    (env : Env) (r : GraphExecuteRequest) (q : CatalogQuery) (o : Option String)
    → Names env r (some q)
    → r.view ≢ "auto"
    → lookup q.queries r.view ≡ o
    → Resolution env r (view_query q r o)
view_query-Resolution env r q none n v e = no_view q n (inr e)
view_query-Resolution env r q (some query) n v e = elim (Bool-cases (has_unknown q r.parameters)) [
  | inl u ↦ rw u (
      wrong_parameters q n
        (inl (λ h. absurd (let k = AllDeclared-has_unknown q r.parameters h in cc))))
  | inr u ↦ elim (Bool-cases (has_missing q r.parameters)) [
    | inl m ↦
        rw (u, m)
          (wrong_parameters q n
            (inr (λ h. absurd (let k = AllGiven-any_missing r.parameters q.parameters h in cc))))
    | inr m ↦
        rw (u, m)
          (from_entry q query n v e (has_unknown-AllDeclared q r.parameters u)
            (any_missing-AllGiven r.parameters q.parameters m))
  ]
]

from_catalog-Resolution :
    (env : Env) (r : GraphExecuteRequest) (q : Option CatalogQuery)
    → Names env r q
    → Resolution env r (from_catalog r q)
from_catalog-Resolution env r none n = unknown_entry n
from_catalog-Resolution env r (some q) n = elim (Bool-cases (r.view == "auto")) [
  | inl e ↦ rw e (no_view q n (inl ((eq_iff r.view "auto").0 e)))
  | inr e ↦ rw e (view_query-Resolution env r q _ n (not_equal r.view "auto" e) refl)
]

catalog-Resolution :
    (env : Env) (r : GraphExecuteRequest) (o : Option String)
    → r.source ≢ "raw"
    → r.catalog_id ≡ o
    → Resolution env r (catalog_query env r (nonempty o))
catalog-Resolution env r none s e = no_id s (rw e tt)
catalog-Resolution env r (some id) s e = elim (Bool-cases (is_empty id)) [
  | inl m ↦ rw m (no_id s (rw e (is_empty-eq id m)))
  | inr m ↦ rw m (
      from_catalog-Resolution env r (env.get_catalog_query id)
        (record { source = s; id = id; named = e; filled = not_empty id m; entry = refl }))
]

raw-Resolution :
    (env : Env) (r : GraphExecuteRequest) (o : Option String)
    → r.source ≡ "raw"
    → r.query ≡ o
    → Resolution env r (raw_query r (nonempty o))
raw-Resolution env r none s e = no_query s (rw e tt)
raw-Resolution env r (some query) s e = elim (Bool-cases (is_empty query)) [
  | inl m ↦ rw m (no_query s (rw e (is_empty-eq query m)))
  | inr m ↦ rw m (from_raw query s e (not_empty query m))
]

pub resolve_executable_query-Resolution :
    (env : Env) (r : GraphExecuteRequest) → Resolution env r (resolve_executable_query env r)
unfolding resolve_executable_query
resolve_executable_query-Resolution env r = elim (Bool-cases (r.source == "raw")) [
  | inl e ↦ rw e (raw-Resolution env r r.query ((eq_iff r.source "raw").0 e) refl)
  | inr e ↦ rw e (catalog-Resolution env r r.catalog_id (not_equal r.source "raw" e) refl)
]
