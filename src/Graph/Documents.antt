-- ===== src/Graph/Documents.antt =====
-- What the results of a query hold, in src/app/api/graph/v1/transformers.py.
use work_behavior_analytics.Prelude.{
  Bool, true, false, ◌||◌, List, [], ◌∷◌, map, any, ◌≡◌, refl, ap, ◌∙◌,
}
use work_behavior_analytics.Prelude.Json.{str, arr}
use work_behavior_analytics.Graph.Values.{
  texts, plain, time, times, Value, property, node, relationship, path, list, dict, Values,
  no_values, a_value, Entries, no_entries, an_entry, make_serializable, serializable_items,
  serializable_entries,
}
use work_behavior_analytics.Graph.Extract.{
  Elements, is_path, extract_value, extract_values, extract_entries, extract_records,
}
use work_behavior_analytics.Graph.Service.{serializable_record}

-- Whether a node or a relationship stands anywhere in a value.
unfoldable mutual
  pub has_element : Value → Bool
  has_element (property p) = false
  has_element (node n) = true
  has_element (relationship r) = true
  has_element (path ns rs) = is_path ns rs
  has_element (list xs) = has_elements xs
  has_element (dict d) = row_has d

  pub has_elements : Values → Bool
  has_elements no_values = false
  has_elements (a_value x xs) = has_element x || has_elements xs

  pub row_has : Entries → Bool
  row_has no_entries = false
  row_has (an_entry key x d) = has_element x || row_has d

-- The second is the first with its times as texts, in the same places and under the same keys.
unfoldable mutual
  pub Shows : Value → Value → Type 0
  Shows (property (plain v)) (property (plain w)) = w ≡ v
  Shows (property (time t)) (property (plain w)) = w ≡ str t
  Shows (property (times ts)) (property (plain w)) = w ≡ arr (texts ts)
  Shows (list xs) (list ys) = AllShow xs ys
  Shows (dict d) (dict e) = RowShows d e
  Shows (path [] []) v = Unit
  Shows _ _ = ⊥

  pub AllShow : Values → Values → Type 0
  AllShow no_values no_values = Unit
  AllShow (a_value x xs) (a_value y ys) = Shows x y × AllShow xs ys
  AllShow _ _ = ⊥

  pub RowShows : Entries → Entries → Type 0
  RowShows no_entries no_entries = Unit
  RowShows (an_entry key x d) (an_entry key' y e) = (key' ≡ key) × Shows x y × RowShows d e
  RowShows _ _ = ⊥

or_swap : (a b c : Bool) → (b || (a || c)) ≡ ((a || b) || c)
or_swap true true c = refl
or_swap true false c = refl
or_swap false b c = refl

pub or_false : (a : Bool) → (a || false) ≡ a
or_false true = refl
or_false false = refl

neither : (a b : Bool) → (a || b) ≡ false → (a ≡ false) × (b ≡ false)
neither true b h = absurd cc
neither false b h = (refl, h)

mutual
  unfolding extract_value has_element

  extract_value-has : (v : Value) (e : Elements) → (extract_value v e).0 ≡ has_element v
  extract_value-has (property p) e = refl
  extract_value-has (node n) e = refl
  extract_value-has (relationship r) e = refl
  extract_value-has (path ns rs) e = refl
  extract_value-has (list xs) e = extract_values-has xs false e ∙ or_false _
  extract_value-has (dict d) e = extract_entries-has d false e ∙ or_false _

  extract_values-has :
      (xs : Values) (b : Bool) (e : Elements) → (extract_values xs b e).0 ≡ (has_elements xs || b)
  extract_values-has no_values b e = refl
  extract_values-has (a_value x xs) b e =
      extract_values-has xs _ _
      ∙ ap (λ found. has_elements xs || (found || b)) (extract_value-has x e)
      ∙ or_swap (has_element x) (has_elements xs) b

  extract_entries-has :
      (d : Entries) (b : Bool) (e : Elements) → (extract_entries d b e).0 ≡ (row_has d || b)
  extract_entries-has no_entries b e = refl
  extract_entries-has (an_entry key x d) b e =
      extract_entries-has d _ _
      ∙ ap (λ found. row_has d || (found || b)) (extract_value-has x e)
      ∙ or_swap (has_element x) (row_has d) b

pub extract_records-has :
    (rows : List Entries) (b : Bool) (e : Elements)
    → (extract_records rows b e).0 ≡ (any row_has rows || b)
unfolding extract_records
extract_records-has [] b e = refl
extract_records-has (row ∷ rows) b e =
    extract_records-has rows _ _
    ∙ ap (λ found. any row_has rows || found) (extract_entries-has row b e)
    ∙ or_swap (row_has row) (any row_has rows) b

mutual
  unfolding make_serializable has_element Shows

  make_serializable-Shows : (v : Value) → has_element v ≡ false → Shows v (make_serializable v)
  make_serializable-Shows (property (plain v)) h = refl
  make_serializable-Shows (property (time t)) h = refl
  make_serializable-Shows (property (times ts)) h = refl
  make_serializable-Shows (node n) h = absurd cc
  make_serializable-Shows (relationship r) h = absurd cc
  make_serializable-Shows (path [] []) h = tt
  make_serializable-Shows (path [] (r ∷ rs)) h = absurd cc
  make_serializable-Shows (path (n ∷ ns) rs) h = absurd cc
  make_serializable-Shows (list xs) h = items-AllShow xs h
  make_serializable-Shows (dict d) h = entries-RowShows d h

  items-AllShow : (xs : Values) → has_elements xs ≡ false → AllShow xs (serializable_items xs)
  items-AllShow no_values h = tt
  items-AllShow (a_value x xs) h =
      let parts = neither (has_element x) (has_elements xs) h in
      (make_serializable-Shows x parts.0, items-AllShow xs parts.1)

  entries-RowShows : (d : Entries) → row_has d ≡ false → RowShows d (serializable_entries d)
  entries-RowShows no_entries h = tt
  entries-RowShows (an_entry key x d) h =
      let parts = neither (has_element x) (row_has d) h in
      (refl, make_serializable-Shows x parts.0, entries-RowShows d parts.1)

abbrev pub RowsShow : List Entries → List Entries → Type 0
RowsShow [] [] = Unit
RowsShow [] (s ∷ ss) = ⊥
RowsShow (r ∷ rs) [] = ⊥
RowsShow (r ∷ rs) (s ∷ ss) = RowShows r s × RowsShow rs ss

pub rows-RowsShow :
    (rows : List Entries) → any row_has rows ≡ false → RowsShow rows (map serializable_record rows)
unfolding serializable_record
rows-RowsShow [] h = tt
rows-RowsShow (row ∷ rows) h =
    let parts = neither (row_has row) (any row_has rows) h in
    (entries-RowShows row parts.0, rows-RowsShow rows parts.1)
