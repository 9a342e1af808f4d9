-- ===== src/Settings/Table.antt =====
-- The rows of `application_settings` (src/app/db/models/application_settings.py), which a query gives
-- in the order of their keys, and the statements of src/app/api/settings/v1/query.py. `id` and
-- `created_at`, which nothing reads, are left out.
use work_behavior_analytics.Prelude.{
  ℕ, ltb, Bool, ◌&&◌, String, Option, none, some, List, [], ◌∷◌, map, filter, contains, ◌==◌,
  text_key, if◌then◌else◌,
}
use work_behavior_analytics.Prelude.Dict.{Dict, lookup}
use work_behavior_analytics.Prelude.Json.{Json, null}

-- A `value` of NULL is null.
pub record Setting : Type 0 where
  pub key : String
  pub value : Json
  pub value_type : String
  pub category : Option String
  pub description : Option String
  pub apply_mode : String
  pub importance : String
  pub is_sensitive : Bool
  pub updated_at : ℕ

abbrev pub changed_since : ℕ → Setting → Bool
changed_since expected row = ltb expected row.updated_at

abbrev pub values_of : List Setting → Dict String Json
values_of = map λ r. (r.key, r.value)

-- The keys that changed, with the values that they have now.
unfoldable pub check_conflicts : List Setting → List String → Option ℕ → Dict String Json
check_conflicts rows keys none = []
check_conflicts rows keys (some expected) =
    values_of (filter (λ r. contains keys r.key && changed_since expected r) rows)

unfoldable pub get_setting_by_key : List Setting → String → Option Setting
get_setting_by_key [] key = none
get_setting_by_key (row ∷ rows) key =
    let rest = get_setting_by_key rows key in if row.key == key then some row else rest

abbrev pub write_value : Json → ℕ → Setting → Setting
write_value v now row = record row { value = v; updated_at = now }

unfoldable pub update_setting_value : List Setting → String → Json → ℕ → List Setting
update_setting_value rows key v now =
    map (λ r. if r.key == key then write_value v now r else r) rows

abbrev pub reset_setting_value : List Setting → String → ℕ → List Setting
reset_setting_value rows key now = update_setting_value rows key null now

abbrev pub write_from : ℕ → Setting → Option Json → Setting
write_from now row none = row
write_from now row (some v) = write_value v now row

unfoldable pub bulk_update_values : List Setting → Dict String Json → ℕ → List Setting
unfolding lookup
bulk_update_values rows updates now = map (λ r. write_from now r (lookup updates r.key)) rows

unfoldable pub reset_all_values : List Setting → ℕ → List Setting
reset_all_values rows now = map (write_value null now) rows
