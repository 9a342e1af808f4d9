-- ===== src/Settings/Service.antt =====
-- The operations of src/app/api/settings/v1/service.py. A request runs alone; `now` is the clock of its
-- write.
use work_behavior_analytics.Prelude.{
  ℕ, Bool, true, false, not, ◌&&◌, String, Option, none, some, List, [], ◌∷◌, ◌++◌, map, filter,
  is_some, text_key, if◌then◌else◌,
}
use work_behavior_analytics.Prelude.Dict.{Dict, lookup, insert}
use work_behavior_analytics.Prelude.Json.{Json, null}
use work_behavior_analytics.Settings.Config.{Env, Config, fields, runtime_config}
use work_behavior_analytics.Settings.Table.{
  Setting, check_conflicts, get_setting_by_key, update_setting_value, reset_setting_value,
  bulk_update_values, reset_all_values, values_of,
}
use work_behavior_analytics.Settings.Source.{
  Source, resolve_source, is_null, collect_overrides, config_of, resolve_effective_config,
  mask_value, is_unconfigured,
}

-- The table, the two caches and the events sent, newest last. `service_cache` is the service's own
-- `_runtime_cache`, which the requests refresh; `runtime_cache` is the process-wide one of
-- src/domain/timezone.py, which `load_db_overrides_from_session` refreshes and the readers read.
pub record SettingsStore : Type 0 where
  pub rows : List Setting
  pub service_cache : Config
  pub runtime_cache : Config
  pub published : List (List String)

-- The exceptions: ValueError for keys without a row, ConflictError with the values that the rows have
-- now, ValidationError, and the ValueError of a text in the environment that is no number.
pub data Reply (A : Type 0) : Type 0 where
  replied : A → Reply A
  unknown_keys : List String → Reply A
  conflict : Dict String Json → Reply A
  invalid : Reply A
  not_a_number : Reply A

-- `_publish_changed`: true where the change could not be propagated.
abbrev pub publish_changed : Env → List String → SettingsStore → Bool × SettingsStore
publish_changed env keys w =
    if env.publishes keys
    then (false, record w { published = w.published ++ keys ∷ [] })
    else (true, w)

-- A setting as the API gives it.
pub record SettingView : Type 0 where
  pub row : Setting
  pub effective_value : Json
  pub source : Source
  pub is_configured : Bool
  pub propagation_warning : Bool

abbrev pub masked : Bool → Json → Json
masked is_sensitive v = if is_sensitive then mask_value v else v

abbrev pub view_of : Setting → Bool → Json → Source → Bool → SettingView
view_of row is_configured raw source warning = record {
  row = record row { value = masked row.is_sensitive row.value };
  effective_value = masked row.is_sensitive raw;
  source = source;
  is_configured = is_configured;
  propagation_warning = warning;
}

abbrev pub shown : Setting → Bool → Option (Json × Source) → Option SettingView
shown row warning none = none
shown row warning (some (raw, source)) =
    some (view_of row (not (is_unconfigured raw)) raw source warning)

abbrev pub cons_view : Option SettingView → Option (List SettingView) → Option (List SettingView)
cons_view none views = none
cons_view (some v) none = none
cons_view (some v) (some views) = some (v ∷ views)

-- none where a text of the environment is no number
unfoldable pub get_all_settings : Env → List Setting → Option (List SettingView)
unfolding resolve_source is_unconfigured
get_all_settings env [] = some []
get_all_settings env (row ∷ rows) =
    cons_view (shown row false (resolve_source env row.value row.key)) (get_all_settings env rows)

abbrev pub is_candidate : Setting → Bool
is_candidate r = not (is_null r.value) && is_some (lookup fields r.key)

-- `d.update(…)`
unfoldable pub update_all : Dict String Json → Dict String Json → Dict String Json
unfolding insert
update_all d [] = d
update_all d ((key, v) ∷ updates) = update_all (insert d key v) updates

unfoldable pub candidate_overrides : List Setting → Dict String Json → Dict String Json
unfolding update_all lookup
candidate_overrides rows updates = update_all (values_of (filter is_candidate rows)) updates

abbrev pub keys_of : Dict String Json → List String
keys_of = map λ entry. entry.0

abbrev pub reply_with : {A : Type 0} → SettingsStore → Option A → Reply A × SettingsStore
reply_with w none = (not_a_number, w)
reply_with w (some a) = (replied a, w)

-- From the refresh of the service's cache on: the event, and what `reply` makes of the warning.
abbrev pub refreshed :
    {A : Type 0}
    → Env
    → List String
    → (Bool → Option A)
    → SettingsStore
    → Option Config
    → Reply A × SettingsStore
refreshed env keys reply w none = (not_a_number, w)
refreshed env keys reply w (some config) =
    let (warning, w') = publish_changed env keys (record w { service_cache = config }) in
    reply_with w' (reply warning)

abbrev pub refresh :
    {A : Type 0} → Env → List String → (Bool → Option A) → SettingsStore → Reply A × SettingsStore
refresh env keys reply w = refreshed env keys reply w (resolve_effective_config env w.rows)

-- The keys that no row has.
abbrev pub unknown_of : List Setting → Dict String Json → List String
unknown_of rows updates = filter (λ k. not (is_some (get_setting_by_key rows k))) (keys_of updates)

-- The check of the candidate, then what follows it.
abbrev pub if_valid :
    {A : Type 0} → SettingsStore → Option Config → Reply A × SettingsStore → Reply A × SettingsStore
if_valid w none next = (invalid, w)
if_valid w (some config) next = next

abbrev pub unless_conflict :
    {A : Type 0}
    → SettingsStore
    → Dict String Json
    → Reply A × SettingsStore
    → Reply A × SettingsStore
unless_conflict w [] next = next
unless_conflict w (c ∷ conflicts) next = (conflict (c ∷ conflicts), w)

abbrev pub unless_unknown :
    {A : Type 0} → SettingsStore → List String → Reply A × SettingsStore → Reply A × SettingsStore
unless_unknown w [] next = next
unless_unknown w (k ∷ ks) next = (unknown_keys (k ∷ ks), w)

-- The values of the rows that were written.
abbrev pub updated_values : List Setting → Dict String Json → Dict String Json
updated_values rows updates = values_of (filter (λ r. is_some (lookup updates r.key)) rows)

abbrev pub bulk_reply : List Setting → Dict String Json → Bool → Option (Dict String Json × Bool)
bulk_reply rows updates warning = some (updated_values rows updates, warning)

-- From the write on.
abbrev pub bulk_saved :
    Env → ℕ → SettingsStore → Dict String Json → Reply (Dict String Json × Bool) × SettingsStore
bulk_saved env now w updates =
    let rows = bulk_update_values w.rows updates now in
    refresh env (keys_of updates) (bulk_reply rows updates) (record w { rows = rows })

unfoldable pub bulk_update :
    Env
    → ℕ
    → SettingsStore
    → Dict String Json
    → Option ℕ
    → Reply (Dict String Json × Bool) × SettingsStore
unfolding get_setting_by_key check_conflicts candidate_overrides runtime_config bulk_update_values
    lookup collect_overrides config_of
bulk_update env now w updates expected = unless_unknown w (unknown_of w.rows updates) (
    unless_conflict w (check_conflicts w.rows (keys_of updates) expected) (
      if_valid w (runtime_config env (candidate_overrides w.rows updates))
        (bulk_saved env now w updates)))

abbrev pub view_by_key : List Setting → String → (Setting → Option SettingView) → Option SettingView
view_by_key rows key view = elim (get_setting_by_key rows key) [ none ↦ none | some row ↦ view row ]

abbrev pub single_reply : Env → List Setting → String → Bool → Option SettingView
single_reply env rows key warning =
    view_by_key rows key (λ row. shown row warning (resolve_source env row.value key))

abbrev pub single_saved :
    Env → ℕ → SettingsStore → String → Json → Reply SettingView × SettingsStore
single_saved env now w key v =
    let rows = update_setting_value w.rows key v now in
    refresh env (key ∷ []) (single_reply env rows key) (record w { rows = rows })

unfoldable pub update_single :
    Env → ℕ → SettingsStore → String → Json → Option ℕ → Reply SettingView × SettingsStore
unfolding get_setting_by_key check_conflicts candidate_overrides runtime_config update_setting_value
    resolve_source is_unconfigured collect_overrides config_of
update_single env now w key v expected = unless_unknown w (unknown_of w.rows ((key, v) ∷ [])) (
    unless_conflict w (check_conflicts w.rows (key ∷ []) expected) (
      if_valid w (runtime_config env (candidate_overrides w.rows ((key, v) ∷ [])))
        (single_saved env now w key v)))

-- A reset setting is shown as not configured.
abbrev pub shown_reset : Setting → Bool → Option (Json × Source) → Option SettingView
shown_reset row warning none = none
shown_reset row warning (some (raw, source)) =
    some (view_of (record row { value = null }) false raw source warning)

abbrev pub reset_reply : Env → List Setting → String → Bool → Option SettingView
reset_reply env rows key warning =
    view_by_key rows key (λ row. shown_reset row warning (resolve_source env null key))

abbrev pub reset_saved : Env → ℕ → SettingsStore → String → Reply SettingView × SettingsStore
reset_saved env now w key =
    let rows = reset_setting_value w.rows key now in
    refresh env (key ∷ []) (reset_reply env rows key) (record w { rows = rows })

unfoldable pub reset_single :
    Env → ℕ → SettingsStore → String → Option ℕ → Reply SettingView × SettingsStore
unfolding get_setting_by_key check_conflicts update_setting_value resolve_source collect_overrides
    config_of
reset_single env now w key expected =
    unless_unknown w (unknown_of w.rows ((key, null) ∷ []))
      (unless_conflict w (check_conflicts w.rows (key ∷ []) expected) (reset_saved env now w key))

unfoldable pub reset_views : Env → List Setting → Bool → Option (List SettingView)
unfolding resolve_source
reset_views env [] warning = some []
reset_views env (row ∷ rows) warning =
    cons_view (shown_reset row warning (resolve_source env null row.key))
      (reset_views env rows warning)

abbrev pub keys_of_rows : List Setting → List String
keys_of_rows = map λ r. r.key

abbrev pub all_reset : Env → ℕ → SettingsStore → Reply (List SettingView) × SettingsStore
all_reset env now w =
    let rows = reset_all_values w.rows now in
    refresh env (keys_of_rows w.rows) (reset_views env rows) (record w { rows = rows })

unfoldable pub reset_all :
    Env → ℕ → SettingsStore → Option ℕ → Reply (List SettingView) × SettingsStore
unfolding check_conflicts reset_all_values reset_views collect_overrides config_of
reset_all env now w expected =
    unless_conflict w (check_conflicts w.rows (keys_of_rows w.rows) expected) (all_reset env now w)

abbrev pub reloaded : SettingsStore → Option Config → Option SettingsStore
reloaded w none = none
reloaded w (some config) = some (record w { runtime_cache = config })

-- `load_db_overrides_from_session` of src/app/runtime_settings.py
unfoldable pub load_db_overrides : Env → SettingsStore → Option SettingsStore
unfolding collect_overrides config_of
load_db_overrides env w = reloaded w (resolve_effective_config env w.rows)
