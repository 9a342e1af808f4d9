-- ===== src/Settings/Examples.antt =====
-- Requests on a small table of settings, and the theorems about them at these inputs.
use work_behavior_analytics.Prelude.{
  ℕ, Bool, true, false, String, Option, none, some, List, [], ◌∷◌, ◌==◌, text_key, if◌then◌else◌,
  ◌≡◌, refl, inl, inr, arith, ◌≤◌,
}
use work_behavior_analytics.Prelude.Text.{strip, upper, lower, has_text}
use work_behavior_analytics.Prelude.Dict.{lookup, insert}
use work_behavior_analytics.Prelude.Json.{Json, null, num, str}
use work_behavior_analytics.Settings.Config.{
  Env, int_field, flag_field, fields, at_most, validate_field, build, runtime_config, get_int,
  get_bool, value, type_error,
}
use work_behavior_analytics.Settings.Table.{
  Setting, check_conflicts, get_setting_by_key, update_setting_value, bulk_update_values,
  reset_all_values,
}
use work_behavior_analytics.Settings.Source.{
  from_db, resolve_source, collect_overrides, accepts_alone, keep_valid, config_of,
  resolve_effective_config, is_unconfigured,
}
use work_behavior_analytics.Settings.Service.{
  SettingsStore, SettingView, conflict, invalid, update_all, candidate_overrides, bulk_update,
  update_single, reset_single, reset_all, get_all_settings, reset_views, load_db_overrides,
}
use work_behavior_analytics.Settings.Collected.{reference_config, DistinctRows}
use work_behavior_analytics.Settings.Effective.{NumbersParse, resolve_effective_config-reference}
use work_behavior_analytics.Settings.Requests.{
  IsSynced, Request, updates_one, resets_all, reloads, serve, serve_all, last_loaded,
  serve_all-IsSynced,
}
use work_behavior_analytics.Settings.Lost.{Conflicts, update_single-Conflicts}
use work_behavior_analytics.Settings.Reads.{reference_config-reads}
use work_behavior_analytics.Settings.Masked.{get_all_settings-masks}

abbrev env : Env
env = record {
  environ = λ k. if k == "MAX_TOKENS" then some "32000" else none;
  int_of = λ s. some 32000;
  lax_int = λ s. none;
  is_timezone = λ s. true;
  publishes = λ keys. true;
}

abbrev setting : String → Json → Bool → Setting
setting key v is_sensitive = record {
  key = key;
  value = v;
  value_type = "int";
  category = none;
  description = none;
  apply_mode = "live";
  importance = "optional";
  is_sensitive = is_sensitive;
  updated_at = 10;
}

abbrev rows : List Setting
rows =
    setting "MAX_TOKENS" null false
    ∷ setting "OPENAI_API_KEY" (str "sk-1") true
    ∷ setting "RECENT_ACTIONS_LIMIT" (num 99) false
    ∷ []

abbrev rows' : List Setting
rows' =
    setting "MAX_TOKENS" null false
    ∷ setting "OPENAI_API_KEY" (str "sk-2") true
    ∷ setting "RECENT_ACTIONS_LIMIT" (num 99) false
    ∷ []

abbrev store : SettingsStore
store = record { rows = rows; service_cache = []; runtime_cache = []; published = [] }

numbers-parse : NumbersParse env
numbers-parse key raw d ge le e h = refl

rows-DistinctRows : DistinctRows rows
unfolding get_setting_by_key
rows-DistinctRows = (refl, (refl, (refl, tt)))

program : Unit {0}
unfolding insert lookup validate_field build runtime_config get_int get_bool check_conflicts
    get_setting_by_key update_setting_value bulk_update_values reset_all_values lower strip upper
    has_text resolve_source collect_overrides accepts_alone keep_valid config_of is_unconfigured
    update_all candidate_overrides bulk_update update_single reset_single get_all_settings
    reset_views reset_all load_db_overrides serve serve_all
program = tt
  where
    -- The environment counts where the database has no value; a value out of bounds gives the default.
    tokens : get_int (serve env 20 store reloads).runtime_cache "MAX_TOKENS" ≡ value 32000
    tokens = refl

    limit : get_int (serve env 20 store reloads).runtime_cache "RECENT_ACTIONS_LIMIT" ≡ value 5
    limit = refl

    flag : get_int (serve env 20 store reloads).runtime_cache "GITHUB_MCP_ENABLED" ≡ type_error
    flag = refl

    -- A change of another setting is refused while one row holds a value out of bounds.
    blocked : (update_single env 20 store "MAX_TOKENS" (num 2000) none).0 ≡ invalid
    blocked = refl

    leaked :
        (update_single env 20 store "OPENAI_API_KEY" (str "sk-3") (some 5)).0
        ≡ conflict (("OPENAI_API_KEY", str "sk-1") ∷ [])
    leaked = refl

abbrev synced_store : SettingsStore
synced_store = record store { runtime_cache = reference_config env rows }

synced_store-IsSynced : IsSynced env rows synced_store
synced_store-IsSynced = record { distinct = rows-DistinctRows; synced = refl }

abbrev changes : List (ℕ × Request)
changes =
    (20, updates_one "MAX_TOKENS" (num 2000) none) ∷ (25, reloads) ∷ (30, resets_all none) ∷ []

resolve_effective_config-reference_example :
    resolve_effective_config env rows ≡ some (reference_config env rows)
resolve_effective_config-reference_example =
    resolve_effective_config-reference env rows rows-DistinctRows numbers-parse

serve_all-IsSynced_example :
    IsSynced env (last_loaded env synced_store rows changes) (serve_all env synced_store changes)
serve_all-IsSynced_example =
    serve_all-IsSynced env rows synced_store changes numbers-parse synced_store-IsSynced

abbrev small_store : SettingsStore
small_store = record {
  rows = setting "OPENAI_API_KEY" (str "sk-1") true ∷ [];
  service_cache = [];
  runtime_cache = [];
  published = [];
}

abbrev small_view : SettingView
small_view = record {
  row = record (setting "OPENAI_API_KEY" (str "*******") true) { updated_at = 20 };
  effective_value = str "*******";
  source = from_db;
  is_configured = true;
  propagation_warning = false;
}

update_single-Conflicts_example :
    Conflicts "OPENAI_API_KEY"
      (str "sk-2")
      (update_single env 30
        (update_single env 20 small_store "OPENAI_API_KEY" (str "sk-2") none).1
        "OPENAI_API_KEY"
        (str "sk-3")
        (some 15)).0
    × ((update_single env 30
          (update_single env 20 small_store "OPENAI_API_KEY" (str "sk-2") none).1
          "OPENAI_API_KEY"
          (str "sk-3")
          (some 15)).1
        ≡ (update_single env 20 small_store "OPENAI_API_KEY" (str "sk-2") none).1)
unfolding insert lookup validate_field build runtime_config check_conflicts get_setting_by_key
    update_setting_value strip upper has_text resolve_source collect_overrides accepts_alone
    keep_valid config_of is_unconfigured update_all candidate_overrides update_single
update_single-Conflicts_example =
    update_single-Conflicts env 20 30 15 small_store "OPENAI_API_KEY" (str "sk-2") (str "sk-3") none
      small_view (ground arith) refl

reference_config-reads_example :
    ((key : String) (d ge : ℕ) (le : Option ℕ)
      → lookup fields key ≡ some (int_field d ge le)
      → (n : ℕ) × (get_int synced_store.runtime_cache key ≡ value n)
        × (ge ≤ n)
        × (at_most n le ≡ true))
    × ((key : String) (d : Bool)
        → lookup fields key ≡ some (flag_field d)
        → (b : Bool) × (get_bool synced_store.runtime_cache key ≡ value b))
reference_config-reads_example = reference_config-reads env rows synced_store.runtime_cache refl

get_all_settings-masks_example : get_all_settings env rows ≡ get_all_settings env rows'
unfolding is_unconfigured strip upper has_text
get_all_settings-masks_example = get_all_settings-masks env rows rows' (
  inl refl,
  (
    inr (record {
      other = str "sk-2";
      sensitive = refl;
      rest = refl;
      set = refl;
      other_set = refl;
      configured = refl;
    }),
    (inl refl, tt),
  ),
)
