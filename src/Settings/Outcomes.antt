-- ===== src/Settings/Outcomes.antt =====
-- Every outcome of an update of src/app/api/settings/v1/service.py, and two updates in a row.
use work_behavior_analytics.Prelude.{
  ℕ, Bool, not, String, Option, none, some, List, [], ◌∷◌, ◌++◌, text_key, if◌then◌else◌, ◌≡◌,
}
use work_behavior_analytics.Prelude.Dict.{Dict}
use work_behavior_analytics.Prelude.Json.{Json}
use work_behavior_analytics.Settings.Config.{Env, Config, runtime_config}
use work_behavior_analytics.Settings.Table.{Setting, check_conflicts, bulk_update_values}
use work_behavior_analytics.Settings.Service.{
  SettingsStore, Reply, replied, unknown_keys, conflict, invalid, refreshed, unknown_of, keys_of,
  candidate_overrides, updated_values, bulk_reply,
}
use work_behavior_analytics.Settings.Collected.{reference_config}

module _ (env : Env) (now : ℕ) (w : SettingsStore) (updates : Dict String Json)
    (expected : Option ℕ) where
  -- An update that is rejected leaves everything as it was. One that is saved writes its keys, sets the
  -- service's own cache to what the new rows say, and sends one event with its keys, or warns.
  pub data BulkOutcome : Reply (Dict String Json × Bool) → SettingsStore → Type 0 where
    no_such_key :
        (k : String) (ks : List String)
        → unknown_of w.rows updates ≡ k ∷ ks
        → BulkOutcome (unknown_keys (k ∷ ks)) w
    outdated :
        (c : String × Json) (cs : Dict String Json)
        → unknown_of w.rows updates ≡ []
        → check_conflicts w.rows (keys_of updates) expected ≡ c ∷ cs
        → BulkOutcome (conflict (c ∷ cs)) w
    not_valid :
        unknown_of w.rows updates ≡ []
        → check_conflicts w.rows (keys_of updates) expected ≡ []
        → runtime_config env (candidate_overrides w.rows updates) ≡ none
        → BulkOutcome invalid w
    saved :
        (config : Config) (rows : List Setting) (sent : Bool)
        → env.publishes (keys_of updates) ≡ sent
        → unknown_of w.rows updates ≡ []
        → check_conflicts w.rows (keys_of updates) expected ≡ []
        → runtime_config env (candidate_overrides w.rows updates) ≡ some config
        → rows ≡ bulk_update_values w.rows updates now
        → BulkOutcome (replied (updated_values rows updates, not sent)) (record {
          rows = rows;
          service_cache = reference_config env rows;
          runtime_cache = w.runtime_cache;
          published = if sent then w.published ++ keys_of updates ∷ [] else w.published;
        })

  abbrev Shown : Reply (Dict String Json × Bool) × SettingsStore → Type 0
  Shown result = BulkOutcome result.0 result.1

  abbrev written : SettingsStore
  written = record w { rows = bulk_update_values w.rows updates now }

  abbrev saving : Reply (Dict String Json × Bool) × SettingsStore
  saving =
      refreshed env (keys_of updates) (bulk_reply written.rows updates) written
        (some (reference_config env written.rows))
