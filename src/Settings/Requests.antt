-- ===== src/Settings/Requests.antt =====
-- The requests on the settings of src/app/api/settings/v1/service.py, one after the other, and the
-- process-wide cache.
use mathlib.Core.Path.{subst}
use work_behavior_analytics.Prelude.{
  ℕ, Bool, String, Option, none, some, List, [], ◌∷◌, map, ◌==◌, text_key, Bool-cases, Option-cases,
  ◌≡◌, refl, sym, inl, inr, arith,
}
use work_behavior_analytics.Prelude.Dict.{Dict, lookup}
use work_behavior_analytics.Prelude.Json.{Json, null}
use work_behavior_analytics.Settings.Config.{Env, Config}
use work_behavior_analytics.Settings.Table.{
  Setting, get_setting_by_key, update_setting_value, bulk_update_values, reset_all_values,
}
use work_behavior_analytics.Settings.Service.{
  keys_of, keys_of_rows, bulk_reply, single_reply, reset_reply, reset_views, bulk_saved,
  single_saved, reset_saved, all_reset, reloaded, SettingsStore, Reply, publish_changed, refreshed,
  refresh, reply_with, unless_unknown, unless_conflict, if_valid, bulk_update, update_single,
  reset_single, reset_all, load_db_overrides,
}
use work_behavior_analytics.Settings.Build.{some-injective}
use work_behavior_analytics.Settings.Collected.{reference_config, DistinctRows}
use work_behavior_analytics.Settings.Effective.{NumbersParse, resolve_effective_config-reference}

pub data Request : Type 0 where
  updates_many : Dict String Json → Option ℕ → Request
  updates_one : String → Json → Option ℕ → Request
  resets_one : String → Option ℕ → Request
  resets_all : Option ℕ → Request
  reloads : Request

abbrev or_same : SettingsStore → Option SettingsStore → SettingsStore
or_same w none = w
or_same w (some w') = w'

-- A request at the time `now`.
unfoldable pub serve : Env → ℕ → SettingsStore → Request → SettingsStore
unfolding bulk_update update_single reset_single reset_all load_db_overrides
serve env now w (updates_many updates expected) = (bulk_update env now w updates expected).1
serve env now w (updates_one key v expected) = (update_single env now w key v expected).1
serve env now w (resets_one key expected) = (reset_single env now w key expected).1
serve env now w (resets_all expected) = (reset_all env now w expected).1
serve env now w reloads = or_same w (load_db_overrides env w)

unfoldable pub serve_all : Env → SettingsStore → List (ℕ × Request) → SettingsStore
unfolding serve
serve_all env w [] = w
serve_all env w ((now, request) ∷ requests) = serve_all env (serve env now w request) requests

-- The rows as they were at the last reload, `loaded` without one.
unfoldable pub last_loaded : Env → SettingsStore → List Setting → List (ℕ × Request) → List Setting
unfolding serve
last_loaded env w loaded [] = loaded
last_loaded env w loaded ((now, reloads) ∷ requests) =
    last_loaded env (serve env now w reloads) w.rows requests
last_loaded env w loaded ((now, updates_many updates expected) ∷ requests) =
    last_loaded env (serve env now w (updates_many updates expected)) loaded requests
last_loaded env w loaded ((now, updates_one key v expected) ∷ requests) =
    last_loaded env (serve env now w (updates_one key v expected)) loaded requests
last_loaded env w loaded ((now, resets_one key expected) ∷ requests) =
    last_loaded env (serve env now w (resets_one key expected)) loaded requests
last_loaded env w loaded ((now, resets_all expected) ∷ requests) =
    last_loaded env (serve env now w (resets_all expected)) loaded requests

-- The rows have distinct keys, and the process-wide cache is what the loaded rows said.
pub record IsSynced (env : Env) (loaded : List Setting) (w : SettingsStore) : Type 0 where
  pub distinct : DistinctRows w.rows
  pub synced : w.runtime_cache ≡ reference_config env loaded

get_setting_by_key-map :
    (f : Setting → Setting) (rows : List Setting) (key : String)
    → ((r : Setting) → (f r).key ≡ r.key)
    → get_setting_by_key rows key ≡ none
    → get_setting_by_key (map f rows) key ≡ none
unfolding get_setting_by_key
get_setting_by_key-map f [] key k h = refl
get_setting_by_key-map f (r ∷ rows) key k h =
    rw (k r) (ground (arith, get_setting_by_key-map f rows key k))

pub map-DistinctRows :
    (f : Setting → Setting) (rows : List Setting)
    → ((r : Setting) → (f r).key ≡ r.key)
    → DistinctRows rows
    → DistinctRows (map f rows)
map-DistinctRows f [] k u = tt
map-DistinctRows f (r ∷ rows) k u =
    (rw (k r) (get_setting_by_key-map f rows r.key k u.0), map-DistinctRows f rows k u.1)

update_setting_value-DistinctRows :
    (rows : List Setting) (key : String) (v : Json) (now : ℕ)
    → DistinctRows rows
    → DistinctRows (update_setting_value rows key v now)
unfolding update_setting_value
update_setting_value-DistinctRows rows key v now =
    map-DistinctRows _ rows
      λ r. elim (Bool-cases (r.key == key)) [ inl e ↦ rw e refl | inr e ↦ rw e refl ]

pub bulk_update_values-DistinctRows :
    (rows : List Setting) (updates : Dict String Json) (now : ℕ)
    → DistinctRows rows
    → DistinctRows (bulk_update_values rows updates now)
unfolding bulk_update_values
bulk_update_values-DistinctRows rows updates now =
    map-DistinctRows _ rows
      λ r. elim (Option-cases (lookup updates r.key)) [ inl e ↦ rw e refl | inr (v, e) ↦ rw e refl ]

reset_all_values-DistinctRows :
    (rows : List Setting) (now : ℕ) → DistinctRows rows → DistinctRows (reset_all_values rows now)
unfolding reset_all_values
reset_all_values-DistinctRows rows now = map-DistinctRows _ rows (λ r. refl)

pub reply_with-store : {A : Type 0} (w : SettingsStore) (o : Option A) → (reply_with w o).1 ≡ w
reply_with-store w none = refl
reply_with-store w (some a) = refl

publish_changed-keeps :
    (env : Env) (loaded : List Setting) (keys : List String) (w : SettingsStore)
    → IsSynced env loaded w
    → IsSynced env loaded (publish_changed env keys w).1
publish_changed-keeps env loaded keys w s = elim (Bool-cases (env.publishes keys)) [
  | inl e ↦ rw e (record { distinct = s.distinct; synced = s.synced })
  | inr e ↦ rw e s
]

refresh-keeps :
    {A : Type 0} (env : Env) (loaded : List Setting) (keys : List String) (reply : Bool → Option A)
    (w : SettingsStore) (config : Option Config)
    → IsSynced env loaded w
    → IsSynced env loaded (refreshed env keys reply w config).1
refresh-keeps env loaded keys reply w none s = s
refresh-keeps env loaded keys reply w (some config) s =
    let written = record w { service_cache = config } in
    let published = publish_changed env keys written in
    subst (IsSynced env loaded) (sym (reply_with-store published.1 (reply published.0))) (
      publish_changed-keeps env loaded keys written
        (record { distinct = s.distinct; synced = s.synced }))

module _ {A : Type 0} (P : SettingsStore → Type 0) (w : SettingsStore)
    (next : Reply A × SettingsStore) (h : P w) (k : P next.1) where
  unless_unknown-keeps : (ks : List String) → P (unless_unknown w ks next).1
  unless_unknown-keeps [] = k
  unless_unknown-keeps (key ∷ ks) = h

  unless_conflict-keeps : (cs : Dict String Json) → P (unless_conflict w cs next).1
  unless_conflict-keeps [] = k
  unless_conflict-keeps (c ∷ cs) = h

  if_valid-keeps : (c : Option Config) → P (if_valid w c next).1
  if_valid-keeps none = h
  if_valid-keeps (some c) = k

reload-IsSynced :
    (env : Env) (loaded : List Setting) (w : SettingsStore) (o : Option Config)
    → DistinctRows w.rows
    → o ≡ some (reference_config env w.rows)
    → IsSynced env w.rows (or_same w (reloaded w o))
reload-IsSynced env loaded w none u e = absurd cc
reload-IsSynced env loaded w (some config) u e = record {
  distinct = u;
  synced = some-injective config (reference_config env w.rows) e;
}

module _ (env : Env) (loaded : List Setting) (now : ℕ) (w : SettingsStore)
    (s : IsSynced env loaded w) where
  -- A write of the rows that keeps their keys.
  saved-keeps :
      {A : Type 0} (rows : List Setting) (keys : List String) (reply : Bool → Option A)
      → DistinctRows rows
      → IsSynced env loaded (refresh env keys reply (record w { rows = rows })).1
  saved-keeps rows keys reply u =
      refresh-keeps env loaded keys reply (record w { rows = rows }) _
        (record { distinct = u; synced = s.synced })

  updates_many-keeps :
      (updates : Dict String Json) (expected : Option ℕ)
      → IsSynced env loaded (serve env now w (updates_many updates expected))
  unfolding serve
  updates_many-keeps updates expected =
      unless_unknown-keeps (IsSynced env loaded) w _ s
        (unless_conflict-keeps (IsSynced env loaded) w _ s
          (if_valid-keeps (IsSynced env loaded) w (bulk_saved env now w updates) s
            (saved-keeps (bulk_update_values w.rows updates now) (keys_of updates)
              (bulk_reply (bulk_update_values w.rows updates now) updates)
              (bulk_update_values-DistinctRows w.rows updates now s.distinct))
            _)
          _)
        _

  updates_one-keeps :
      (key : String) (v : Json) (expected : Option ℕ)
      → IsSynced env loaded (serve env now w (updates_one key v expected))
  unfolding serve
  updates_one-keeps key v expected =
      unless_unknown-keeps (IsSynced env loaded) w _ s
        (unless_conflict-keeps (IsSynced env loaded) w _ s
          (if_valid-keeps (IsSynced env loaded) w (single_saved env now w key v) s
            (saved-keeps (update_setting_value w.rows key v now) (key ∷ [])
              (single_reply env (update_setting_value w.rows key v now) key)
              (update_setting_value-DistinctRows w.rows key v now s.distinct))
            _)
          _)
        _

  resets_one-keeps :
      (key : String) (expected : Option ℕ)
      → IsSynced env loaded (serve env now w (resets_one key expected))
  unfolding serve
  resets_one-keeps key expected =
      unless_unknown-keeps (IsSynced env loaded) w _ s
        (unless_conflict-keeps (IsSynced env loaded) w (reset_saved env now w key) s
          (saved-keeps (update_setting_value w.rows key null now) (key ∷ [])
            (reset_reply env (update_setting_value w.rows key null now) key)
            (update_setting_value-DistinctRows w.rows key null now s.distinct))
          _)
        _

  resets_all-keeps :
      (expected : Option ℕ) → IsSynced env loaded (serve env now w (resets_all expected))
  unfolding serve
  resets_all-keeps expected =
      unless_conflict-keeps (IsSynced env loaded) w (all_reset env now w) s
        (saved-keeps (reset_all_values w.rows now) (keys_of_rows w.rows)
          (reset_views env (reset_all_values w.rows now))
          (reset_all_values-DistinctRows w.rows now s.distinct))
        _

  reloads-IsSynced : NumbersParse env → IsSynced env w.rows (serve env now w reloads)
  unfolding serve
  reloads-IsSynced p =
      reload-IsSynced env loaded w _ s.distinct
        (resolve_effective_config-reference env w.rows s.distinct p)

-- After any sequence of updates, resets and reloads, accepted or rejected, one after the other, the
-- process-wide cache is field by field the effective configuration of the rows as they were at the last
-- reload, whatever was written since; and the rows have distinct keys; if this holds before and the
-- environment has numbers for the fields that are numbers.
pub serve_all-IsSynced :
    (env : Env) (loaded : List Setting) (w : SettingsStore) (requests : List (ℕ × Request))
    → NumbersParse env
    → IsSynced env loaded w
    → IsSynced env (last_loaded env w loaded requests) (serve_all env w requests)
unfolding serve_all last_loaded
serve_all-IsSynced env loaded w [] p s = s
serve_all-IsSynced env loaded w ((now, reloads) ∷ requests) p s =
    serve_all-IsSynced env w.rows (serve env now w reloads) requests p
      (reloads-IsSynced env loaded now w s p)
serve_all-IsSynced env loaded w ((now, updates_many updates expected) ∷ requests) p s =
    serve_all-IsSynced env loaded (serve env now w (updates_many updates expected)) requests p
      (updates_many-keeps env loaded now w s updates expected)
serve_all-IsSynced env loaded w ((now, updates_one key v expected) ∷ requests) p s =
    serve_all-IsSynced env loaded (serve env now w (updates_one key v expected)) requests p
      (updates_one-keeps env loaded now w s key v expected)
serve_all-IsSynced env loaded w ((now, resets_one key expected) ∷ requests) p s =
    serve_all-IsSynced env loaded (serve env now w (resets_one key expected)) requests p
      (resets_one-keeps env loaded now w s key expected)
serve_all-IsSynced env loaded w ((now, resets_all expected) ∷ requests) p s =
    serve_all-IsSynced env loaded (serve env now w (resets_all expected)) requests p
      (resets_all-keeps env loaded now w s expected)
