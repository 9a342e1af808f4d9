-- ===== src/Settings/Lost.antt =====
-- Two updates of one setting by src/app/api/settings/v1/service.py in a row.
use mathlib.Core.Path.{subst}
use work_behavior_analytics.Prelude.{
  ℕ, ◌<◌, ltb, Bool, true, false, not, String, Option, none, some, List, [], ◌∷◌, is_some, ◌==◌,
  text_key, eq_iff, if◌then◌else◌, Bool-cases, ◌≡◌, refl, sym, ap, ◌∙◌, inl, inr, arith,
}
use work_behavior_analytics.Prelude.Dict.{Dict, lookup}
use work_behavior_analytics.Prelude.Json.{Json}
use work_behavior_analytics.Settings.Config.{Env, Config}
use work_behavior_analytics.Settings.Table.{
  Setting, check_conflicts, get_setting_by_key, update_setting_value,
}
use work_behavior_analytics.Settings.Source.{resolve_effective_config}
use work_behavior_analytics.Settings.Service.{
  SettingsStore, Reply, replied, unknown_keys, conflict, invalid, not_a_number, publish_changed,
  refreshed, unless_unknown, unless_conflict, if_valid, single_reply, single_saved, update_single,
  SettingView,
}
use work_behavior_analytics.Settings.Requests.{reply_with-store}

same_comm : (a b : String) (t : Bool) → (a == b) ≡ t → (b == a) ≡ t
same_comm a b true e = ground (arith, eq_iff a b, eq_iff b a)
same_comm a b false e = ground (arith, eq_iff a b, eq_iff b a)

is_later : (seen now : ℕ) → seen < now → ltb seen now ≡ true
is_later seen now l = ground arith

check_conflicts-written :
    (rows : List Setting) (key : String) (v : Json) (now seen : ℕ)
    → is_some (get_setting_by_key rows key) ≡ true
    → seen < now
    → lookup (check_conflicts (update_setting_value rows key v now) (key ∷ []) (some seen)) key
      ≡ some v
unfolding update_setting_value get_setting_by_key check_conflicts lookup
check_conflicts-written [] key v now seen h l = absurd cc
check_conflicts-written (r ∷ rows) key v now seen h l = elim (Bool-cases (r.key == key)) [
  | inl e ↦ rw (e, same_comm r.key key true e, is_later seen now l, e) refl
  | inr e ↦
      rw (e, same_comm r.key key false e)
        (check_conflicts-written rows key v now seen (ground arith) l)
]

-- What a reply says of the update.
record Replied (w : SettingsStore) (key : String) (v : Json) (now : ℕ) (w' : SettingsStore)
    : Type 0 where
  known : is_some (get_setting_by_key w.rows key) ≡ true
  rows : w'.rows ≡ update_setting_value w.rows key v now

publish_changed-rows :
    (env : Env) (keys : List String) (w : SettingsStore)
    → (publish_changed env keys w).1.rows ≡ w.rows
publish_changed-rows env keys w = elim (Bool-cases (env.publishes keys)) [
  | inl e ↦ rw e refl
  | inr e ↦ rw e refl
]

refreshed-rows :
    {A : Type 0} (env : Env) (keys : List String) (reply : Bool → Option A) (w : SettingsStore)
    (config : Option Config)
    → (refreshed env keys reply w config).1.rows ≡ w.rows
refreshed-rows env keys reply w none = refl
refreshed-rows env keys reply w (some config) =
    let published = publish_changed env keys (record w { service_cache = config }) in
    ap (λ s. s.rows) (reply_with-store published.1 (reply published.0))
    ∙ publish_changed-rows env keys (record w { service_cache = config })

module _ (env : Env) (now : ℕ) (w : SettingsStore) (key : String) (v : Json)
    (view : SettingView) where
  checked-Replied :
      (config : Option Config)
      → is_some (get_setting_by_key w.rows key) ≡ true
      → (if_valid w config (single_saved env now w key v)).0 ≡ replied view
      → Replied w key v now (if_valid w config (single_saved env now w key v)).1
  checked-Replied none k e = absurd cc
  checked-Replied (some config) k e = record {
    known = k;
    rows =
        refreshed-rows env (key ∷ []) (single_reply env (update_setting_value w.rows key v now) key)
          (record w { rows = update_setting_value w.rows key v now })
          (resolve_effective_config env (update_setting_value w.rows key v now));
  }

  current-Replied :
      (conflicts : Dict String Json) (config : Option Config)
      → is_some (get_setting_by_key w.rows key) ≡ true
      → (unless_conflict w conflicts (if_valid w config (single_saved env now w key v))).0
        ≡ replied view
      → Replied w key v now
          (unless_conflict w conflicts (if_valid w config (single_saved env now w key v))).1
  current-Replied [] config k e = checked-Replied config k e
  current-Replied (c ∷ cs) config k e = absurd cc

  known-Replied :
      (known : Bool) (conflicts : Dict String Json) (config : Option Config)
      → is_some (get_setting_by_key w.rows key) ≡ known
      → (unless_unknown w
          (if not known then key ∷ [] else [])
          (unless_conflict w conflicts (if_valid w config (single_saved env now w key v)))).0
        ≡ replied view
      → Replied w key v now
          (unless_unknown w
            (if not known then key ∷ [] else [])
            (unless_conflict w conflicts (if_valid w config (single_saved env now w key v)))).1
  known-Replied true conflicts config k e = current-Replied conflicts config k e
  known-Replied false conflicts config k e = absurd cc

  update_single-Replied :
      (expected : Option ℕ)
      → (update_single env now w key v expected).0 ≡ replied view
      → Replied w key v now (update_single env now w key v expected).1
  unfolding update_single
  update_single-Replied expected e = known-Replied _ _ _ refl e

update_setting_value-known :
    (rows : List Setting) (key : String) (v : Json) (now : ℕ)
    → is_some (get_setting_by_key rows key) ≡ true
    → is_some (get_setting_by_key (update_setting_value rows key v now) key) ≡ true
unfolding get_setting_by_key update_setting_value
update_setting_value-known [] key v now h = h
update_setting_value-known (r ∷ rows) key v now h = elim (Bool-cases (r.key == key)) [
  | inl e ↦ rw (e, e) refl
  | inr e ↦ rw (e, e) (update_setting_value-known rows key v now (ground arith))
]

-- The conflict that is found, whatever else it names.
abbrev pub Conflicts : String → Json → Reply SettingView → Type 0
Conflicts key v (conflict cs) = lookup cs key ≡ some v
Conflicts key v (replied view) = ⊥
Conflicts key v (unknown_keys ks) = ⊥
Conflicts key v invalid = ⊥
Conflicts key v not_a_number = ⊥

conflict-Conflicts :
    (w : SettingsStore) (key : String) (v : Json) (cs : Dict String Json)
    (next : Reply SettingView × SettingsStore)
    → lookup cs key ≡ some v
    → Conflicts key v (unless_conflict w cs next).0 × ((unless_conflict w cs next).1 ≡ w)
unfolding lookup
conflict-Conflicts w key v [] next e = absurd cc
conflict-Conflicts w key v (c ∷ cs) next e = (e, refl)

second :
    (env : Env) (later : ℕ) (w : SettingsStore) (key : String) (v v' : Json) (seen : ℕ)
    → is_some (get_setting_by_key w.rows key) ≡ true
    → lookup (check_conflicts w.rows (key ∷ []) (some seen)) key ≡ some v
    → Conflicts key v (update_single env later w key v' (some seen)).0
      × ((update_single env later w key v' (some seen)).1 ≡ w)
unfolding update_single
second env later w key v v' seen k e = rw k (conflict-Conflicts w key v _ _ e)

-- Of two updates of a setting that run one after the other: where the first was accepted at a time `now`,
-- and the second sends an expected time before it, the second raises ConflictError with the value that
-- the first wrote, and changes nothing.
pub update_single-Conflicts :
    (env : Env) (now later seen : ℕ) (w : SettingsStore) (key : String) (v v' : Json)
    (expected : Option ℕ) (view : SettingView)
    → seen < now
    → (update_single env now w key v expected).0 ≡ replied view
    → Conflicts key v
        (update_single env later (update_single env now w key v expected).1 key v' (some seen)).0
      × ((update_single env later (update_single env now w key v expected).1 key v' (some seen)).1
          ≡ (update_single env now w key v expected).1)
unfolding update_single
update_single-Conflicts env now later seen w key v v' expected view l e =
    let r = update_single-Replied env now w key v view expected e in
    second env later (update_single env now w key v expected).1 key v v' seen
      (subst (λ rows. is_some (get_setting_by_key rows key) ≡ true) (sym r.rows)
        (update_setting_value-known w.rows key v now r.known))
      (subst (λ rows. lookup (check_conflicts rows (key ∷ []) (some seen)) key ≡ some v)
        (sym r.rows) (check_conflicts-written w.rows key v now seen r.known l))
