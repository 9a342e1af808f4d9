-- ===== src/Scheduler/Selection.antt =====
-- Which connectors the due check of src/app/scheduler.py gives.
use mathlib.Core.Path.{subst}
use work_behavior_analytics.Prelude.{
  IsIn, All-IsIn, IsIn-All, sym, ℕ, ◌+◌, ◌*◌, ◌≤◌, true, String, ◌≡◌, ◌↔◌, inl, inr, refl, Option,
  none, some, List, [], ◌∷◌, arith, ℕ_key, text_key, All, Bool-cases,
}
use work_behavior_analytics.Commands.Registry.{Registry}
use work_behavior_analytics.Commands.Row.{CommandRow, Table}
use work_behavior_analytics.Scheduler.Due.{
  Connector, producer_of, is_scan_of, later, last_scan_at, is_due, add_due, get_due_connectors,
}

-- Every scan of the producer in the table is at least that many hours old.
abbrev pub IsOld : Table → String → ℕ → ℕ → Type 0
IsOld db producer hours now =
    All (λ (row : CommandRow). is_scan_of producer row ≡ true → row.created_at + hours * 3600 ≤ now)
      db

later-bound :
    (t hours now : ℕ) (last : Option ℕ)
    → (is_due (later t last) now hours ≡ true)
      ↔ ((t + hours * 3600 ≤ now) × (is_due last now hours ≡ true))
later-bound t hours now none = ground arith
later-bound t hours now (some u) = ground arith

pub is_due_iff :
    (db : Table) (producer : String) (hours now : ℕ)
    → (is_due (last_scan_at db producer) now hours ≡ true) ↔ IsOld db producer hours now
unfolding last_scan_at
is_due_iff [] producer hours now = ground arith
is_due_iff (row ∷ db) producer hours now = elim (Bool-cases (is_scan_of producer row)) [
  | inl scan ↦ ground (
    arith,
    later-bound row.created_at hours now (last_scan_at db producer),
    is_due_iff db producer hours now,
  )
  | inr other ↦ ground (arith, is_due_iff db producer hours now)
]

module _ (registry : Registry) (db : Table) (now : ℕ) (P : String × String → Type 0) where
  -- A connector with an interval and a producer, all of whose scans are old, has P.
  abbrev pub HasIfDue : Connector → Type 0
  HasIfDue c =
      (hours : ℕ) (producer : String)
      → c.scan_interval_hours ≡ some hours
      → producer_of registry c ≡ some producer
      → IsOld db producer hours now
      → P (c.connector_type, producer)

  add_due-All :
      (c : Connector) (interval : Option ℕ) (p : Option String) (rest : List (String × String))
      → c.scan_interval_hours ≡ interval
      → producer_of registry c ≡ p
      → All P (add_due db now c interval p rest) ↔ (HasIfDue c × All P rest)
  add_due-All c none p rest ei ep = (λ h. (λ hours producer e. cc, h), λ h. h.1)
  add_due-All c (some hours) none rest ei ep = (λ h. (λ hours' producer e e'. cc, h), λ h. h.1)
  add_due-All c (some hours) (some producer) rest ei ep =
      elim (Bool-cases (is_due (last_scan_at db producer) now hours)) [
        | inl due ↦ rw due (
          λ h. (
            λ hours' producer' e e' old. let same : producer ≡ producer' = cc in rw (← same) h.0,
            h.1,
          ),
          λ h. (h.0 hours producer ei ep ((is_due_iff db producer hours now).0 due), h.1),
        )
        | inr young ↦ rw young (
          λ h. (
            λ hours' producer' e e' old.
                let same_hours : hours' ≡ hours = cc in
                let same : producer' ≡ producer = cc in
                cc ((is_due_iff db producer hours now).1 (rw (same_hours, same) at old)),
            h,
          ),
          λ h. h.1,
        )
      ]

-- A statement holds of every pair that is due exactly when it holds for every connector that is due.
pub get_due_connectors-All :
    (registry : Registry) (db : Table) (now : ℕ) (P : String × String → Type 0)
    (connectors : List Connector)
    → All P (get_due_connectors registry db connectors now)
      ↔ All (HasIfDue registry db now P) connectors
unfolding get_due_connectors
get_due_connectors-All registry db now P [] = (λ h. tt, λ h. tt)
get_due_connectors-All registry db now P (c ∷ rest) =
    let here =
      add_due-All registry db now P c c.scan_interval_hours (producer_of registry c)
        (get_due_connectors registry db rest now) refl refl in
    let there = get_due_connectors-All registry db now P rest in
    (λ h. let both = here.0 h in (both.0, there.0 both.1), λ h. here.1 (h.0, there.1 h.1))

module _ (registry : Registry) (db : Table) (connectors : List Connector) (now : ℕ) where
  -- The pair of a connector that has an interval and a producer and only old scans.
  abbrev pub IsDue : String × String → Type 0
  IsDue kp =
      (c : Connector) × (hours : ℕ) × (producer : String) × IsIn c connectors
      × (c.scan_interval_hours ≡ some hours)
      × (producer_of registry c ≡ some producer)
      × IsOld db producer hours now
      × (kp ≡ (c.connector_type, producer))

  abbrev IsGiven : String × String → Type 0
  IsGiven kp = IsIn kp (get_due_connectors registry db connectors now)

  -- The due check gives a pair exactly for the type and the producer of a connector, enabled or not,
  -- that has an interval and a producer and whose scans in the table, whatever became of them, were all
  -- created at least that interval ago.
  pub get_due_connectors_iff :
      (kp : String × String) → IsIn kp (get_due_connectors registry db connectors now) ↔ IsDue kp
  get_due_connectors_iff kp = (
    λ i.
        All-IsIn IsDue (get_due_connectors registry db connectors now) kp
          ((get_due_connectors-All registry db now IsDue connectors).1 (
            IsIn-All (HasIfDue registry db now IsDue) connectors
              (λ c j hours producer e e' old. (c, hours, producer, j, e, e', old, refl))))
          i,
    λ (c, hours, producer, j, e, e', old, same). subst IsGiven (sym same) (
        All-IsIn (HasIfDue registry db now IsGiven) connectors c
          ((get_due_connectors-All registry db now IsGiven connectors).0
            (IsIn-All IsGiven (get_due_connectors registry db connectors now) (λ q i. i)))
          j hours producer e e' old),
  )
