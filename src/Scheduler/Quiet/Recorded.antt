-- ===== src/Scheduler/Quiet/Recorded.antt =====
-- Scans that the table of src/app/scheduler.py has recorded.
use work_behavior_analytics.Prelude.{
  ℕ, ◌+◌, ◌*◌, ◌≤◌, ◌<◌, true, String, ◌≡◌, ◌⊎◌, inl, inr, none, some, [], ◌∷◌, ◌++◌, arith, eq_iff,
  ℕ_key, text_key,
}
use work_behavior_analytics.Prelude.Dict.{lookup}
use work_behavior_analytics.Commands.Registry.{Registry, is_producer_target}
use work_behavior_analytics.Commands.Row.{CommandRow, Table}
use work_behavior_analytics.Scheduler.Due.{is_scan_of}
use work_behavior_analytics.Scheduler.Selection.{IsOld}

-- The table has a scan of the producer that was created at `now` or later.
abbrev pub IsRecorded : ℕ → String → Table → Type 0
IsRecorded now producer [] = ⊥
IsRecorded now producer (row ∷ db) =
    ((is_scan_of producer row ≡ true) × (now ≤ row.created_at)) ⊎ IsRecorded now producer db

pub IsRecorded-append :
    (now : ℕ) (producer : String) (db : Table) (row : CommandRow)
    → IsRecorded now producer db
    → IsRecorded now producer (db ++ row ∷ [])
IsRecorded-append now producer [] row h = absurd h
IsRecorded-append now producer (r ∷ db) row (inl here) = inl here
IsRecorded-append now producer (r ∷ db) row (inr there) =
    inr (IsRecorded-append now producer db row there)

pub IsRecorded-append_new :
    (now : ℕ) (producer : String) (db : Table) (row : CommandRow)
    → is_scan_of producer row ≡ true
    → now ≤ row.created_at
    → IsRecorded now producer (db ++ row ∷ [])
IsRecorded-append_new now producer [] row scan late = inl (scan, late)
IsRecorded-append_new now producer (r ∷ db) row scan late =
    inr (IsRecorded-append_new now producer db row scan late)

-- A recorded scan keeps its producer from being due.
pub not-IsOld :
    (now now' hours : ℕ) (producer : String) (db : Table)
    → IsRecorded now producer db
    → now' < now + hours * 3600
    → ¬ IsOld db producer hours now'
not-IsOld now now' hours producer [] h soon old = h
not-IsOld now now' hours producer (row ∷ db) (inl here) soon old =
    let late = old.0 here.0 in let young = here.1 in omega arith
not-IsOld now now' hours producer (row ∷ db) (inr there) soon old =
    not-IsOld now now' hours producer db there soon old.1

-- A producer that the registry names is a known target.
pub producer_known :
    (registry : Registry) (kind producer : String)
    → lookup registry kind ≡ some (some producer)
    → is_producer_target registry producer ≡ true
unfolding lookup is_producer_target
producer_known [] kind producer h = cc
producer_known ((k, none) ∷ rest) kind producer h =
    ground (arith, producer_known rest kind producer)
producer_known ((k, some c) ∷ rest) kind producer h =
    ground (arith, producer_known rest kind producer, eq_iff c producer)
