-- ===== src/Scheduler/Lease.antt =====
-- The scheduler's lease: `_try_acquire_lease` of src/app/scheduler.py on the table of
-- src/app/db/models/scheduler_lease.py.
use work_behavior_analytics.Prelude.{
  ℕ, ◌+◌, ◌*◌, ltb, Bool, true, false, ◌||◌, String, Option, none, some, List, [], ◌∷◌, ◌==◌,
  text_key, if◌then◌else◌,
}

pub record SchedulerLease : Type 0 where
  pub held_by : Option String
  pub expires_at : ℕ

abbrev pub is_holder : Option String → String → Bool
is_holder none instance_id = false
is_holder (some held_by) instance_id = held_by == instance_id

-- The WHERE of the update.
unfoldable pub may_claim : SchedulerLease → String → ℕ → Bool
may_claim lease instance_id now = ltb lease.expires_at now || is_holder lease.held_by instance_id

-- timedelta(minutes=tick_minutes * 2), in seconds
abbrev pub lease_seconds : ℕ → ℕ
lease_seconds tick_minutes = tick_minutes * 2 * 60

abbrev pub claim_row : SchedulerLease → String → ℕ → ℕ → SchedulerLease
claim_row lease instance_id now tick_minutes = record {
  held_by = some instance_id;
  expires_at = now + lease_seconds tick_minutes;
}

-- Whether a row was claimed, and the table.
unfoldable pub try_acquire_lease : List SchedulerLease → String → ℕ → ℕ → Bool × List SchedulerLease
try_acquire_lease [] instance_id now tick_minutes = (false, [])
try_acquire_lease (lease ∷ rest) instance_id now tick_minutes =
    let (claimed, rest') = try_acquire_lease rest instance_id now tick_minutes in
    if may_claim lease instance_id now
    then (true, claim_row lease instance_id now tick_minutes ∷ rest')
    else (claimed, lease ∷ rest')
