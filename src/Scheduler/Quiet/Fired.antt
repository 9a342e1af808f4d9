-- ===== src/Scheduler/Quiet/Fired.antt =====
-- What the `for` loop of a tick (src/app/scheduler.py) records.
use work_behavior_analytics.Prelude.{
  ℕ, ◌+◌, ◌≤◌, true, false, String, ◌≡◌, inr, refl, none, List, [], ◌∷◌, ◌++◌, arith, eq_iff, ℕ_key,
  text_key, All,
}
use work_behavior_analytics.Commands.Registry.{Registry, is_producer_target}
use work_behavior_analytics.Commands.Row.{CommandRow, Table}
use work_behavior_analytics.Commands.Publisher.{Delivery}
use work_behavior_analytics.Commands.Service.{
  get_command, Created, new_row, settle, create_and_publish_command,
}
use work_behavior_analytics.Commands.Creation.{
  CreateOutcome, unknown, duplicate, published, unpublished, create-CreateOutcome,
  get_command-append,
}
use work_behavior_analytics.Scheduler.Due.{is_scan_of}
use work_behavior_analytics.Scheduler.Tick.{Calls, scan_request, is_usable, fire_each}
use work_behavior_analytics.Scheduler.Quiet.Recorded.{
  IsRecorded, IsRecorded-append, IsRecorded-append_new,
}

-- None of the ids from the n-th on is taken, and none of them is used twice.
pub record IsFresh (calls : Calls) (n : ℕ) (db : Table) : Type 0 where
  pub free : (m : ℕ) → n ≤ m → get_command db (calls.id m) ≡ none
  pub distinct : (m k : ℕ) → calls.id m ≡ calls.id k → m ≡ k

module _ (registry : Registry) (calls : Calls) (now : ℕ) where
  -- One creation appended a scan of the producer.
  record IsAppended (n : ℕ) (producer : String) (db : Table) (made : Created) : Type 0 where
    row : CommandRow
    table : made.table ≡ db ++ row ∷ []
    id : row.command_id ≡ calls.id n
    scan : is_scan_of producer row ≡ true
    late : now ≤ row.created_at
    usable : is_usable made.result ≡ true

  outcome-IsAppended :
      (n : ℕ) (producer : String) (db : Table) (made : Created)
      → CreateOutcome registry
          (calls.broker n)
          db
          (scan_request producer)
          (calls.id n)
          (calls.clock n)
          made
      → is_producer_target registry producer ≡ true
      → get_command db (calls.id n) ≡ none
      → now ≤ calls.clock n
      → IsAppended n producer db made
  outcome-IsAppended n producer db made (unknown absent e) known fresh late =
      absurd (absent (inr known))
  outcome-IsAppended n producer db made (duplicate old taken e) known fresh late = cc
  outcome-IsAppended n producer db made (published k f up accepted sent result table) known fresh
        late =
      record {
        row = record (new_row (scan_request producer) (calls.id n) (calls.clock n)) {
          status = "accepted";
        };
        table = table;
        id = refl;
        scan = ground (arith, eq_iff producer producer, eq_iff "scan" "scan");
        late = late;
        usable = rw result refl;
      }
  outcome-IsAppended n producer db made (unpublished k f not_sent result table) known fresh late =
      record {
        row = settle (new_row (scan_request producer) (calls.id n) (calls.clock n)) false;
        table = table;
        id = refl;
        scan = ground (arith, eq_iff producer producer, eq_iff "scan" "scan");
        late = late;
        usable = rw result refl;
      }

  next-IsFresh :
      (n : ℕ) (db : Table) (row : CommandRow)
      → IsFresh calls n db
      → row.command_id ≡ calls.id n
      → IsFresh calls (n + 1) (db ++ row ∷ [])
  next-IsFresh n db row fresh own = record {
    free = λ m le. ground (
      arith,
      get_command-append db row (calls.id m),
      fresh.free m (omega arith),
      fresh.distinct n m,
    );
    distinct = fresh.distinct;
  }

  -- Every producer of `due` has a recorded scan, and what was recorded still is.
  pub record IsFired (db : Table) (due : List (String × String)) (r : Table × List Delivery)
      : Type 0 where
    pub fired : All (λ (kp : String × String). IsRecorded now kp.1 r.0) due
    pub kept : (producer : String) → IsRecorded now producer db → IsRecorded now producer r.0

  pub fire_each-IsFired :
      (due : List (String × String)) (n : ℕ) (db : Table)
      → All (λ (kp : String × String). is_producer_target registry kp.1 ≡ true) due
      → IsFresh calls n db
      → ((m : ℕ) → now ≤ calls.clock m)
      → IsFired db due (fire_each registry calls n db due)
  unfolding fire_each
  fire_each-IsFired [] n db known fresh late = record { fired = tt; kept = λ producer h. h }
  fire_each-IsFired ((kind, producer) ∷ due) n db known fresh late =
      let made =
        create_and_publish_command registry (calls.broker n) db (scan_request producer) (calls.id n)
          (calls.clock n) in
      let step =
        outcome-IsAppended n producer db made
          (create-CreateOutcome registry (calls.broker n) db (scan_request producer) (calls.id n)
            (calls.clock n))
          known.0 (fresh.free n (omega arith)) (late n) in
      let rest =
        fire_each-IsFired due (n + 1) made.table known.1
          (rw step.table (next-IsFresh n db step.row fresh step.id)) late in
      rw step.usable (record {
        fired = (
          rest.kept producer
              (rw step.table (IsRecorded-append_new now producer db step.row step.scan step.late)),
          rest.fired,
        );
        kept = λ p h. rest.kept p (rw step.table (IsRecorded-append now p db step.row h));
      })
