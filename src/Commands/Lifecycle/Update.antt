-- ===== src/Commands/Lifecycle/Update.antt =====
-- `update_command_status` (src/app/api/commands/v1/service.py) on every branch: what it answers and
-- what the table holds afterwards.
use work_behavior_analytics.Prelude.{
  ℕ, ◌≡◌, ◌≢◌, ◌⊎◌, inl, inr, refl, arith, ◌==◌, ℕ_key, text_key, if◌then◌else◌, Option-cases, none,
  some, List, [], ◌∷◌, map,
}
use work_behavior_analytics.Commands.Row.{CommandRow, Table, StatusUpdate}
use work_behavior_analytics.Commands.Service.{
  Result, ok, err, invalid_transition, not_found, validate_state_transition, get_command,
  apply_update, store_row, update_command_status,
}
use work_behavior_analytics.Commands.Lifecycle.{Step, validate_sound, validate_iff, validate_cases}

pub get_command-id :
    (db : Table) (id : ℕ) (row : CommandRow) → get_command db id ≡ some row → row.command_id ≡ id
unfolding get_command
get_command-id [] id row h = cc
get_command-id (r ∷ db) id row h = ground (arith, get_command-id db id row)

-- A write replaces the row with its id, if there is one.
pub get_command-store_row :
    (db : Table) (cmd : CommandRow) (j : ℕ)
    → get_command (store_row db cmd) j ≡ (
        if cmd.command_id == j
        then (elim (get_command db j) [ none ↦ none | some _ ↦ some cmd ])
        else get_command db j)
unfolding get_command store_row
get_command-store_row [] cmd j = ground arith
get_command-store_row (r ∷ db) cmd j = ground (arith, get_command-store_row db cmd j)

abbrev pub ids : Table → List ℕ
ids db = map (λ r. r.command_id) db

pub ids-store_row : (db : Table) (cmd : CommandRow) → ids (store_row db cmd) ≡ ids db
unfolding store_row
ids-store_row [] cmd = refl
ids-store_row (r ∷ db) cmd = ground (arith, ids-store_row db cmd)

-- What an update may change of a row.
pub record Follows (old new : CommandRow) : Type 0 where
  pub same_id : new.command_id ≡ old.command_id
  pub same_type : new.command_type ≡ old.command_type
  pub same_target : new.target ≡ old.target
  pub same_parameters : new.parameters ≡ old.parameters
  pub same_creation : new.created_at ≡ old.created_at
  pub step : (old.status ≡ new.status) ⊎ Step old.status new.status

-- The outcomes of an update, with the table as a function from ids to rows.
pub data Outcome (db : Table) (id : ℕ) (u : StatusUpdate) (after : Result CommandRow × Table)
    : Type 0 where
  missing : get_command db id ≡ none → after ≡ (err (not_found id), db) → Outcome db id u after
  refused :
      (row : CommandRow)
      → get_command db id ≡ some row
      → row.status ≢ u.status
      → ¬ Step row.status u.status
      → after ≡ (err (invalid_transition row.status u.status), db)
      → Outcome db id u after
  applied :
      (row : CommandRow)
      → get_command db id ≡ some row
      → Follows row (apply_update row u)
      → (apply_update row u).status ≡ u.status
      → after.0 ≡ ok (apply_update row u)
      → ((j : ℕ)
          → get_command after.1 j
            ≡ (if id == j then some (apply_update row u) else get_command db j))
      → ids after.1 ≡ ids db
      → Outcome db id u after

module _ (db : Table) (id : ℕ) (u : StatusUpdate) where
  Follows-apply_update :
      (row : CommandRow)
      → (row.status ≡ u.status) ⊎ Step row.status u.status
      → Follows row (apply_update row u)
  unfolding apply_update
  Follows-apply_update row h = record {
    same_id = refl;
    same_type = refl;
    same_target = refl;
    same_parameters = refl;
    same_creation = refl;
    step = h;
  }

  get_after :
      (row : CommandRow) (j : ℕ)
      → get_command db id ≡ some row
      → get_command (store_row db (apply_update row u)) j
        ≡ (if id == j then some (apply_update row u) else get_command db j)
  unfolding apply_update
  get_after row j e =
      ground (arith, get_command-store_row db (apply_update row u) j, get_command-id db id row e)

  update_ok :
      (row : CommandRow)
      → get_command db id ≡ some row
      → validate_state_transition row.status u.status ≡ ok tt
      → Outcome db id u (update_command_status db id u)
  unfolding update_command_status
  update_ok row e v =
      applied row e (Follows-apply_update row (validate_sound _ _ v)) refl (rw (e, v))
        (λ j. rw (e, v) (get_after row j e)) (rw (e, v) (ids-store_row db (apply_update row u)))

  update_refused :
      (row : CommandRow)
      → get_command db id ≡ some row
      → validate_state_transition row.status u.status ≡ err (invalid_transition row.status u.status)
      → Outcome db id u (update_command_status db id u)
  unfolding update_command_status
  update_refused row e v =
      refused row e (λ same. cc ((validate_iff row.status u.status).1 (inl same)))
        (λ st. cc ((validate_iff row.status u.status).1 (inr st))) (rw (e, v))

  update_missing : get_command db id ≡ none → Outcome db id u (update_command_status db id u)
  unfolding update_command_status
  update_missing e = missing e (rw e)

  -- An update of an unknown id or off the lifecycle is an error that leaves the table as it was; any
  -- other writes the row with that id, keeps its identity fields, and no other row changes.
  pub update_command_status-Outcome : Outcome db id u (update_command_status db id u)
  update_command_status-Outcome = elim (Option-cases (get_command db id)) [
    | inl e ↦ update_missing e
    | inr (row, e) ↦ elim (validate_cases row.status u.status) [
      | inl v ↦ update_ok row e v
      | inr v ↦ update_refused row e v
    ]
  ]
