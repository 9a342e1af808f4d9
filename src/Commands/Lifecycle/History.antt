-- ===== src/Commands/Lifecycle/History.antt =====
-- A command's row under any sequence of status updates, as producers and the API send them
-- (src/app/api/commands/v1/service.py).
use work_behavior_analytics.Prelude.{
  ℕ, ◌<◌, true, String, ◌≡◌, ◌⊎◌, inl, inr, refl, sym, ◌∙◌, arith, ◌==◌, ℕ_key, text_key,
  nat_beq_iff, if◌then◌else◌, Bool-cases, some, List, [], ◌∷◌,
}
use work_behavior_analytics.Commands.Row.{CommandRow, Table, StatusUpdate}
use work_behavior_analytics.Commands.Service.{
  get_command, apply_update, update_command_status, Result,
}
use work_behavior_analytics.Commands.Lifecycle.{
  Step, IsTerminal, rank, rank-Step, rank-terminal, rank-le,
}
use work_behavior_analytics.Commands.Lifecycle.Update.{
  Follows, Outcome, missing, refused, applied, update_command_status-Outcome,
}

unfoldable pub run_updates : Table → List (ℕ × StatusUpdate) → Table
run_updates db [] = db
run_updates db ((id, u) ∷ rest) = run_updates (update_command_status db id u).1 rest

-- `new` is a later state of the row `old`.
pub record Later (old new : CommandRow) : Type 0 where
  pub same_id : new.command_id ≡ old.command_id
  pub same_type : new.command_type ≡ old.command_type
  pub same_target : new.target ≡ old.target
  pub same_parameters : new.parameters ≡ old.parameters
  pub same_creation : new.created_at ≡ old.created_at
  pub status : (new.status ≡ old.status) ⊎ (rank old.status < rank new.status)

pub Later-refl : (r : CommandRow) → Later r r
Later-refl r = record {
  same_id = refl;
  same_type = refl;
  same_target = refl;
  same_parameters = refl;
  same_creation = refl;
  status = inl refl;
}

later_status :
    (a b c : String)
    → (b ≡ a) ⊎ (rank a < rank b)
    → (c ≡ b) ⊎ (rank b < rank c)
    → (c ≡ a) ⊎ (rank a < rank c)
later_status a b c (inl p) (inl q) = inl (q ∙ p)
later_status a b c (inl p) (inr q) = inr (rw p at q)
later_status a b c (inr p) (inl q) = inr (rw q p)
later_status a b c (inr p) (inr q) = inr (omega arith)

pub Later-trans : {a b c : CommandRow} → Later a b → Later b c → Later a c
Later-trans {a} {b} {c} p q = record {
  same_id = q.same_id ∙ p.same_id;
  same_type = q.same_type ∙ p.same_type;
  same_target = q.same_target ∙ p.same_target;
  same_parameters = q.same_parameters ∙ p.same_parameters;
  same_creation = q.same_creation ∙ p.same_creation;
  status = later_status a.status b.status c.status p.status q.status;
}

step_status : (s t : String) → (s ≡ t) ⊎ Step s t → (t ≡ s) ⊎ (rank s < rank t)
step_status s t (inl e) = inl (sym e)
step_status s t (inr st) = inr (rank-Step st)

Later-Follows : {a b : CommandRow} → Follows a b → Later a b
Later-Follows {a} {b} f = record {
  same_id = f.same_id;
  same_type = f.same_type;
  same_target = f.same_target;
  same_parameters = f.same_parameters;
  same_creation = f.same_creation;
  status = step_status a.status b.status f.step;
}

-- Whatever row the table had, it has a later state of it.
abbrev pub Advances : Table → Table → Type 0
Advances before after =
    (j : ℕ) (row : CommandRow)
    → get_command before j ≡ some row
    → (row' : CommandRow) × (get_command after j ≡ some row') × Later row row'

pub Advances-refl : (db : Table) → Advances db db
Advances-refl db j row e = (row, e, Later-refl row)

pub Advances-trans : (a b c : Table) → Advances a b → Advances b c → Advances a c
Advances-trans a b c p q j row e =
    let (row1, e1, l1) = p j row e in
    let (row2, e2, l2) = q j row1 e1 in (row2, e2, Later-trans l1 l2)

advance_row :
    (db db' : Table) (id : ℕ) (old new : CommandRow)
    → get_command db id ≡ some old
    → Follows old new
    → ((j : ℕ) → get_command db' j ≡ (if id == j then some new else get_command db j))
    → Advances db db'
advance_row db db' id old new e f write j row ej = elim (Bool-cases (id == j)) [
  | inl same ↦ (new, (write j ∙ rw same), rw (← some_row (ej_at same)) (Later-Follows f))
  | inr other ↦ (row, (write j ∙ rw other ej), Later-refl row)
]
  where
    some_row : some old ≡ some row → old ≡ row
    some_row p = cc

    ej_at : (id == j) ≡ true → some old ≡ some row
    ej_at same = sym e ∙ (rw ((nat_beq_iff id j).0 same) ej)

pub update-Advances :
    (db : Table) (id : ℕ) (u : StatusUpdate) → Advances db (update_command_status db id u).1
update-Advances db id u = from_outcome _ (update_command_status-Outcome db id u)
  where
    from_outcome : (after : Result CommandRow × Table) → Outcome db id u after → Advances db after.1
    from_outcome after (missing _ e) = rw e (Advances-refl db)
    from_outcome after (refused row _ _ _ e) = rw e (Advances-refl db)
    from_outcome after (applied row e f _ _ write _) =
        advance_row db after.1 id row (apply_update row u) e f write

run_updates-Advances : (db : Table) (us : List (ℕ × StatusUpdate)) → Advances db (run_updates db us)
unfolding run_updates
run_updates-Advances db [] = Advances-refl db
run_updates-Advances db ((id, u) ∷ us) =
    let db' = (update_command_status db id u).1 in
    Advances-trans db db' (run_updates db' us) (update-Advances db id u)
      (run_updates-Advances db' us)

terminal_status : (s t : String) → IsTerminal s → (t ≡ s) ⊎ (rank s < rank t) → t ≡ s
terminal_status s t h (inl e) = e
terminal_status s t h (inr lt) = absurd (omega (arith, rank-terminal h, rank-le t))

pub Advances-terminal :
    (before after : Table)
    → Advances before after
    → (id : ℕ) (row : CommandRow) → get_command before id ≡ some row
    → IsTerminal row.status
    → (row' : CommandRow) × (get_command after id ≡ some row') × (row'.status ≡ row.status)
Advances-terminal before after adv id row e h =
    let (row', e', l) = adv id row e in
    (row', e', terminal_status row.status row'.status h l.status)

-- Once a command is completed, failed or cancelled, no sequence of updates changes its status.
pub run_updates-terminal :
    (db : Table) (us : List (ℕ × StatusUpdate)) (id : ℕ) (row : CommandRow)
    → get_command db id ≡ some row
    → IsTerminal row.status
    → (row' : CommandRow) × (get_command (run_updates db us) id ≡ some row')
      × (row'.status ≡ row.status)
run_updates-terminal db us = Advances-terminal db (run_updates db us) (run_updates-Advances db us)

-- A terminal row is still written by an update to the same status: its error message is replaced.
pub terminal_row_is_written :
    (db : Table) (id : ℕ) (row : CommandRow) (u : StatusUpdate) (message : String)
    → get_command db id ≡ some row
    → IsTerminal row.status
    → u.status ≡ row.status
    → u.error_message ≡ some message
    → (row' : CommandRow) × (get_command (update_command_status db id u).1 id ≡ some row')
      × (row'.status ≡ row.status)
      × (row'.error_message ≡ some message)
unfolding apply_update
terminal_row_is_written db id row u message e h same m =
    written _ (update_command_status-Outcome db id u)
  where
    written :
        (after : Result CommandRow × Table)
        → Outcome db id u after
        → (row' : CommandRow) × (get_command after.1 id ≡ some row')
          × (row'.status ≡ row.status)
          × (row'.error_message ≡ some message)
    written after (missing e' _) = cc
    written after (refused row' e' ne _ _) = absurd (ne (cc))
    written after (applied row' e' _ _ _ write _) =
        (apply_update row' u, ground (arith, write id, nat_beq_iff id id), same, rw m)
