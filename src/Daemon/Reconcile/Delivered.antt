-- ===== src/Daemon/Reconcile/Delivered.antt =====
-- The API calls of src/connectors/producers/daemon_common.py over a network that delivers.
use work_behavior_analytics.Prelude.{
  ℕ, ◌+◌, true, false, String, ◌≡◌, ◌≢◌, refl, ap, ◌∙◌, ◌⊎◌, inl, inr, Option, none, some, arith,
  nat_beq_iff, text_key, ℕ_key, Bool-cases, contains,
}
use work_behavior_analytics.Prelude.Json.{Fields}
use work_behavior_analytics.Commands.Row.{CommandRow, Table, StatusUpdate}
use work_behavior_analytics.Commands.Service.{
  Result, get_command, apply_update, update_command_status,
}
use work_behavior_analytics.Commands.Lifecycle.{Step, IsTerminal, reject, drop, fail}
use work_behavior_analytics.Commands.Lifecycle.Update.{
  Outcome, missing, refused, applied, update_command_status-Outcome,
}
use work_behavior_analytics.Daemon.World.{
  with_retry, Environment, World, delivered, api_request, update_status, get_command_status,
  finalize_if_active, finalize_from, status_of, terminal_states,
}

abbrev pub Delivers : Environment → Type 0
Delivers env = (n : ℕ) → env.transport n ≡ delivered

-- A status that the lifecycle knows.
abbrev pub IsLive : String → Type 0
IsLive s = (s ≡ "pending") ⊎ (s ≡ "accepted") ⊎ (s ≡ "running")

-- The row of `id` has this status.
pub record HasStatus (db : Table) (id : ℕ) (status : String) : Type 0 where
  pub row : CommandRow
  pub found : get_command db id ≡ some row
  pub status_is : row.status ≡ status

module _ (db : Table) (id : ℕ) (u : StatusUpdate) where
  -- An update along the lifecycle is written.
  update-HasStatus :
      (old : String)
      → HasStatus db id old
      → (old ≡ u.status) ⊎ Step old u.status
      → HasStatus (update_command_status db id u).1 id u.status
  update-HasStatus old h step = from_outcome _ (update_command_status-Outcome db id u)
    where
      from_outcome :
          (after : Result CommandRow × Table)
          → Outcome db id u after
          → HasStatus after.1 id u.status
      from_outcome after (missing e _) = cc (h.found)
      from_outcome after (refused row e ne nst _) =
          let same : row.status ≡ old = cc (h.found, h.status_is) in
          elim step [ inl p ↦ absurd (ne (same ∙ p)) | inr st ↦ absurd (nst (rw same st)) ]
      from_outcome after (applied row e _ same _ write _) = record {
        row = apply_update row u;
        found = ground (arith, write id, nat_beq_iff id id);
        status_is = same;
      }

  -- The other rows stay.
  update-other :
      (j : ℕ) (s : String)
      → id ≢ j
      → HasStatus db j s
      → HasStatus (update_command_status db id u).1 j s
  update-other j s ne h = from_outcome _ (update_command_status-Outcome db id u)
    where
      from_outcome :
          (after : Result CommandRow × Table) → Outcome db id u after → HasStatus after.1 j s
      from_outcome after (missing _ e) = rw e h
      from_outcome after (refused _ _ _ _ e) = rw e h
      from_outcome after (applied row e _ _ _ write _) = record {
        row = h.row;
        found = ground (arith, write j, nat_beq_iff id j);
        status_is = h.status_is;
      }

module _ (env : Environment) (net : Delivers env) where
  api_request-delivered :
      {A : Type 0} (serve : Table → A × Table) (w : World)
      → api_request serve env w
        ≡ (some (serve w.db).0, record w { db = (serve w.db).1; sent = w.sent + 1 })
  unfolding api_request
  api_request-delivered serve w = ap (λ t. with_retry serve env t w) (net w.sent)

  pub update_status-db :
      (w : World) (id : ℕ) (u : StatusUpdate)
      → (update_status env w id u).db ≡ (update_command_status w.db id u).1
  unfolding update_status
  update_status-db w id u =
      ap (λ (p : Option (Result CommandRow) × World). p.1.db)
        (api_request-delivered (λ db. update_command_status db id u) w)

  pub update_status-HasStatus :
      (w : World) (id : ℕ) (u : StatusUpdate) (old : String)
      → HasStatus w.db id old
      → (old ≡ u.status) ⊎ Step old u.status
      → HasStatus (update_status env w id u).db id u.status
  update_status-HasStatus w id u old h step =
      rw (update_status-db w id u) (update-HasStatus w.db id u old h step)

  pub update_status-other :
      (w : World) (id j : ℕ) (u : StatusUpdate) (s : String)
      → id ≢ j
      → HasStatus w.db j s
      → HasStatus (update_status env w id u).db j s
  update_status-other w id j u s ne h =
      rw (update_status-db w id u) (update-other w.db id u j s ne h)

  get_command_status-HasStatus :
      (w : World) (id : ℕ) (s : String)
      → HasStatus w.db id s
      → get_command_status env w id ≡ (some s, record w { sent = w.sent + 1 })
  unfolding get_command_status
  get_command_status-HasStatus w id s h =
      rw (api_request-delivered (λ db. (status_of (get_command db id), db)) w)
        (rw (h.found, h.status_is))

  finalize_open :
      (w : World) (id : ℕ) (s : String) (message : String) (summary : Option Fields)
      → HasStatus w.db id s
      → contains terminal_states s ≡ false
      → Step s "failed"
      → HasStatus (finalize_if_active env w id message summary).1.db id "failed"
  unfolding finalize_if_active
  finalize_open w id s message summary h still_open st =
      rw (get_command_status-HasStatus w id s h, still_open)
        (update_status-HasStatus _ id _ s
          (record { row = h.row; found = h.found; status_is = h.status_is }) (inr st))

  finalize_closed :
      (w : World) (id : ℕ) (s : String) (message : String) (summary : Option Fields)
      → HasStatus w.db id s
      → contains terminal_states s ≡ true
      → HasStatus (finalize_if_active env w id message summary).1.db id s
  unfolding finalize_if_active
  finalize_closed w id s message summary h closed =
      rw (get_command_status-HasStatus w id s h, closed) h

  -- A command that was open is failed, a terminal one keeps its status.
  pub finalize_live :
      (w : World) (id : ℕ) (s : String) (message : String) (summary : Option Fields)
      → HasStatus w.db id s
      → IsLive s
      → HasStatus (finalize_if_active env w id message summary).1.db id "failed"
  finalize_live w id s message summary h (inl p) =
      finalize_open w id s message summary h (rw p refl) (reject p refl)
  finalize_live w id s message summary h (inr (inl p)) =
      finalize_open w id s message summary h (rw p refl) (drop p refl)
  finalize_live w id s message summary h (inr (inr p)) =
      finalize_open w id s message summary h (rw p refl) (fail p refl)

  pub finalize_terminal :
      (w : World) (id : ℕ) (s : String) (message : String) (summary : Option Fields)
      → HasStatus w.db id s
      → IsTerminal s
      → HasStatus (finalize_if_active env w id message summary).1.db id s
  finalize_terminal w id s message summary h (inl p) =
      finalize_closed w id s message summary h (rw p refl)
  finalize_terminal w id s message summary h (inr (inl p)) =
      finalize_closed w id s message summary h (rw p refl)
  finalize_terminal w id s message summary h (inr (inr p)) =
      finalize_closed w id s message summary h (rw p refl)

  finalize_from_other :
      (w : World) (id j : ℕ) (s : String) (message : String) (summary : Option Fields)
      (o : Option String)
      → id ≢ j
      → HasStatus w.db j s
      → HasStatus (finalize_from env id message summary (o, w)).1.db j s
  finalize_from_other w id j s message summary none ne h = h
  finalize_from_other w id j s message summary (some current) ne h =
      elim (Bool-cases (contains terminal_states current)) [
        | inl done ↦ rw done h
        | inr still_open ↦ rw still_open (update_status-other w id j _ s ne h)
      ]

  pub finalize_other :
      (w : World) (id j : ℕ) (s : String) (message : String) (summary : Option Fields)
      → id ≢ j
      → HasStatus w.db j s
      → HasStatus (finalize_if_active env w id message summary).1.db j s
  unfolding finalize_if_active get_command_status
  finalize_other w id j s message summary ne h =
      rw (api_request-delivered (λ db. (status_of (get_command db id), db)) w) (
        finalize_from_other (record w { sent = w.sent + 1 }) id j s message summary
          (status_of (get_command w.db id)) ne h)
