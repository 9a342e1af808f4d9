-- ===== src/Daemon/Safety/Requests.antt =====
-- The API calls of src/connectors/producers/daemon_common.py only move rows forward.
use work_behavior_analytics.Prelude.{
  ℕ, ◌+◌, String, inl, inr, Option, none, some, text_key, ℕ_key, Bool-cases, contains,
}
use work_behavior_analytics.Prelude.Json.{Fields}
use work_behavior_analytics.Commands.Row.{Table, StatusUpdate}
use work_behavior_analytics.Commands.Service.{get_command, update_command_status}
use work_behavior_analytics.Commands.Lifecycle.History.{
  Advances, Advances-refl, Advances-trans, update-Advances,
}
use work_behavior_analytics.Daemon.World.{
  Transport, unreachable, unauthorized, refused, lost_reply, delivered, Environment, World, attempt,
  with_retry, api_request, update_status, get_command_status, finalize_if_active, finalize_from,
  status_of, terminal_states,
}

-- Every row of the world before has a later state in the world after.
pub record Keeps (before after : World) : Type 0 where
  pub rows : Advances before.db after.db

pub Keeps-refl : (w : World) → Keeps w w
Keeps-refl w = record { rows = Advances-refl w.db }

pub Keeps-trans : {a b c : World} → Keeps a b → Keeps b c → Keeps a c
Keeps-trans {a} {b} {c} p q = record { rows = Advances-trans a.db b.db c.db p.rows q.rows }

module _ {A : Type 0} (serve : Table → A × Table)
    (safe : (db : Table) → Advances db (serve db).1) where
  Keeps-attempt : (t : Transport) (w : World) → Keeps w (attempt serve t w).1
  Keeps-attempt unreachable w = record { rows = Advances-refl w.db }
  Keeps-attempt unauthorized w = record { rows = Advances-refl w.db }
  Keeps-attempt refused w = record { rows = Advances-refl w.db }
  Keeps-attempt lost_reply w = record { rows = safe w.db }
  Keeps-attempt delivered w = record { rows = safe w.db }

  Keeps-with_retry :
      (env : Environment) (t : Transport) (w : World) → Keeps w (with_retry serve env t w).1
  Keeps-with_retry env unauthorized w = record {
    rows = (Keeps-attempt (env.transport (w.sent + 1)) (record w { sent = w.sent + 1 })).rows;
  }
  Keeps-with_retry env unreachable w = Keeps-attempt unreachable w
  Keeps-with_retry env refused w = Keeps-attempt refused w
  Keeps-with_retry env lost_reply w = Keeps-attempt lost_reply w
  Keeps-with_retry env delivered w = Keeps-attempt delivered w

  pub Keeps-api_request : (env : Environment) (w : World) → Keeps w (api_request serve env w).1
  unfolding api_request
  Keeps-api_request env w = Keeps-with_retry env (env.transport w.sent) w

module _ (env : Environment) where
  pub Keeps-update_status :
      (w : World) (id : ℕ) (u : StatusUpdate) → Keeps w (update_status env w id u)
  unfolding update_status
  Keeps-update_status w id u =
      Keeps-api_request (λ db. update_command_status db id u) (λ db. update-Advances db id u) env w

  pub Keeps-get_command_status : (w : World) (id : ℕ) → Keeps w (get_command_status env w id).1
  unfolding get_command_status
  Keeps-get_command_status w id =
      Keeps-api_request (λ db. (status_of (get_command db id), db)) Advances-refl env w

  pub Keeps-finalize_from :
      (id : ℕ) (message : String) (summary : Option Fields) (o : Option String) (w : World)
      → Keeps w (finalize_from env id message summary (o, w)).1
  Keeps-finalize_from id message summary none w = Keeps-refl w
  Keeps-finalize_from id message summary (some current) w =
      elim (Bool-cases (contains terminal_states current)) [
        | inl done ↦ rw done (Keeps-refl w)
        | inr open_status ↦ rw open_status (Keeps-update_status w id _)
      ]

  pub Keeps-finalize_if_active :
      (w : World) (id : ℕ) (message : String) (summary : Option Fields)
      → Keeps w (finalize_if_active env w id message summary).1
  unfolding finalize_if_active
  Keeps-finalize_if_active w id message summary =
      let (o, w') = get_command_status env w id in
      Keeps-trans (Keeps-get_command_status w id) (Keeps-finalize_from id message summary o w')
