-- ===== src/Activity/Examples.antt =====
-- A small timeline, and the theorems about it at these inputs.
use work_behavior_analytics.Prelude.{
  ℕ, zero, suc, true, String, ◌≡◌, refl, Option, none, some, List, [], ◌∷◌, ◌++◌, ◌==◌, text_key,
  if◌then◌else◌,
}
use work_behavior_analytics.Prelude.Text.{slice_to, slice_from}
use work_behavior_analytics.Prelude.Json.{str, end, field, get}
use work_behavior_analytics.Activity.Signal.{
  ActivitySignal, Relationship, compute_display_name, compute_avatar_url, normalize_database_url,
}
use work_behavior_analytics.Activity.Postgres.{
  Fate, actions_fail, works, Postgres, Environment, duplicate, event_of, write_event, write_signal,
  write_each, write_batch,
}
use work_behavior_analytics.Activity.Batching.{
  Writer, Event, enqueue, receive, timeout_cancelled, cancel, new_writer, step, run, close,
}
use work_behavior_analytics.Activity.Consumer.{
  ack, nack, Sinks, Effects, consume_message, consume_queue, consume_queue-answers,
}
use work_behavior_analytics.Activity.Once.{IsSound, nothing, write_batch-IsSound}
use work_behavior_analytics.Activity.Stored.{failed_actions_are_lost}
use work_behavior_analytics.Activity.Conserved.{concat, close-conserves}

abbrev author : Relationship
author = record {
  type = "CREATED_BY";
  target = record { source = none; entity_type = some "Person"; id = some "ada"; url = none };
}

abbrev commit : ActivitySignal
commit = record {
  signal_id = "s1";
  source = "github";
  entity_type = "Commit";
  id = "c0ffee";
  event_time = "2026-01-01";
  attributes = field "sha" (str "c0ffee") (field "message" (str "Fix the build") end);
  relationships = author ∷ [];
}

abbrev project : ActivitySignal
project = record commit {
  signal_id = "s2";
  entity_type = "Project";
  id = "p1";
  attributes = field "project_name" (str "Search") end;
  relationships = [];
}

abbrev empty : Postgres
empty = record { events = []; actions = []; writes = 0 }

abbrev good : Environment
good = record { fate = λ n. works; content_hash = λ s. s.id }

abbrev first_fails : ℕ → Fate
first_fails zero = actions_fail
first_fails (suc n) = works

abbrev flaky : Environment
flaky = record good { fate = first_fails }

abbrev is_known : String → Option ActivitySignal
is_known body = if body == "commit" then some commit else none

abbrev only_neo4j : Sinks
only_neo4j = record { Body = String; parse = is_known; upsert = λ s. some s.id; index = none }

abbrev no_effects : Effects
no_effects = record { answers = []; indexed = []; timeline = [] }

abbrev interrupted : List (Event ℕ)
interrupted = enqueue 1 ∷ receive ∷ timeout_cancelled 0 ∷ []

abbrev closed_early : List (Event ℕ)
closed_early = enqueue 1 ∷ receive ∷ enqueue 2 ∷ cancel ∷ []

abbrev both : List ℕ
both = 1 ∷ 2 ∷ []

program : Unit {0}
unfolding slice_to slice_from get compute_display_name compute_avatar_url normalize_database_url
    write_event write_signal write_each write_batch step run close consume_message consume_queue
program = tt
  where
    named : compute_display_name commit ≡ "Fix the build"
    named = refl

    -- A project has none of the six fields, so its id is shown.
    unnamed : compute_display_name project ≡ "p1"
    unnamed = refl

    stripped : normalize_database_url "postgresql+asyncpg://db/wba" ≡ "postgresql://db/wba"
    stripped = refl

    once : (write_signal good commit (write_signal good commit empty).1).0 ≡ duplicate
    once = refl

    written :
        (write_batch good true (commit ∷ project ∷ commit ∷ []) empty).0
        ≡ record { inserted_count = 2; duplicate_count = 1; action_count = 1 }
    written = refl

    -- A close during the write of an idle batch: the second signal is in no batch.
    dropped :
        let r : Writer ℕ × List (List ℕ) =
          run new_writer (enqueue 1 ∷ receive ∷ enqueue 2 ∷ receive ∷ timeout_cancelled 1 ∷ []) in
        (r.1 ≡ (1 ∷ []) ∷ []) × ((close r.0).1 ≡ [])
    dropped = (refl, refl)

write_batch-IsSound_example : IsSound (write_batch flaky true (commit ∷ project ∷ []) empty).1
write_batch-IsSound_example =
    write_batch-IsSound flaky true (commit ∷ project ∷ []) empty
      (record { unique = tt; explained = nothing })

failed_actions_are_lost_example :
    let failed : Postgres = (write_signal flaky commit empty).1 in
    (failed.events ≡ event_of flaky commit ∷ [])
    × ((write_batch flaky true (commit ∷ []) failed).1.events ≡ failed.events)
    × ((write_batch flaky true (commit ∷ []) failed).1.actions ≡ [])
failed_actions_are_lost_example =
    failed_actions_are_lost flaky commit author [] empty true (commit ∷ []) refl refl refl refl
      (refl, tt)

close-conserves_example :
    concat (run new_writer closed_early).1 ++ concat (close (run new_writer closed_early).0).1
    ≡ both
close-conserves_example = close-conserves closed_early (tt, (tt, (tt, (tt, tt))))

consume_queue-answers_example :
    ((consume_queue only_neo4j no_effects ("commit" ∷ "noise" ∷ [])).answers ≡ ack ∷ nack ∷ [])
    × ((consume_queue only_neo4j no_effects ("commit" ∷ "noise" ∷ [])).timeline ≡ commit ∷ [])
consume_queue-answers_example =
    consume_queue-answers only_neo4j no_effects ("commit" ∷ "noise" ∷ [])
