-- ===== src/Activity/Consumer.antt =====
-- `consume_queue` of src/connectors/consumers/main.py on the messages of a queue, with `_parse_message` of
-- src/common/messaging/rabbitmq.py.
use work_behavior_analytics.Prelude.{
  Bool, String, ◌≡◌, refl, sym, ◌∙◌, inl, inr, Option, none, some, List, [], ◌∷◌, ◌++◌, map,
  if◌then◌else◌, Bool-cases,
}
use mathlib.Core.List.{append-nil, append_assoc}
use work_behavior_analytics.Activity.Signal.{ActivitySignal}

-- What the broker is told of a message.
pub data Answer : Type 0 where
  ack : Answer
  nack : Answer

-- The sinks. `parse` is none where the body is no signal, `upsert` where the write to Neo4j raises, else
-- it gives the canonical id. `index` is none without Elasticsearch; false is a failure there.
pub record Sinks : Type 1 where
  pub Body : Type 0
  pub parse : Body → Option ActivitySignal
  pub upsert : ActivitySignal → Option String
  pub index : Option (ActivitySignal → String → Bool)

-- What the messages so far have caused.
pub record Effects : Type 0 where
  pub answers : List Answer
  pub indexed : List (ActivitySignal × String)
  pub timeline : List ActivitySignal

module _ (sinks : Sinks) where
  open sinks use {Body, parse, upsert, index}

  abbrev pub answer : Effects → Answer → Effects
  answer fx a = record fx { answers = fx.answers ++ a ∷ [] }

  abbrev pub index_with :
      Option (ActivitySignal → String → Bool) → Effects → ActivitySignal → String → Effects
  index_with none fx signal id = fx
  index_with (some send) fx signal id =
      if send signal id then record fx { indexed = fx.indexed ++ (signal, id) ∷ [] } else fx

  -- `activity_writer.enqueue`
  abbrev pub to_timeline : Effects → ActivitySignal → Effects
  to_timeline fx signal = record fx { timeline = fx.timeline ++ signal ∷ [] }

  abbrev pub after_upsert : Effects → ActivitySignal → Option String → Effects
  after_upsert fx signal none = answer fx nack
  after_upsert fx signal (some id) = to_timeline (index_with index (answer fx ack) signal id) signal

  abbrev pub after_parse : Effects → Option ActivitySignal → Effects
  after_parse fx none = answer fx nack
  after_parse fx (some signal) = after_upsert fx signal (upsert signal)

  -- One message, with a broker that takes its answer.
  unfoldable pub consume_message : Effects → Body → Effects
  consume_message fx body = after_parse fx (parse body)

  unfoldable pub consume_queue : Effects → List Body → Effects
  unfolding consume_message
  consume_queue fx [] = fx
  consume_queue fx (body ∷ bodies) = consume_queue (consume_message fx body) bodies

  abbrev pub kept : ActivitySignal → Option String → Option ActivitySignal
  kept signal none = none
  kept signal (some id) = some signal

  abbrev pub valid : Option ActivitySignal → Option ActivitySignal
  valid none = none
  valid (some signal) = kept signal (upsert signal)

  -- The signal of a message that is a signal and that Neo4j takes.
  abbrev pub upserted : Body → Option ActivitySignal
  upserted body = valid (parse body)

  abbrev pub answer_of : Option ActivitySignal → Answer
  answer_of none = nack
  answer_of (some signal) = ack

  abbrev pub those : List (Option ActivitySignal) → List ActivitySignal
  those [] = []
  those (none ∷ rest) = those rest
  those (some signal ∷ rest) = signal ∷ those rest

  record Does (fx : Effects) (o : Option ActivitySignal) (r : Effects) : Type 0 where
    answers : r.answers ≡ fx.answers ++ answer_of o ∷ []
    timeline : r.timeline ≡ fx.timeline ++ those (o ∷ [])

  index_with-Does :
      (o : Option (ActivitySignal → String → Bool)) (fx : Effects) (signal : ActivitySignal)
      (id : String)
      → Does fx (some signal) (to_timeline (index_with o (answer fx ack) signal id) signal)
  index_with-Does none fx signal id = record { answers = refl; timeline = refl }
  index_with-Does (some send) fx signal id = elim (Bool-cases (send signal id)) [
    | inl sent ↦ rw sent (record { answers = refl; timeline = refl })
    | inr failed ↦ rw failed (record { answers = refl; timeline = refl })
  ]

  after_upsert-Does :
      (fx : Effects) (signal : ActivitySignal) (o : Option String)
      → Does fx (kept signal o) (after_upsert fx signal o)
  after_upsert-Does fx signal none = record {
    answers = refl;
    timeline = sym (append-nil fx.timeline);
  }
  after_upsert-Does fx signal (some id) = index_with-Does index fx signal id

  after_parse-Does :
      (fx : Effects) (o : Option ActivitySignal) → Does fx (valid o) (after_parse fx o)
  after_parse-Does fx none = record { answers = refl; timeline = sym (append-nil fx.timeline) }
  after_parse-Does fx (some signal) = after_upsert-Does fx signal (upsert signal)

  consume_message-Does :
      (fx : Effects) (body : Body) → Does fx (upserted body) (consume_message fx body)
  unfolding consume_message
  consume_message-Does fx body = after_parse-Does fx (parse body)

  those-cons :
      (o : Option ActivitySignal) (rest : List (Option ActivitySignal))
      → those (o ∷ rest) ≡ those (o ∷ []) ++ those rest
  those-cons none rest = refl
  those-cons (some signal) rest = refl

-- Each message is answered once and in order: acknowledged exactly when it is a signal that Neo4j takes,
-- and else sent to the dead letters. Just the acknowledged signals reach the timeline, in order. What
-- Elasticsearch does changes neither.
pub consume_queue-answers :
    (sinks : Sinks) (fx : Effects) (bodies : List sinks.Body)
    → ((consume_queue sinks fx bodies).answers
        ≡ fx.answers ++ map (λ b. answer_of sinks (upserted sinks b)) bodies)
      × ((consume_queue sinks fx bodies).timeline
          ≡ fx.timeline ++ those sinks (map (upserted sinks) bodies))
unfolding consume_queue
consume_queue-answers sinks fx [] = (sym (append-nil fx.answers), sym (append-nil fx.timeline))
consume_queue-answers sinks fx (body ∷ bodies) =
    let here = consume_message-Does sinks fx body in
    let later = consume_queue-answers sinks (consume_message sinks fx body) bodies in
    (
      later.0 ∙ rw here.answers (append_assoc fx.answers _ _),
      later.1
          ∙ rw (here.timeline, those-cons sinks (upserted sinks body) (map (upserted sinks) bodies))
              (append_assoc fx.timeline _ _),
    )
