-- ===== src/Commands/Creation.antt =====
-- `create_and_publish_command` (src/app/api/commands/v1/service.py) with the publisher: what is
-- written and what is sent on every branch, and the uniqueness of the ids.
use work_behavior_analytics.Prelude.{
  ℕ, Bool, true, false, not, ◌&&◌, String, ◌≡◌, ◌⊎◌, inl, inr, refl, ap, arith, ◌==◌, eq_iff, ℕ_key,
  text_key, if◌then◌else◌, Bool-cases, Option-cases, none, some, List, [], ◌∷◌, ◌++◌, map, All,
}
use work_behavior_analytics.Commands.Registry.{Registry, is_producer_target, known_targets}
use work_behavior_analytics.Commands.Row.{CommandRow, Table, CreateRequest, StatusUpdate}
use work_behavior_analytics.Commands.Publisher.{
  Broker, Delivery, publish, publish_each, routing_key, targets_of,
}
use work_behavior_analytics.Commands.Service.{
  Result, ok, unknown_target, duplicate_id, get_command, update_command_status, Created, new_row,
  envelope_of, settle, create_and_publish_command, refuse, insert_and_publish,
}
use work_behavior_analytics.Commands.Lifecycle.Update.{
  Outcome, missing, refused, applied, ids, update_command_status-Outcome,
}

-- The messages of a publish that reaches every target.
abbrev pub deliveries : CreateRequest → ℕ → ℕ → List String → List Delivery
deliveries request id now =
    map (λ t. record { routing_key = routing_key t; body = envelope_of request id now })

abbrev pub AllAccepted : Broker → List String → Type 0
AllAccepted broker = All (λ t. broker.accepts (routing_key t) ≡ true)

-- A publish that returns has sent one message to each target, in order.
publish_each-done :
    (accepts : String → Bool) (request : CreateRequest) (id now : ℕ) (targets : List String)
    → (publish_each accepts (envelope_of request id now) targets).1 ≡ true
    → ((publish_each accepts (envelope_of request id now) targets).0
        ≡ deliveries request id now targets)
      × All (λ t. accepts (routing_key t) ≡ true) targets
unfolding publish_each
publish_each-done accepts request id now [] h = (refl, tt)
publish_each-done accepts request id now (t ∷ ts) h = elim (Bool-cases (accepts (routing_key t))) [
  | inl yes_sent ↦
      let (same, all_sent) = publish_each-done accepts request id now ts (rw yes_sent at h) in
      (rw (yes_sent, same), (yes_sent, all_sent))
  | inr not_sent ↦ cc (rw not_sent at h)
]

publish_each-All :
    (accepts : String → Bool) (request : CreateRequest) (id now : ℕ) (targets : List String)
    → All (λ t. accepts (routing_key t) ≡ true) targets
    → (publish_each accepts (envelope_of request id now) targets).1 ≡ true
unfolding publish_each
publish_each-All accepts request id now [] h = refl
publish_each-All accepts request id now (t ∷ ts) h =
    rw h.0 (publish_each-All accepts request id now ts h.1)

abbrev pub IsKnown : Registry → String → Type 0
IsKnown registry target = (target ≡ "*") ⊎ (is_producer_target registry target ≡ true)

-- What a creation does. `row` is the row that it returns.
pub data CreateOutcome (registry : Registry) (broker : Broker) (db : Table)
    (request : CreateRequest) (id now : ℕ) (after : Created) : Type 0 where
  unknown :
      ¬ IsKnown registry request.target
      → after ≡ refuse db (unknown_target request.target)
      → CreateOutcome registry broker db request id now after
  duplicate :
      (old : CommandRow)
      → get_command db id ≡ some old
      → after ≡ refuse db (duplicate_id id)
      → CreateOutcome registry broker db request id now after
  published :
      IsKnown registry request.target
      → get_command db id ≡ none
      → broker.connects ≡ true
      → AllAccepted broker (targets_of (known_targets registry) request.target)
      → after.sent ≡ deliveries request id now (targets_of (known_targets registry) request.target)
      → after.result ≡ ok (record (new_row request id now) { status = "accepted" })
      → after.table ≡ db ++ record (new_row request id now) { status = "accepted" } ∷ []
      → CreateOutcome registry broker db request id now after
  unpublished :
      IsKnown registry request.target
      → get_command db id ≡ none
      → ¬ (
          (broker.connects ≡ true)
          × AllAccepted broker (targets_of (known_targets registry) request.target))
      → after.result ≡ ok (settle (new_row request id now) false)
      → after.table ≡ db ++ settle (new_row request id now) false ∷ []
      → CreateOutcome registry broker db request id now after

module _ (registry : Registry) (broker : Broker) (db : Table) (request : CreateRequest)
    (id now : ℕ) where
  IsKnown-cases :
      IsKnown registry request.target
        × ((not (request.target == "*") && not (is_producer_target registry request.target))
            ≡ false)
      ⊎ ¬ IsKnown registry request.target
        × ((not (request.target == "*") && not (is_producer_target registry request.target)) ≡ true)
  IsKnown-cases = ground (arith, eq_iff request.target "*")

  publish_cases :
      (IsKnown registry request.target)
      → (get_command db id ≡ none)
      → CreateOutcome registry broker db request id now
          (insert_and_publish registry broker db request id now)
  unfolding publish
  publish_cases known fresh = elim (Bool-cases broker.connects) [
    | inr down ↦ unpublished known fresh (λ (up, _). cc) (rw down) (rw down)
    | inl up ↦
        elim (Bool-cases
          (publish_each broker.accepts (envelope_of request id now)
            (targets_of (known_targets registry) request.target)).1) [
              | inl done ↦
                  let (same, accepted) =
                    publish_each-done broker.accepts request id now
                      (targets_of (known_targets registry) request.target) done in
                  published known fresh up accepted (rw up same) (rw (up, done)) (rw (up, done))
              | inr broken ↦
                  unpublished known fresh
                    (λ (_, accepted). cc (
                      publish_each-All broker.accepts request id now
                        (targets_of (known_targets registry) request.target) accepted))
                    (rw (up, broken)) (rw (up, broken))
            ]
  ]

  pub create-CreateOutcome :
      CreateOutcome registry broker db request id now
        (create_and_publish_command registry broker db request id now)
  unfolding create_and_publish_command
  create-CreateOutcome = elim IsKnown-cases [
    | inr (not_known, e) ↦ unknown not_known (rw e)
    | inl (known, e) ↦ elim (Option-cases (get_command db id)) [
      | inr (old, taken) ↦ duplicate old taken (rw (e, taken))
      | inl fresh ↦ rw (e, fresh) (publish_cases known fresh)
    ]
  ]

-- Each id occurs once in the table.
abbrev pub IsUnique : Table → Type 0
IsUnique [] = Unit
IsUnique (r ∷ rows) = (get_command rows r.command_id ≡ none) × IsUnique rows

pub get_command-append :
    (db : Table) (row : CommandRow) (j : ℕ)
    → get_command (db ++ row ∷ []) j ≡ (elim (get_command db j) [
      | some r ↦ some r
      | none ↦ (if row.command_id == j then some row else none)
    ])
unfolding get_command
get_command-append [] row j = refl
get_command-append (r ∷ db) row j = ground (arith, get_command-append db row j)

IsUnique-append :
    (db : Table) (row : CommandRow)
    → IsUnique db
    → get_command db row.command_id ≡ none
    → IsUnique (db ++ row ∷ [])
unfolding get_command
IsUnique-append [] row u fresh = (refl, tt)
IsUnique-append (r ∷ db) row u fresh = (
  ground (arith, get_command-append db row r.command_id),
  IsUnique-append db row u.1 (ground arith),
)

ids-cons :
    (r s : CommandRow) (a b : Table)
    → ids (r ∷ a) ≡ ids (s ∷ b)
    → (r.command_id ≡ s.command_id) × (ids a ≡ ids b)
ids-cons r s a b e = (cc, cc)

-- A table with the same ids in the same order has the same free ids.
absent_by_ids :
    (a b : Table) (j : ℕ) → ids a ≡ ids b → get_command b j ≡ none → get_command a j ≡ none
unfolding get_command
absent_by_ids [] b j e h = refl
absent_by_ids (r ∷ a) [] j e h = cc
absent_by_ids (r ∷ a) (s ∷ b) j e h =
    let (here, rest) = ids-cons r s a b e in ground (arith, absent_by_ids a b j rest)

IsUnique-by_ids : (a b : Table) → ids a ≡ ids b → IsUnique b → IsUnique a
IsUnique-by_ids [] b e u = tt
IsUnique-by_ids (r ∷ a) [] e u = cc
IsUnique-by_ids (r ∷ a) (s ∷ b) e u =
    let (here, rest) = ids-cons r s a b e in
    (rw here (absent_by_ids a b s.command_id rest u.0), IsUnique-by_ids a b rest u.1)

update_ids :
    (db : Table) (id : ℕ) (u : StatusUpdate) → ids (update_command_status db id u).1 ≡ ids db
update_ids db id u = from_outcome _ (update_command_status-Outcome db id u)
  where
    from_outcome :
        (after : Result CommandRow × Table) → Outcome db id u after → ids after.1 ≡ ids db
    from_outcome after (missing _ e) = ap (λ (p : Result CommandRow × Table). ids p.1) e
    from_outcome after (refused _ _ _ _ e) = ap (λ (p : Result CommandRow × Table). ids p.1) e
    from_outcome after (applied _ _ _ _ _ _ e) = e

-- A creation keeps the ids of the table unique.
pub create-IsUnique :
    (registry : Registry) (broker : Broker) (db : Table) (request : CreateRequest) (id now : ℕ)
    → IsUnique db
    → IsUnique (create_and_publish_command registry broker db request id now).table
create-IsUnique registry broker db request id now u =
    from_outcome _ (create-CreateOutcome registry broker db request id now)
  where
    from_outcome :
        (after : Created)
        → CreateOutcome registry broker db request id now after
        → IsUnique after.table
    from_outcome after (unknown _ e) = rw e u
    from_outcome after (duplicate _ _ e) = rw e u
    from_outcome after (published _ fresh _ _ _ _ e) = rw e (IsUnique-append db _ u fresh)
    from_outcome after (unpublished _ fresh _ _ e) = rw e (IsUnique-append db _ u fresh)

-- An update keeps the ids of the table unique.
pub update-IsUnique :
    (db : Table) (id : ℕ) (u : StatusUpdate)
    → IsUnique db
    → IsUnique (update_command_status db id u).1
update-IsUnique db id u h = IsUnique-by_ids _ db (update_ids db id u) h
