-- ===== src/Commands/Listing.antt =====
-- `list_commands` (src/app/api/commands/v1/service.py): filters, the order by creation time, and pages.
use mathlib.Core.List.Perm
use mathlib.Core.List.{Perm}
use work_behavior_analytics.Prelude.{
  ℕ, zero, suc, ◌+◌, ◌≤◌, Bool, true, ◌&&◌, String, ◌≡◌, refl, arith, ◌==◌, text_key, ltb,
  if◌then◌else◌, Option, none, some, List, [], ◌∷◌, ◌++◌, length, take, drop, filter, All,
  Bool-cases, inl, inr, drop-add, take-add, take-length, length-take,
}
use work_behavior_analytics.Commands.Row.{CommandRow, Table}

-- `if status is not None: query.where(CommandStatus.status == status)`
abbrev pub matches : Option String → String → Bool
matches none value = true
matches (some wanted) value = value == wanted

pub record Query : Type 0 where
  pub status : Option String
  pub target : Option String
  pub command_type : Option String

abbrev pub selects : Query → CommandRow → Bool
selects q row =
    matches q.status row.status
    && matches q.target row.target
    && matches q.command_type row.command_type

-- ORDER BY created_at DESC. Among rows of one time the database may choose; here the order of the
-- table stays.
unfoldable pub place : CommandRow → List CommandRow → List CommandRow
place row [] = row ∷ []
place row (r ∷ rows) =
    if ltb row.created_at r.created_at then r ∷ place row rows else row ∷ r ∷ rows

unfoldable pub newest_first : List CommandRow → List CommandRow
unfolding place
newest_first [] = []
newest_first (row ∷ rows) = place row (newest_first rows)

unfoldable pub list_commands : Table → Query → ℕ → ℕ → List CommandRow × ℕ
list_commands db q limit offset =
    let found = filter (selects q) db in
    (take limit (drop offset (newest_first found)), length found)

-- Each row is at least as new as those behind it.
abbrev pub IsNewestFirst : List CommandRow → Type 0
IsNewestFirst [] = Unit
IsNewestFirst (r ∷ rows) = All (λ s. s.created_at ≤ r.created_at) rows × IsNewestFirst rows

abbrev Below : ℕ → List CommandRow → Type 0
Below t = All (λ s. s.created_at ≤ t)

Below-weaken : (t u : ℕ) (rows : List CommandRow) → t ≤ u → Below t rows → Below u rows
Below-weaken t u [] h b = tt
Below-weaken t u (r ∷ rows) h b = (omega arith, Below-weaken t u rows h b.1)

Below-place :
    (t : ℕ) (row : CommandRow) (rows : List CommandRow)
    → row.created_at ≤ t
    → Below t rows
    → Below t (place row rows)
unfolding place
Below-place t row [] h b = (h, tt)
Below-place t row (r ∷ rows) h b = elim (Bool-cases (ltb row.created_at r.created_at)) [
  | inl e ↦ rw e (b.0, Below-place t row rows h b.1)
  | inr e ↦ rw e (h, (b.0, b.1))
]

place-IsNewestFirst :
    (row : CommandRow) (rows : List CommandRow)
    → IsNewestFirst rows
    → IsNewestFirst (place row rows)
unfolding place
place-IsNewestFirst row [] s = (tt, tt)
place-IsNewestFirst row (r ∷ rows) s = elim (Bool-cases (ltb row.created_at r.created_at)) [
  | inl e ↦
      rw e (Below-place r.created_at row rows (ground arith) s.0, place-IsNewestFirst row rows s.1)
  | inr e ↦
      rw e (
        (ground arith, Below-weaken r.created_at row.created_at rows (ground arith) s.0),
        (s.0, s.1),
      )
]

newest_first-IsNewestFirst : (rows : List CommandRow) → IsNewestFirst (newest_first rows)
unfolding newest_first
newest_first-IsNewestFirst [] = tt
newest_first-IsNewestFirst (r ∷ rows) = place-IsNewestFirst r _ (newest_first-IsNewestFirst rows)

place-perm : (row : CommandRow) (rows : List CommandRow) → Perm (place row rows) (row ∷ rows)
unfolding place
place-perm row [] = Perm.refl _
place-perm row (r ∷ rows) = elim (Bool-cases (ltb row.created_at r.created_at)) [
  | inl e ↦ rw e (Perm.trans (Perm.cons r (place-perm row rows)) (Perm.swap row r rows))
  | inr e ↦ rw e (Perm.refl _)
]

length-place :
    (row : CommandRow) (rows : List CommandRow) → length (place row rows) ≡ suc (length rows)
unfolding place
length-place row [] = refl
length-place row (r ∷ rows) = ground (arith, length-place row rows)

length-newest_first : (rows : List CommandRow) → length (newest_first rows) ≡ length rows
unfolding newest_first
length-newest_first [] = refl
length-newest_first (r ∷ rows) =
    omega (arith, length-place r (newest_first rows), length-newest_first rows)

newest_first-perm : (rows : List CommandRow) → Perm (newest_first rows) rows
unfolding newest_first
newest_first-perm [] = Perm.refl _
newest_first-perm (r ∷ rows) =
    Perm.trans (place-perm r (newest_first rows)) (Perm.cons r (newest_first-perm rows))

Below-take : (t n : ℕ) (rows : List CommandRow) → Below t rows → Below t (take n rows)
Below-take t zero rows b = tt
Below-take t (suc n) [] b = tt
Below-take t (suc n) (r ∷ rows) b = (b.0, Below-take t n rows b.1)

take-IsNewestFirst :
    (n : ℕ) (rows : List CommandRow) → IsNewestFirst rows → IsNewestFirst (take n rows)
take-IsNewestFirst zero rows s = tt
take-IsNewestFirst (suc n) [] s = tt
take-IsNewestFirst (suc n) (r ∷ rows) s =
    (Below-take r.created_at n rows s.0, take-IsNewestFirst n rows s.1)

drop-IsNewestFirst :
    (n : ℕ) (rows : List CommandRow) → IsNewestFirst rows → IsNewestFirst (drop n rows)
drop-IsNewestFirst zero rows s = s
drop-IsNewestFirst (suc n) [] s = tt
drop-IsNewestFirst (suc n) (r ∷ rows) s = drop-IsNewestFirst n rows s.1

-- Two pages, one behind the other, are the page of both lengths.
pub list_commands-pages :
    (db : Table) (q : Query) (first second offset : ℕ)
    → (list_commands db q first offset).0 ++ (list_commands db q second (offset + first)).0
      ≡ (list_commands db q (first + second) offset).0
unfolding list_commands
list_commands-pages db q first second offset =
    let rows = newest_first (filter (selects q) db) in
    rw (drop-add offset first rows) (take-add first second (drop offset rows))

-- Every page is ordered by creation time, newest first, and has at most `limit` rows.
pub list_commands-IsNewestFirst :
    (db : Table) (q : Query) (limit offset : ℕ)
    → IsNewestFirst (list_commands db q limit offset).0
      × (length (list_commands db q limit offset).0 ≤ limit)
unfolding list_commands
list_commands-IsNewestFirst db q limit offset =
    let rows = newest_first (filter (selects q) db) in
    (
      take-IsNewestFirst limit _ (drop-IsNewestFirst offset rows (newest_first-IsNewestFirst _)),
      omega (arith, length-take limit (drop offset rows)),
    )

-- A page that is as long as the reported total holds each row that the filters select, as often as
-- the table does.
pub list_commands-perm :
    (db : Table) (q : Query) (limit : ℕ)
    → (list_commands db q limit 0).1 ≤ limit
    → Perm (list_commands db q limit 0).0 (filter (selects q) db)
unfolding list_commands
list_commands-perm db q limit h =
    let rows = filter (selects q) db in
    rw (take-length limit (newest_first rows) (rw (length-newest_first rows) h))
      (newest_first-perm rows)
