-- ===== src/Sessions/Found.antt =====
-- What an update of one row by src/app/api/auth/v1/query.py leaves to be found, under its hash and
-- under others.
use mathlib.Core.Path.{subst}
use work_behavior_analytics.Prelude.{
  ℕ, true, false, String, some, List, [], ◌∷◌, All, ◌==◌, ℕ_key, text_key, if◌then◌else◌,
  Bool-cases, same_refl, eq_iff, ◌≡◌, refl, sym, inl, inr, arith,
}
use work_behavior_analytics.Sessions.Table.{AuthSession, is_active, find_active, update_where}
use work_behavior_analytics.Sessions.Rows.{All-mono, Differ, Distinct, KeepsKeys, first_active}

-- A change that leaves the keys and the revocation alone.
pub record IsTouch (f : AuthSession → AuthSession) : Type 0 where
  pub keeps : KeepsKeys f
  pub same : (r : AuthSession) → (f r).revoked_at ≡ r.revoked_at

touched_active :
    (hash : String) (id : ℕ) (f : AuthSession → AuthSession)
    → IsTouch f
    → (r : AuthSession) → is_active hash (if r.id == id then f r else r) ≡ is_active hash r
touched_active hash id f k r = elim (Bool-cases (r.id == id)) [
  | inl e ↦ rw (e, (k.keeps r).1, k.same r) refl
  | inr e ↦ rw e refl
]

pub find_active-update :
    (hash : String) (row : AuthSession) (f : AuthSession → AuthSession) (rows : List AuthSession)
    → IsTouch f
    → find_active hash rows ≡ some row
    → find_active hash (update_where row.id f rows) ≡ some (f row)
unfolding find_active update_where
find_active-update hash row f [] k e = cc
find_active-update hash row f (r ∷ rows) k e = elim (Bool-cases (is_active hash r)) [
  | inl a ↦
      rw
        (
          touched_active hash row.id f k r,
          a,
          sym (first_active hash r row rows a e),
          same_refl r.id,
        )
        refl
  | inr a ↦
      rw (touched_active hash row.id f k r, a) (find_active-update hash row f rows k (ground arith))
]

find_active-All :
    (P : AuthSession → Type 0) (hash : String) (row : AuthSession) (rows : List AuthSession)
    → All P rows
    → find_active hash rows ≡ some row
    → P row
unfolding find_active
find_active-All P hash row [] h e = absurd cc
find_active-All P hash row (r ∷ rows) h e = elim (Bool-cases (is_active hash r)) [
  | inl a ↦ subst P (first_active hash r row rows a e) h.0
  | inr a ↦ find_active-All P hash row rows h.1 (ground arith)
]

abbrev pub IsOther : String → AuthSession → AuthSession → Type 0
IsOther other row r = is_active other r ≡ true → (r.id == row.id) ≡ false

pub rows-IsOther :
    (hash other : String) (row : AuthSession) (rows : List AuthSession)
    → (other == hash) ≡ false
    → Distinct rows
    → find_active hash rows ≡ some row
    → All (IsOther other row) rows
unfolding find_active
rows-IsOther hash other row [] n d e = tt
rows-IsOther hash other row (r ∷ rows) n d e = elim (Bool-cases (is_active hash r)) [
  | inl a ↦
      subst (λ q. All (IsOther other q) (r ∷ rows)) (first_active hash r row rows a e)
        (
          λ b. absurd (
              ground (
                arith,
                eq_iff r.session_id_hash other,
                eq_iff r.session_id_hash hash,
                eq_iff other hash,
              )),
          All-mono (Differ r) (IsOther other r) rows (λ q h _. ground (arith, h.0)) d.0,
        )
  | inr a ↦ (
    λ _. (find_active-All (Differ r) hash row rows d.0 (ground arith)).0,
    rows-IsOther hash other row rows n d.1 (ground arith),
  )
]

pub find_active-other :
    (other : String) (row : AuthSession) (f : AuthSession → AuthSession) (rows : List AuthSession)
    → KeepsKeys f
    → ((r : AuthSession) → is_active other r ≡ false → is_active other (f r) ≡ false)
    → All (IsOther other row) rows
    → find_active other (update_where row.id f rows) ≡ find_active other rows
unfolding find_active update_where
find_active-other other row f [] k m h = refl
find_active-other other row f (r ∷ rows) k m h = elim (Bool-cases (is_active other r)) [
  | inl a ↦ rw (h.0 a, a) refl
  | inr a ↦ elim (Bool-cases (r.id == row.id)) [
    | inl i ↦ rw (i, m r a, a) (find_active-other other row f rows k m h.1)
    | inr i ↦ rw (i, a) (find_active-other other row f rows k m h.1)
  ]
]
