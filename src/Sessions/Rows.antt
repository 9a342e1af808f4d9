-- ===== src/Sessions/Rows.antt =====
-- Rows of the session table with distinct ids and hashes, under the statements of
-- src/app/api/auth/v1/query.py.
use work_behavior_analytics.Prelude.{
  ℕ, Bool, true, false, String, none, some, List, [], ◌∷◌, ◌++◌, map, filter, All, ◌==◌, ℕ_key,
  text_key, if◌then◌else◌, Bool-cases, ◌≡◌, refl, inl, inr, arith,
}
use work_behavior_analytics.Sessions.Table.{AuthSession, is_active, find_active}

module _ {A : Type 0} where
  pub All-mono : (P Q : A → Type 0) (xs : List A) → ((x : A) → P x → Q x) → All P xs → All Q xs
  All-mono P Q [] f h = tt
  All-mono P Q (x ∷ xs) f h = (f x h.0, All-mono P Q xs f h.1)

  pub All-map :
      (P Q : A → Type 0) (g : A → A) (xs : List A)
      → ((x : A) → P x → Q (g x))
      → All P xs
      → All Q (map g xs)
  All-map P Q g [] f h = tt
  All-map P Q g (x ∷ xs) f h = (f x h.0, All-map P Q g xs f h.1)

  pub All-filter : (P : A → Type 0) (p : A → Bool) (xs : List A) → All P xs → All P (filter p xs)
  All-filter P p [] h = tt
  All-filter P p (x ∷ xs) h = ground (arith, All-filter P p xs)

  pub All-snoc : (P : A → Type 0) (xs : List A) (a : A) → All P xs → P a → All P (xs ++ a ∷ [])
  All-snoc P [] a h k = (k, tt)
  All-snoc P (x ∷ xs) a h k = (h.0, All-snoc P xs a h.1 k)

-- Neither the id nor the hash is the other's.
abbrev pub Differ : AuthSession → AuthSession → Type 0
Differ r q = ((r.id == q.id) ≡ false) × ((r.session_id_hash == q.session_id_hash) ≡ false)

abbrev pub Distinct : List AuthSession → Type 0
Distinct [] = Unit {0}
Distinct (r ∷ rows) = All (Differ r) rows × Distinct rows

pub Distinct-filter :
    (p : AuthSession → Bool) (rows : List AuthSession) → Distinct rows → Distinct (filter p rows)
Distinct-filter p [] h = tt
Distinct-filter p (r ∷ rows) h =
    ground (arith, Distinct-filter p rows, All-filter (Differ r) p rows h.0)

-- A change that leaves id and hash alone.
abbrev pub KeepsKeys : (AuthSession → AuthSession) → Type 0
KeepsKeys f = (r : AuthSession) → ((f r).id ≡ r.id) × ((f r).session_id_hash ≡ r.session_id_hash)

pub Distinct-map :
    (f : AuthSession → AuthSession) (rows : List AuthSession)
    → KeepsKeys f
    → Distinct rows
    → Distinct (map f rows)
Distinct-map f [] k h = tt
Distinct-map f (r ∷ rows) k h = (
  All-map (Differ r) (Differ (f r)) f rows (λ q d. rw ((k r).0, (k r).1, (k q).0, (k q).1) d) h.0,
  Distinct-map f rows k h.1,
)

pub Distinct-snoc :
    (rows : List AuthSession) (a : AuthSession)
    → Distinct rows
    → All (λ r. Differ r a) rows
    → Distinct (rows ++ a ∷ [])
Distinct-snoc [] a h k = (tt, tt)
Distinct-snoc (r ∷ rows) a h k = (All-snoc (Differ r) rows a h.0 k.0, Distinct-snoc rows a h.1 k.1)

pub if-KeepsKeys :
    (id : ℕ) (f : AuthSession → AuthSession)
    → KeepsKeys f
    → KeepsKeys (λ r. if r.id == id then f r else r)
if-KeepsKeys id f k r = elim (Bool-cases (r.id == id)) [
  | inl e ↦ rw e (k r)
  | inr e ↦ rw e (refl, refl)
]

abbrev pub IsOut : String → List AuthSession → Type 0
IsOut hash = All (λ r. is_active hash r ≡ false)

pub find_active-IsOut :
    (hash : String) (rows : List AuthSession) → IsOut hash rows → find_active hash rows ≡ none
unfolding find_active
find_active-IsOut hash [] h = refl
find_active-IsOut hash (r ∷ rows) h = rw h.0 (find_active-IsOut hash rows h.1)

pub IsOut-find_active :
    (hash : String) (rows : List AuthSession) → find_active hash rows ≡ none → IsOut hash rows
unfolding find_active
IsOut-find_active hash [] h = tt
IsOut-find_active hash (r ∷ rows) h = ground (arith, IsOut-find_active hash rows)

pub first_active :
    (hash : String) (r row : AuthSession) (rows : List AuthSession)
    → is_active hash r ≡ true
    → find_active hash (r ∷ rows) ≡ some row
    → r ≡ row
unfolding find_active
first_active hash r row rows a e = ground arith
