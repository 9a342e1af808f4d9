-- ===== src/Sessions/Paths.antt =====
-- The guard on `next`, `_sanitize_next_path` of src/app/api/auth/v1/service.py, and what it takes of
-- `urllib.parse.urlsplit`.
use Prim.Native.Char.{Char, code}
use Prim.Native.String.{[], ◌∷◌}
use work_behavior_analytics.Prelude.{
  Bool, true, false, not, ◌&&◌, ◌||◌, String, Option, none, some, leb, nat_beq, if◌then◌else◌,
  Bool-cases, ◌≡◌, refl, ◌⊎◌, inl, inr, arith,
}
use work_behavior_analytics.Prelude.Text.{has_prefix, has_text, strip}

abbrev pub default_next_path : String
default_next_path = "/app/graph"

abbrev is_letter : Char → Bool
is_letter c = (leb 65 (code c) && leb (code c) 90) || (leb 97 (code c) && leb (code c) 122)

-- A scheme has letters, digits, "+", "-" and "." up to its colon.
abbrev is_scheme_char : Char → Bool
is_scheme_char c =
    is_letter c
    || (leb 48 (code c) && leb (code c) 57)
    || nat_beq (code c) 43
    || nat_beq (code c) 45
    || nat_beq (code c) 46

abbrev ends_scheme : String → Bool
ends_scheme [] = false
ends_scheme (c ∷ s) = nat_beq (code c) 58 || (is_scheme_char c && ends_scheme s)

-- `parsed.scheme`, where it is not empty
abbrev pub has_scheme : String → Bool
has_scheme [] = false
has_scheme (c ∷ s) = is_letter c && ends_scheme s

-- `parsed.netloc`, of a text without "//"
abbrev pub has_netloc : String → Bool
has_netloc s = has_prefix s "//"

-- `any(bad in candidate for bad in …)`
unfoldable pub has_bad_text : String → Bool
unfolding has_text
has_bad_text s =
    has_text "//" s || has_text "\\" s || has_text "\n" s || has_text "\r" s || has_text ".." s

unfoldable pub sanitize : String → String
sanitize candidate =
    if not (has_prefix candidate "/app")
    then default_next_path
    else if has_bad_text candidate
    then default_next_path
    else if has_scheme candidate || has_netloc candidate
    then default_next_path
    else candidate

abbrev pub or_empty : Option String → String
or_empty none = ""
or_empty (some s) = s

unfoldable pub sanitize_next_path : Option String → String
unfolding sanitize
sanitize_next_path next_path = sanitize (strip (or_empty next_path))

-- What a kept path has and lacks.
pub record IsSafe (s : String) : Type 0 where
  pub in_app : has_prefix s "/app" ≡ true
  pub no_host : has_text "//" s ≡ false
  pub no_backslash : has_text "\\" s ≡ false
  pub no_newline : has_text "\n" s ≡ false
  pub no_return : has_text "\r" s ≡ false
  pub no_parent : has_text ".." s ≡ false

-- The piece that a request is refused for.
abbrev pub HasBad : String → Type 0
HasBad s =
    (has_text "//" s ≡ true)
    ⊎ ((has_text "\\" s ≡ true)
        ⊎ ((has_text "\n" s ≡ true) ⊎ ((has_text "\r" s ≡ true) ⊎ (has_text ".." s ≡ true))))

-- What the guard makes of a stripped candidate.
pub data Guarded (candidate : String) : String → Type 0 where
  kept : IsSafe candidate → Guarded candidate candidate
  rejected :
      (has_prefix candidate "/app" ≡ false) ⊎ HasBad candidate → Guarded candidate default_next_path

pub default-IsSafe : IsSafe default_next_path
unfolding has_text
default-IsSafe = record {
  in_app = refl;
  no_host = refl;
  no_backslash = refl;
  no_newline = refl;
  no_return = refl;
  no_parent = refl;
}

any_of :
    (a b c d e : Bool)
    → (a || b || c || d || e) ≡ true
    → (a ≡ true) ⊎ ((b ≡ true) ⊎ ((c ≡ true) ⊎ ((d ≡ true) ⊎ (e ≡ true))))
any_of a b c d e h = ground arith

none_of :
    (a b c d e : Bool)
    → (a || b || c || d || e) ≡ false
    → (a ≡ false) × (b ≡ false) × (c ≡ false) × (d ≡ false) × (e ≡ false)
none_of a b c d e h = ground arith

has_bad_text-HasBad : (s : String) → has_bad_text s ≡ true → HasBad s
unfolding has_bad_text
has_bad_text-HasBad s h =
    any_of (has_text "//" s) (has_text "\\" s) (has_text "\n" s) (has_text "\r" s) (has_text ".." s)
      h

clean-IsSafe : (s : String) → has_prefix s "/app" ≡ true → has_bad_text s ≡ false → IsSafe s
unfolding has_bad_text
clean-IsSafe s e h =
    let (a, b, c, d, f) =
      none_of (has_text "//" s) (has_text "\\" s) (has_text "\n" s) (has_text "\r" s)
        (has_text ".." s) h in
    record {
      in_app = e;
      no_host = a;
      no_backslash = b;
      no_newline = c;
      no_return = d;
      no_parent = f;
    }

-- The check after `urlsplit` never rejects what is left.
no_scheme : (s : String) → has_prefix s "/app" ≡ true → has_scheme s ≡ false
no_scheme [] h = refl
no_scheme (c ∷ s) h = ground arith

no_netloc : (s : String) → has_bad_text s ≡ false → has_netloc s ≡ false
unfolding has_bad_text has_text
no_netloc [] h = refl
no_netloc (c ∷ s) h = ground arith

pub sanitize-Guarded : (s : String) → Guarded s (sanitize s)
unfolding sanitize
sanitize-Guarded s = elim (Bool-cases (has_prefix s "/app")) [
  | inr e ↦ rw e (rejected (inl e))
  | inl e ↦ elim (Bool-cases (has_bad_text s)) [
    | inl f ↦ rw (e, f) (rejected (inr (has_bad_text-HasBad s f)))
    | inr f ↦ rw (e, f, no_scheme s e, no_netloc s f) (kept (clean-IsSafe s e f))
  ]
]
