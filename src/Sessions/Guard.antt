-- ===== src/Sessions/Guard.antt =====
-- The open-redirect guard of src/app/api/auth/v1/service.py.
use work_behavior_analytics.Prelude.{String, Option, some, ◌≡◌, refl}
use work_behavior_analytics.Prelude.Text.{strip, strip-strip, has_text}
use work_behavior_analytics.Sessions.Paths.{
  default_next_path, has_bad_text, sanitize, or_empty, sanitize_next_path, IsSafe, Guarded, kept,
  rejected, default-IsSafe, sanitize-Guarded,
}

Guarded-IsSafe : (s r : String) → Guarded s r → IsSafe r
Guarded-IsSafe s _ (kept h) = h
Guarded-IsSafe s _ (rejected h) = default-IsSafe

-- Whatever `next` asks for, the path that a login returns to starts with the text "/app" (so "/appfoo" is
-- one) and has no "//", backslash, line feed, carriage return or ".."; and it is the stripped request where that is such a path, and the
-- default path everywhere else.
pub sanitize_next_path-Guarded :
    (next_path : Option String)
    → IsSafe (sanitize_next_path next_path)
      × Guarded (strip (or_empty next_path)) (sanitize_next_path next_path)
unfolding sanitize_next_path
sanitize_next_path-Guarded next_path = (
  Guarded-IsSafe _ _ (sanitize-Guarded (strip (or_empty next_path))),
  sanitize-Guarded (strip (or_empty next_path)),
)

default-again : sanitize (strip default_next_path) ≡ default_next_path
unfolding sanitize has_bad_text has_text strip
default-again = refl

again : (s r : String) → sanitize (strip s) ≡ r → Guarded (strip s) r → sanitize (strip r) ≡ r
again s _ e (kept h) = rw (strip-strip s) e
again s _ e (rejected h) = default-again

pub sanitize_next_path-again :
    (next_path : Option String)
    → sanitize_next_path (some (sanitize_next_path next_path)) ≡ sanitize_next_path next_path
unfolding sanitize_next_path
sanitize_next_path-again next_path =
    again (or_empty next_path) _ refl (sanitize-Guarded (strip (or_empty next_path)))
