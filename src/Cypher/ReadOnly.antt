-- ===== src/Cypher/ReadOnly.antt =====
-- src/app/api/graph/v1/cypher_read_only.py, as src/app/api/graph/v1/query.py calls it. The lexer is a
-- parameter.
use work_behavior_analytics.Prelude.{
  Bool, true, false, ◌&&◌, ◌||◌, String, Option, none, some, List, [], ◌∷◌, map, any, text_key,
  if◌then◌else◌, contains,
}
use work_behavior_analytics.Prelude.Text.{is_empty, strip, has_text, upper}

-- The kinds that the check names, by their names; `other` is any further kind, the end of the query included.
pub data TokenKind : Type 0 where
  create : TokenKind
  merge : TokenKind
  set : TokenKind
  delete : TokenKind
  detach : TokenKind
  remove : TokenKind
  foreach : TokenKind
  match_kw : TokenKind
  optional : TokenKind
  with_kw : TokenKind
  unwind : TokenKind
  return_kw : TokenKind
  where_kw : TokenKind
  order : TokenKind
  skip : TokenKind
  limit : TokenKind
  call : TokenKind
  union : TokenKind
  ident : TokenKind
  other : String → TokenKind

pub record Token : Type 0 where
  pub kind : TokenKind
  pub text : String

-- WRITE_KEYWORD_TOKENS
abbrev pub is_write : TokenKind → Bool
is_write create = true
is_write merge = true
is_write set = true
is_write delete = true
is_write detach = true
is_write remove = true
is_write foreach = true
is_write _ = false

-- READ_START_TOKENS
abbrev pub is_read_start : TokenKind → Bool
is_read_start match_kw = true
is_read_start optional = true
is_read_start with_kw = true
is_read_start unwind = true
is_read_start return_kw = true
is_read_start where_kw = true
is_read_start order = true
is_read_start skip = true
is_read_start limit = true
is_read_start call = true
is_read_start union = true
is_read_start _ = false

abbrev pub is_ident : TokenKind → Bool
is_ident ident = true
is_ident _ = false

-- The answer, or an IndexError where the lexer gives no token at all.
pub data Verdict : Type 0 where
  answer : Bool → Verdict
  no_tokens : Verdict

-- Whether a keyword stands as an identifier.
abbrev pub is_keyword_ident : List String → Token → Bool
is_keyword_ident keywords token =
    is_ident token.kind && contains (map upper keywords) (upper token.text)

abbrev pub starts_reading : List Token → Verdict
starts_reading [] = no_tokens
starts_reading (first ∷ rest) = answer (is_read_start first.kind)

abbrev pub check_tokens : String → List String → List String → Option (List Token) → Verdict
check_tokens query substring_keywords ident_keywords none = answer false
check_tokens query substring_keywords ident_keywords (some tokens) =
    if any (λ token. is_write token.kind) tokens
    then answer false
    else if any (λ keyword. has_text (upper keyword) (upper query)) substring_keywords
    then answer false
    else if any (is_keyword_ident ident_keywords) tokens
    then answer false
    else starts_reading tokens

-- `tokenise` is none where the lexer raises a TokenizeError.
unfoldable pub is_read_only_cypher :
    (String → Option (List Token)) → List String → List String → String → Verdict
is_read_only_cypher tokenise substring_keywords ident_keywords query =
    if is_empty query || is_empty (strip query)
    then answer false
    else check_tokens query substring_keywords ident_keywords (tokenise query)

abbrev pub apoc_write_keywords : List String
apoc_write_keywords = "APOC.CYPHER.DOIT" ∷ "APOC.CYPHER.RUN" ∷ "APOC.PERIODIC.ITERATE" ∷ []

unfoldable pub validate_read_only_query : (String → Option (List Token)) → String → Verdict
unfolding is_read_only_cypher
validate_read_only_query tokenise query =
    is_read_only_cypher tokenise apoc_write_keywords ("DROP" ∷ []) query
