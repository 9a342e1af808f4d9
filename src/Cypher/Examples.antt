-- ===== src/Cypher/Examples.antt =====
-- Queries under a lexer of two queries, and the theorems about the check at these inputs.
use work_behavior_analytics.Prelude.{
  true, false, String, ◌≡◌, ◌↔◌, refl, Option, none, some, List, [], ◌∷◌, ◌==◌, text_key,
  if◌then◌else◌,
}
use work_behavior_analytics.Prelude.Text.{strip, lstrip, rstrip, is_space, has_text, upper}
use work_behavior_analytics.Cypher.ReadOnly.{
  TokenKind, match_kw, create, ident, other, Token, answer, apoc_write_keywords,
  is_read_only_cypher, validate_read_only_query,
}
use work_behavior_analytics.Cypher.Decision.{IsReadOnly, is_read_only_cypher_iff}

abbrev token : TokenKind → String → Token
token kind text = record { kind = kind; text = text }

abbrev reading : String → List Token
reading value =
    token match_kw "match"
    ∷ token ident "n"
    ∷ token (other "STRING") value
    ∷ token (other "EOF") ""
    ∷ []

abbrev writing : List Token
writing = token create "create" ∷ token (other "EOF") "" ∷ []

abbrev lexer : String → Option (List Token)
lexer query =
    if query == "match 'create'"
    then some (reading "create")
    else if query == "match 'x'"
    then some (reading "x")
    else if query == "create"
    then some writing
    else none

program : Unit {0}
unfolding is_space lstrip rstrip strip has_text upper is_read_only_cypher validate_read_only_query
program = tt
  where
    value : validate_read_only_query lexer "match 'create'" ≡ answer true
    value = refl

    clause : validate_read_only_query lexer "create" ≡ answer false
    clause = refl

    unlexed : validate_read_only_query lexer "match 'x" ≡ answer false
    unlexed = refl

    blank : validate_read_only_query lexer "  " ≡ answer false
    blank = refl

is_read_only_cypher_iff_example :
    (is_read_only_cypher lexer apoc_write_keywords ("DROP" ∷ []) "match 'x'" ≡ answer true)
    ↔ IsReadOnly lexer apoc_write_keywords ("DROP" ∷ []) "match 'x'"
is_read_only_cypher_iff_example =
    is_read_only_cypher_iff lexer apoc_write_keywords ("DROP" ∷ []) "match 'x'"
