-- ===== src/Commands/Registry.antt =====
-- The part of CONNECTOR_REGISTRY (src/domain/connector_registry.py) that commands depend on: each
-- connector type with its producer container, if it has one.
use work_behavior_analytics.Prelude.{
  Bool, false, ◌||◌, String, List, [], ◌∷◌, Option, none, some, ◌==◌, text_key,
}

abbrev pub Registry : Type 0
Registry = List (String × Option String)

abbrev pub connector_registry : Registry
connector_registry =
    ("github", some "github-producer")
    ∷ ("jira", some "jira-producer")
    ∷ ("slack", none)
    ∷ ("teams", none)
    ∷ ("confluence", some "confluence-producer")
    ∷ ("google_docs", none)
    ∷ ("sharepoint", none)
    ∷ ("email", none)
    ∷ ("atlassian_mcp", none)
    ∷ ("github_mcp", none)
    ∷ []

-- `entry.get("producer_container") == target`
abbrev pub is_container : Option String → String → Bool
is_container none target = false
is_container (some c) target = c == target

unfoldable pub is_producer_target : Registry → String → Bool
is_producer_target [] target = false
is_producer_target ((kind, container) ∷ rest) target =
    is_container container target || is_producer_target rest target

abbrev pub cons_some : Option String → List String → List String
cons_some none rest = rest
cons_some (some c) rest = c ∷ rest

-- the publisher's `known_targets`
unfoldable pub known_targets : Registry → List String
known_targets [] = []
known_targets ((kind, container) ∷ rest) = cons_some container (known_targets rest)
