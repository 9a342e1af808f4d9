-- ===== src/Cypher/Decision.antt =====
-- What src/app/api/graph/v1/cypher_read_only.py accepts, and that values do not sway it.
pub mod Values
use mathlib.Core.Path.{subst}
use work_behavior_analytics.Prelude.{
  ℕ, Bool, true, false, not, ◌&&◌, ◌||◌, String, ◌≡◌, ◌↔◌, ◌⊎◌, inl, inr, refl, sym, ◌∙◌, ap,
  Option, none, some, List, [], ◌∷◌, map, any, arith, ◌==◌, text_key, if◌then◌else◌, contains, All,
  Bool-cases, Option-cases,
}
use work_behavior_analytics.Prelude.Text.{
  is_empty, strip, lstrip, rstrip, has_text, upper, is_empty-eq,
}
use work_behavior_analytics.Cypher.Clauses.{
  Writes, BeginsReading, is_write-Writes, Writes-is_write, is_read_start-BeginsReading,
  BeginsReading-is_read_start,
}
use work_behavior_analytics.Cypher.ReadOnly.{
  TokenKind, ident, Token, is_write, is_read_start, is_ident, Verdict, answer, no_tokens,
  is_keyword_ident, starts_reading, check_tokens, is_read_only_cypher,
}

any_iff : {A : Type 0} (p : A → Bool) (xs : List A) → (any p xs ≡ false) ↔ All (λ x. p x ≡ false) xs
any_iff p [] = ground arith
any_iff p (x ∷ xs) = elim (Bool-cases (p x)) [
  | inl here ↦ ground (arith, any_iff p xs)
  | inr there ↦ ground (arith, any_iff p xs)
]

answer_true : (b : Bool) → answer b ≡ answer true → b ≡ true
answer_true true e = refl
answer_true false e = cc

-- The three refusals and the last check.
all_pass :
    (a b c : Bool) (v : Verdict)
    → (if a then answer false else if b then answer false else if c then answer false else v)
      ≡ answer true
    → (a ≡ false) × (b ≡ false) × (c ≡ false) × (v ≡ answer true)
all_pass true b c v e = cc
all_pass false true c v e = cc
all_pass false false true v e = cc
all_pass false false false v e = (refl, refl, refl, e)

pub visible_text : (query : String) → is_empty (strip query) ≡ false → is_empty query ≡ false
unfolding strip lstrip rstrip
visible_text query h = elim (Bool-cases (is_empty query)) [
  | inr shown ↦ shown
  | inl nothing ↦ cc (rw (is_empty-eq query nothing) at h)
]

-- No identifier among the keywords, in any case of letters.
abbrev pub IsAllowed : List String → Token → Type 0
IsAllowed keywords t = t.kind ≡ ident → contains (map upper keywords) (upper t.text) ≡ false

not-Writes :
    (ts : List Token)
    → All (λ (t : Token). is_write t.kind ≡ false) ts
    → All (λ (t : Token). ¬ Writes t.kind) ts
not-Writes [] h = tt
not-Writes (t ∷ ts) h =
    ((λ w. absurd (let e = Writes-is_write t.kind w in let f = h.0 in cc)), not-Writes ts h.1)

not-is_write :
    (ts : List Token)
    → All (λ (t : Token). ¬ Writes t.kind) ts
    → All (λ (t : Token). is_write t.kind ≡ false) ts
not-is_write [] h = tt
not-is_write (t ∷ ts) h = (
  elim (Bool-cases (is_write t.kind)) [
    | inl e ↦ absurd (h.0 (is_write-Writes t.kind e))
    | inr e ↦ e
  ],
  not-is_write ts h.1,
)

is_ident-ident : (k : TokenKind) → is_ident k ≡ true → k ≡ ident
is_ident-ident k h = ground (arith, h)

All-IsAllowed :
    (keywords : List String) (ts : List Token)
    → All (λ t. is_keyword_ident keywords t ≡ false) ts
    → All (IsAllowed keywords) ts
All-IsAllowed keywords [] h = tt
All-IsAllowed keywords (t ∷ ts) h = (
  (λ e. subst (λ k. (is_ident k && contains (map upper keywords) (upper t.text)) ≡ false) e h.0),
  All-IsAllowed keywords ts h.1,
)

IsAllowed-All :
    (keywords : List String) (ts : List Token)
    → All (IsAllowed keywords) ts
    → All (λ t. is_keyword_ident keywords t ≡ false) ts
IsAllowed-All keywords [] h = tt
IsAllowed-All keywords (t ∷ ts) h = (
  elim (Bool-cases (is_ident t.kind)) [
    | inr e ↦ rw e refl
    | inl e ↦ rw e (h.0 (is_ident-ident t.kind e))
  ],
  IsAllowed-All keywords ts h.1,
)

module _ (tokenise : String → Option (List Token))
    (substring_keywords ident_keywords : List String) where
  abbrev pub has_keyword : String → String → Bool
  has_keyword query keyword = has_text (upper keyword) (upper query)

  -- The tokens begin with a reading clause, and none is a writing clause or a forbidden identifier; the
  -- text has no forbidden procedure.
  pub record IsReadOnly (query : String) : Type 0 where
    pub visible : is_empty (strip query) ≡ false
    pub first : Token
    pub rest : List Token
    pub tokens : tokenise query ≡ some (first ∷ rest)
    pub reads : BeginsReading first.kind
    pub no_writes : All (λ (t : Token). ¬ Writes t.kind) (first ∷ rest)
    pub no_procedures : All (λ k. has_text (upper k) (upper query) ≡ false) substring_keywords
    pub no_idents : All (IsAllowed ident_keywords) (first ∷ rest)

  sound :
      (query : String) (o : Option (List Token))
      → is_empty (strip query) ≡ false
      → tokenise query ≡ o
      → check_tokens query substring_keywords ident_keywords o ≡ answer true
      → IsReadOnly query
  sound query none visible lexed h = cc
  sound query (some []) visible lexed h =
      let (writes, procedures, idents, e) =
        all_pass false (any (has_keyword query) substring_keywords) false no_tokens h in
      cc
  sound query (some (first ∷ rest)) visible lexed h =
      let (writes, procedures, idents, e) =
        all_pass (any (λ (t : Token). is_write t.kind) (first ∷ rest))
          (any (has_keyword query) substring_keywords)
          (any (is_keyword_ident ident_keywords) (first ∷ rest)) (answer (is_read_start first.kind))
          h in
      record {
        visible = visible;
        first = first;
        rest = rest;
        tokens = lexed;
        reads = is_read_start-BeginsReading first.kind (answer_true (is_read_start first.kind) e);
        no_writes =
            not-Writes (first ∷ rest)
              ((any_iff (λ (t : Token). is_write t.kind) (first ∷ rest)).0 writes);
        no_procedures = (any_iff (has_keyword query) substring_keywords).0 procedures;
        no_idents =
            All-IsAllowed ident_keywords (first ∷ rest)
              ((any_iff (is_keyword_ident ident_keywords) (first ∷ rest)).0 idents);
      }

  -- A query is accepted exactly when it is not blank, the lexer takes it, its first token is MATCH,
  -- OPTIONAL, WITH, UNWIND, RETURN, WHERE, ORDER, SKIP, LIMIT, CALL or UNION, no token is CREATE, MERGE,
  -- SET, DELETE, DETACH, REMOVE, FOREACH or an identifier that is forbidden in any case of letters, and
  -- its text, in capitals, contains no forbidden procedure.
  pub is_read_only_cypher_iff :
      (query : String)
      → (is_read_only_cypher tokenise substring_keywords ident_keywords query ≡ answer true)
        ↔ IsReadOnly query
  unfolding is_read_only_cypher
  is_read_only_cypher_iff query = (accepted query, complete)
    where
      accepted :
          (query : String)
          → (if is_empty query || is_empty (strip query)
              then answer false
              else check_tokens query substring_keywords ident_keywords (tokenise query))
            ≡ answer true
          → IsReadOnly query
      accepted query h = elim (Bool-cases (is_empty (strip query))) [
        | inl blank ↦ elim (Bool-cases (is_empty query)) [
          | inl nothing ↦ cc (rw nothing at h)
          | inr shown ↦ cc (rw (shown, blank) at h)
        ]
        | inr visible ↦
            sound query (tokenise query) visible refl
              (rw (visible_text query visible, visible) at h)
      ]

      complete :
          IsReadOnly query
          → (if is_empty query || is_empty (strip query)
              then answer false
              else check_tokens query substring_keywords ident_keywords (tokenise query))
            ≡ answer true
      complete r =
          rw
            (
              visible_text query r.visible,
              r.visible,
              r.tokens,
              (any_iff (λ (t : Token). is_write t.kind) (r.first ∷ r.rest)).1
                  (not-is_write (r.first ∷ r.rest) r.no_writes),
              (any_iff (has_keyword query) substring_keywords).1 r.no_procedures,
              (any_iff (is_keyword_ident ident_keywords) (r.first ∷ r.rest)).1
                  (IsAllowed-All ident_keywords (r.first ∷ r.rest) r.no_idents),
              BeginsReading-is_read_start r.first.kind r.reads,
            )
            refl
