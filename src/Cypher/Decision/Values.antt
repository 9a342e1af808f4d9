-- ===== src/Cypher/Decision/Values.antt =====
-- Values do not sway the check of src/app/api/graph/v1/cypher_read_only.py.
use work_behavior_analytics.Prelude.{
  Bool, true, false, String, ◌≡◌, refl, sym, ◌∙◌, ap, Option, some, List, [], ◌∷◌, map, any, arith,
  text_key, if◌then◌else◌,
}
use work_behavior_analytics.Prelude.Text.{is_empty, strip}
use work_behavior_analytics.Cypher.ReadOnly.{
  Token, is_write, is_ident, is_keyword_ident, starts_reading, is_read_only_cypher,
}
use work_behavior_analytics.Cypher.Decision.{visible_text, has_keyword}

-- A token without its text, unless it is an identifier.
abbrev pub mask : Token → Token
mask token = if is_ident token.kind then token else record token { text = "" }

mask-kind : (t : Token) → (mask t).kind ≡ t.kind
mask-kind t = ground arith

mask-keyword :
    (keywords : List String) (t : Token)
    → is_keyword_ident keywords (mask t) ≡ is_keyword_ident keywords t
mask-keyword keywords t = by_kind (is_ident t.kind) refl
  where
    by_kind :
        (b : Bool)
        → is_ident t.kind ≡ b
        → is_keyword_ident keywords (if b then t else record t { text = "" })
          ≡ is_keyword_ident keywords t
    by_kind true e = refl
    by_kind false e = rw e refl

any-mask :
    (p : Token → Bool)
    → ((t : Token) → p (mask t) ≡ p t)
    → (ts : List Token) → any p (map mask ts) ≡ any p ts
any-mask p h [] = refl
any-mask p h (t ∷ ts) = rw (h t, any-mask p h ts) refl

starts-mask : (ts : List Token) → starts_reading (map mask ts) ≡ starts_reading ts
starts-mask [] = refl
starts-mask (t ∷ ts) = rw (mask-kind t) refl

same_any :
    (p : Token → Bool) (ts ts' : List Token)
    → ((t : Token) → p (mask t) ≡ p t)
    → map mask ts ≡ map mask ts'
    → any p ts ≡ any p ts'
same_any p ts ts' h e = sym (any-mask p h ts) ∙ ap (any p) e ∙ any-mask p h ts'

module _ (tokenise : String → Option (List Token))
    (substring_keywords ident_keywords : List String) where
  -- Two queries that are not blank and that the lexer takes, with tokens of the same kinds in the same
  -- order and the same identifiers among them, get the same answer, when both or neither have a forbidden
  -- procedure in the raw text.
  pub is_read_only-values :
      (query query' : String) (ts ts' : List Token)
      → is_empty (strip query) ≡ false
      → is_empty (strip query') ≡ false
      → tokenise query ≡ some ts
      → tokenise query' ≡ some ts'
      → map mask ts ≡ map mask ts'
      → any (has_keyword tokenise substring_keywords ident_keywords query) substring_keywords
        ≡ any (has_keyword tokenise substring_keywords ident_keywords query') substring_keywords
      → is_read_only_cypher tokenise substring_keywords ident_keywords query
        ≡ is_read_only_cypher tokenise substring_keywords ident_keywords query'
  unfolding is_read_only_cypher
  is_read_only-values query query' ts ts' shown shown' lexed lexed' same procedures =
      rw
        (
          visible_text query shown,
          visible_text query' shown',
          shown,
          shown',
          lexed,
          lexed',
          same_any (λ (t : Token). is_write t.kind) ts ts' (λ t. ap is_write (mask-kind t)) same,
          procedures,
          same_any (is_keyword_ident ident_keywords) ts ts' (mask-keyword ident_keywords) same,
          sym (starts-mask ts) ∙ ap starts_reading same ∙ starts-mask ts',
        )
        refl
