-- ===== src/Sink/Ids.antt =====
-- The node ids of src/common/activity_signal/wba_node_id.py tell an identity mapping from a person.
use Prim.Native.Char.{code}
use Prim.Native.String.{[], ◌∷◌}
use Prim.Native.String.append
use work_behavior_analytics.Prelude.{ℕ, String, ◌≡◌, ◌≢◌, refl, sym, ap, ◌∙◌, arith}
use work_behavior_analytics.Prelude.Text.{◌++◌, slice_from}
use work_behavior_analytics.Persons.Graph.{wba_format}

skip_jira : (x : String) → slice_from 6 ("jira" ++ ("::" ++ x)) ≡ x
unfolding slice_from
skip_jira x =
    rw
      (
        append.cons, append.cons, append.cons, append.cons, append.nil, append.cons, append.cons,
        append.nil,
      )
      refl

skip_confluence : (x : String) → slice_from 12 ("confluence" ++ ("::" ++ x)) ≡ x
unfolding slice_from
skip_confluence x =
    rw
      (
        append.cons, append.cons, append.cons, append.cons, append.cons, append.cons, append.cons,
        append.cons, append.cons, append.cons, append.nil, append.cons, append.cons, append.nil,
      )
      refl

abbrev first_code : String → ℕ
first_code [] = 0
first_code (c ∷ s) = code c

starts_i : (x : String) → first_code ("IdentityMapping" ++ x) ≡ 73
starts_i x = rw append.cons refl

starts_p : (x : String) → first_code ("Person" ++ x) ≡ 80
starts_p x = rw append.cons refl

starts_j : (x : String) → first_code ("jira" ++ x) ≡ 106
starts_j x = rw append.cons refl

starts_c : (x : String) → first_code ("confluence" ++ x) ≡ 99
starts_c x = rw append.cons refl

differ : (s t : String) (m n : ℕ) → first_code s ≡ m → first_code t ≡ n → m ≢ n → s ≢ t
differ s t m n e f d h = d (sym e ∙ ap first_code h ∙ f)

-- An id of an identity mapping is never one of a person.
pub jira_jira :
    (a b : String) → wba_format "jira" "IdentityMapping" a ≢ wba_format "jira" "Person" b
unfolding wba_format
jira_jira a b h =
    differ _ _ 73 80 (starts_i ("::" ++ a)) (starts_p ("::" ++ b)) (λ e. absurd (omega arith))
      (sym (skip_jira _) ∙ ap (slice_from 6) h ∙ skip_jira _)

pub confluence_confluence :
    (a b : String)
    → wba_format "confluence" "IdentityMapping" a ≢ wba_format "confluence" "Person" b
unfolding wba_format
confluence_confluence a b h =
    differ _ _ 73 80 (starts_i ("::" ++ a)) (starts_p ("::" ++ b)) (λ e. absurd (omega arith))
      (sym (skip_confluence _) ∙ ap (slice_from 12) h ∙ skip_confluence _)

pub jira_confluence : (k k' a b : String) → wba_format "jira" k a ≢ wba_format "confluence" k' b
unfolding wba_format
jira_confluence k k' a b =
    differ _ _ 106 99 (starts_j ("::" ++ (k ++ ("::" ++ a))))
      (starts_c ("::" ++ (k' ++ ("::" ++ b)))) (λ e. absurd (omega arith))
