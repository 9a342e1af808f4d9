-- ===== src/Settings/Masked.antt =====
-- What the listing of src/app/api/settings/v1/service.py shows of sensitive settings.
use work_behavior_analytics.Prelude.{
  true, false, not, some, List, [], ◌∷◌, ◌≡◌, refl, sym, ◌∙◌, ◌⊎◌, inl, inr,
}
use work_behavior_analytics.Prelude.Json.{Json, str}
use work_behavior_analytics.Settings.Config.{Env}
use work_behavior_analytics.Settings.Table.{Setting}
use work_behavior_analytics.Settings.Source.{from_db, resolve_source, is_null, is_unconfigured}
use work_behavior_analytics.Settings.Service.{shown, get_all_settings}

-- Rows that differ at most in a sensitive value which is set in both.
pub record IsVariant (r q : Setting) : Type 0 where
  pub other : Json
  pub sensitive : r.is_sensitive ≡ true
  pub rest : q ≡ record r { value = other }
  pub set : is_null r.value ≡ false
  pub other_set : is_null other ≡ false
  pub configured : is_unconfigured r.value ≡ is_unconfigured other

abbrev pub IsLike : Setting → Setting → Type 0
IsLike r q = (r ≡ q) ⊎ IsVariant r q

abbrev pub AllLike : List Setting → List Setting → Type 0
AllLike [] [] = Unit
AllLike [] (q ∷ qs) = ⊥
AllLike (r ∷ rs) [] = ⊥
AllLike (r ∷ rs) (q ∷ qs) = IsLike r q × AllLike rs qs

set-shown :
    (env : Env) (r : Setting) (v : Json)
    → r.is_sensitive ≡ true
    → is_null v ≡ false
    → shown (record r { value = v }) false (resolve_source env v r.key)
      ≡ some (record {
        row = record r { value = str "*******" };
        effective_value = str "*******";
        source = from_db;
        is_configured = not (is_unconfigured v);
        propagation_warning = false;
      })
unfolding resolve_source
set-shown env r v s n = rw (n, s, n) refl

like-shown :
    (env : Env) (r q : Setting)
    → IsLike r q
    → shown r false (resolve_source env r.value r.key)
      ≡ shown q false (resolve_source env q.value q.key)
like-shown env r q (inl e) = rw e refl
like-shown env r q (inr h) =
    set-shown env r r.value h.sensitive h.set
    ∙ rw (h.configured, h.rest) (sym (set-shown env r h.other h.sensitive h.other_set))

-- The listing of the settings does not tell two values of a sensitive setting apart: tables that
-- differ only in sensitive values which are set, and which are both placeholders or both not, give
-- the same listing.
pub get_all_settings-masks :
    (env : Env) (rows others : List Setting)
    → AllLike rows others
    → get_all_settings env rows ≡ get_all_settings env others
unfolding get_all_settings
get_all_settings-masks env [] [] h = refl
get_all_settings-masks env [] (q ∷ qs) h = absurd h
get_all_settings-masks env (r ∷ rs) [] h = absurd h
get_all_settings-masks env (r ∷ rs) (q ∷ qs) h =
    rw (like-shown env r q h.0, get_all_settings-masks env rs qs h.1) refl
