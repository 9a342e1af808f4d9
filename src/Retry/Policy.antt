-- ===== src/Retry/Policy.antt =====
-- src/connectors/producers/github/retry_with_backoff.py. Times and delays are numbers of one unit, which
-- may be as small as the clock's resolution.
use work_behavior_analytics.Prelude.{
  ℕ, zero, suc, ◌+◌, ◌-◌, ◌*◌, min, leb, Bool, false, ◌||◌, String, Option, none, some, List, [],
  ◌∷◌, ◌==◌, ℕ_key, text_key, if◌then◌else◌, contains,
}
use work_behavior_analytics.Prelude.Text.{has_text}

-- What the checks read of an exception: `response.status_code`, its message in lower case, whether it
-- is one of the network classes, and the errno of an OSError.
pub record Failure : Type 0 where
  pub status_code : Option ℕ
  pub lower_message : String
  pub is_network_class : Bool
  pub errno : Option String

abbrev pub is_status : Option ℕ → ℕ → Bool
is_status none n = false
is_status (some status) n = status == n

unfoldable pub is_rate_limit : Failure → Bool
is_rate_limit exc =
    is_status exc.status_code 429
    || (has_text "rate limit" exc.lower_message
        || has_text "api rate limit exceeded" exc.lower_message)

abbrev pub network_errnos : List String
network_errnos = "ECONNRESET" ∷ "ECONNREFUSED" ∷ "EHOSTUNREACH" ∷ "ENETUNREACH" ∷ "ETIMEDOUT" ∷ []

abbrev pub is_network_errno : Option String → Bool
is_network_errno none = false
is_network_errno (some e) = contains network_errnos e

unfoldable pub is_network_error : Failure → Bool
is_network_error exc = exc.is_network_class || is_network_errno exc.errno

unfoldable pub is_retryable : Failure → Bool
unfolding is_rate_limit is_network_error
is_retryable exc = is_rate_limit exc || is_network_error exc

-- One call of `func`.
pub data Result (T : Type 0) : Type 0 where
  value : T → Result T
  failure : Failure → Result T

-- How `retry_with_backoff` ends, and `running` where the fuel did not suffice.
pub data Ending (T : Type 0) : Type 0 where
  value : T → Ending T
  reraised : Failure → Ending T
  timed_out : ℕ → Failure → Ending T
  running : Ending T

-- The n-th call: its result, how long it takes, and how much longer than asked the sleep after it takes.
pub record Calls (T : Type 0) : Type 1 where
  pub result : ℕ → Result T
  pub duration : ℕ → ℕ
  pub oversleep : ℕ → ℕ

pub record Settings : Type 0 where
  pub retry_budget : ℕ
  pub backoff_cap : ℕ
  pub base_delay : ℕ

-- The module's cache of the settings, resolved once in a process: from the runtime cache, or the
-- defaults where that raises.
abbrev pub default_settings : Settings
default_settings = record { retry_budget = 3600; backoff_cap = 30; base_delay = 1 }

abbrev pub ensure_retry_settings : Option Settings → Option Settings → Settings
ensure_retry_settings (some settings) runtime_cache = settings
ensure_retry_settings none (some settings) = settings
ensure_retry_settings none none = default_settings

-- The arguments of a call, each `None` by default.
pub record Overrides : Type 0 where
  pub retry_budget : Option ℕ
  pub backoff_cap : Option ℕ
  pub base_delay : Option ℕ

abbrev pub given_or : Option ℕ → ℕ → ℕ
given_or none default = default
given_or (some n) default = n

abbrev pub effective : Settings → Overrides → Settings
effective settings args = record {
  retry_budget = given_or args.retry_budget settings.retry_budget;
  backoff_cap = given_or args.backoff_cap settings.backoff_cap;
  base_delay = given_or args.base_delay settings.base_delay;
}

-- The ending, the number of calls made and the time in the end.
pub record Run (T : Type 0) : Type 0 where
  pub ending : Ending T
  pub attempts : ℕ
  pub now : ℕ

module _ {T : Type 0} (calls : Calls T) (budget cap deadline : ℕ) where
  -- The sleep after a call that came back at `now`.
  abbrev pub sleep_for : ℕ → ℕ → ℕ
  sleep_for delay now = min (min delay cap) (deadline - now)

  abbrev pub next_delay : ℕ → ℕ
  next_delay delay = min (delay * 2) cap

  -- What the n-th call, back at `now`, leads to; `rest` is the run that a retry continues with.
  abbrev pub after_failure : ℕ → ℕ → Failure → Run T → Run T
  after_failure n now e rest =
      if is_retryable e
      then (if leb deadline now
          then record { ending = timed_out budget e; attempts = n + 1; now = now }
          else rest)
      else record { ending = reraised e; attempts = n + 1; now = now }

  abbrev pub after_call : ℕ → ℕ → Result T → Run T → Run T
  after_call n now (value v) rest = record { ending = value v; attempts = n + 1; now = now }
  after_call n now (failure e) rest = after_failure n now e rest

  -- The `while True` loop; `started` is the time when the n-th call starts.
  unfoldable pub loop : ℕ → ℕ → ℕ → ℕ → Run T
  loop zero n delay started = record { ending = running; attempts = n; now = started }
  loop (suc fuel) n delay started =
      let now = started + calls.duration n in
      after_call n now (calls.result n)
        (loop fuel (n + 1) (next_delay delay) (now + sleep_for delay now + calls.oversleep n))

-- `started` is the clock at the call. The fuel is one more than the budget in units.
unfoldable pub retry_until : {T : Type 0} → Calls T → Settings → ℕ → Run T
unfolding loop
retry_until calls settings started =
    loop calls settings.retry_budget settings.backoff_cap (started + settings.retry_budget)
      (settings.retry_budget + 1) 0 settings.base_delay started

-- `cached` are the settings that the process resolved before.
unfoldable pub retry_with_backoff :
    {T : Type 0} → Calls T → Overrides → Option Settings → Option Settings → ℕ → Run T
unfolding retry_until
retry_with_backoff calls args cached runtime_cache started =
    retry_until calls (effective (ensure_retry_settings cached runtime_cache) args) started
