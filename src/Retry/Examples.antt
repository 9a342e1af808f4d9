-- ===== src/Retry/Examples.antt =====
-- Runs of retried calls, and the theorem about them at these inputs.
use work_behavior_analytics.Prelude.{ℕ, zero, suc, false, String, ◌≡◌, refl, none, some, arith}
use work_behavior_analytics.Prelude.Text.{has_text}
use work_behavior_analytics.Retry.Policy.{
  Failure, is_rate_limit, is_network_error, is_retryable, Result, value, failure, reraised,
  timed_out, Calls, Overrides, loop, retry_until, retry_with_backoff,
}
use work_behavior_analytics.Retry.Deadline.{IsOver, retry_with_backoff-IsOver}

abbrev rate_limited : Failure
rate_limited = record {
  status_code = some 403;
  lower_message = "403: api rate limit exceeded";
  is_network_class = false;
  errno = none;
}

abbrev missing : Failure
missing = record rate_limited { status_code = some 404; lower_message = "not found" }

abbrev refused : Failure
refused = record missing { status_code = none; errno = some "ECONNREFUSED" }

abbrev third_time : ℕ → Result String
third_time zero = failure rate_limited
third_time (suc zero) = failure refused
third_time (suc (suc n)) = value "pulls"

abbrev flaky : Calls String
flaky = record { result = third_time; duration = λ n. 2; oversleep = λ n. 0 }

abbrev down : Calls String
down = record flaky { result = λ n. failure refused }

abbrev gone : Calls String
gone = record flaky { result = λ n. failure missing }

abbrev no_arguments : Overrides
no_arguments = record { retry_budget = none; backoff_cap = none; base_delay = none }

abbrev short : Overrides
short = record no_arguments { retry_budget = some 20; backoff_cap = some 5 }

program : Unit {0}
unfolding has_text is_rate_limit is_network_error is_retryable loop retry_until retry_with_backoff
program = tt
  where
    third :
        retry_with_backoff flaky short none none 100
        ≡ record { ending = value "pulls"; attempts = 3; now = 109 }
    third = refl

    exhausted :
        retry_with_backoff down short none none 100
        ≡ record { ending = timed_out 20 refused; attempts = 5; now = 122 }
    exhausted = refl

    fatal : (retry_with_backoff gone short none none 100).ending ≡ reraised missing
    fatal = refl

retry_with_backoff-IsOver_example :
    IsOver down 20 120 0 (retry_with_backoff down short none none 100)
retry_with_backoff-IsOver_example =
    retry_with_backoff-IsOver down short none none 100 (omega arith) (omega arith)
