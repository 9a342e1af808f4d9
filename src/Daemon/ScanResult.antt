-- ===== src/Daemon/ScanResult.antt =====
-- `ScanResult` of src/connectors/producers/daemon_common.py: the outcome of a scan over all its items.
use work_behavior_analytics.Prelude.{
  ℕ, ◌+◌, ◌≡◌, ◌↔◌, arith, Bool, true, false, String, List, [], ◌∷◌, ◌++◌ as ◌⧺◌, length,
  length-append, if◌then◌else◌, nat_beq,
}
use work_behavior_analytics.Prelude.Text.{◌++◌, show_nat}
use work_behavior_analytics.Prelude.Json.{num, str, arr, obj, Items, nil, cons, Fields, end, field}

pub record ItemError : Type 0 where
  pub item : String
  pub error : String

pub record ScanResult : Type 0 where
  pub success : Bool
  pub items_processed : ℕ
  pub items_succeeded : ℕ
  pub items_failed : ℕ
  pub errors : List ItemError

abbrev pub new_scan_result : ScanResult
new_scan_result = record {
  success = true;
  items_processed = 0;
  items_succeeded = 0;
  items_failed = 0;
  errors = [];
}

unfoldable pub add_error : ScanResult → String → String → ScanResult
add_error r item error = record r {
  items_failed = r.items_failed + 1;
  success = false;
  errors = r.errors ⧺ record { item = item; error = error } ∷ [];
}

abbrev pub error_items : List ItemError → Items
error_items [] = nil
error_items (e ∷ es) =
    cons (obj (field "item" (str e.item) (field "error" (str e.error) end))) (error_items es)

abbrev pub errors_field : List ItemError → Fields
errors_field [] = end
errors_field (e ∷ es) = field "errors" (arr (error_items (e ∷ es))) end

unfoldable pub summary : ScanResult → Fields
summary r = field "items_processed" (num r.items_processed) (
    field "items_succeeded" (num r.items_succeeded)
      (field "items_failed" (num r.items_failed) (errors_field r.errors)))

abbrev pub first_error : ℕ → List ItemError → String
first_error failed [] = ""
first_error failed (e ∷ es) = ". 1/" ++ (show_nat failed ++ (": " ++ e.error))

unfoldable pub error_message : ScanResult → String
error_message r =
    if nat_beq r.items_failed 0
    then ""
    else (show_nat r.items_failed
        ++ (" of "
            ++ (show_nat r.items_processed
                ++ (" configs failed" ++ first_error r.items_failed r.errors))))

-- The errors of a scan, added in turn.
unfoldable pub add_errors : ScanResult → List ItemError → ScanResult
unfolding add_error
add_errors r [] = r
add_errors r (e ∷ es) = add_errors (add_error r e.item e.error) es

-- The flag, the counter and the list tell the same: a scan is a success exactly when none of its
-- items failed, and the counter is the number of recorded errors.
pub record IsConsistent (r : ScanResult) : Type 0 where
  pub counted : r.items_failed ≡ length r.errors
  pub flagged : (r.success ≡ true) ↔ (r.items_failed ≡ 0)

add_error-IsConsistent :
    (r : ScanResult) (item error : String) → IsConsistent r → IsConsistent (add_error r item error)
unfolding add_error
add_error-IsConsistent r item error c = record {
  counted =
      omega (arith, length-append r.errors (record { item = item; error = error } ∷ []), c.counted);
  flagged = (λ h. cc, λ h. absurd (omega arith));
}

-- Every result that a scan builds by `add_error` from a consistent one is consistent.
pub add_errors-IsConsistent :
    (r : ScanResult) (es : List ItemError) → IsConsistent r → IsConsistent (add_errors r es)
unfolding add_errors
add_errors-IsConsistent r [] c = c
add_errors-IsConsistent r (e ∷ es) c =
    add_errors-IsConsistent (add_error r e.item e.error) es
      (add_error-IsConsistent r e.item e.error c)
