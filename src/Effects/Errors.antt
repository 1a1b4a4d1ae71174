-- ===== src/Effects/Errors.antt =====
-- Go's `error` values, and results that may be one.
use k8sgrowthbook_controller.Prelude.{Bool, false, GoString, str, ◌++◌}

-- `errors.New(text)`, `fmt.Errorf("prefix: %w", err)`, and an error that a library returned, which
-- `apierrors.IsNotFound` holds of or not.
pub data Error : Type 0 where
  errors_new : GoString → Error
  wrapped : GoString → Error → Error
  foreign : Bool → GoString → Error

-- `err.Error()`
unfoldable pub error_text : Error → GoString
error_text (errors_new text) = text
error_text (wrapped prefix e) = prefix ++ (str ": " ++ error_text e)
error_text (foreign _ text) = text

-- `apierrors.IsNotFound(err)`, which looks through wrapping.
unfoldable pub is_not_found : Error → Bool
is_not_found (errors_new _) = false
is_not_found (wrapped _ e) = is_not_found e
is_not_found (foreign not_found _) = not_found

pub data Result (E A : Type 0) : Type 0 where
  ok : A → Result E A
  err : E → Result E A
