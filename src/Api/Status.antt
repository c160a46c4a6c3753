-- ===== src/Api/Status.antt =====
-- The errors of google.golang.org/grpc/status that the handlers of internal/api return.
use jack_service.Common.{String, Result}

pub data Code : Type 0 where
  invalid_argument not_found already_exists unavailable internal : Code

-- status.Error
pub record Status : Type 0 where
  pub code : Code
  pub message : String

abbrev pub Reply : Type 0 → Type 0
Reply A = Result Status A
