-- ===== src/Api/Http.antt =====
-- What the handlers of HTTP requests see of net/http.
use jack_service.Common.{ℕ, String, List, Result}
use jack_service.Go.{Error}

-- http.Request; `content_type` is the header of that name, and `body` what io.ReadAll gives of the body.
pub record HttpRequest : Type 0 where
  pub proto_major : ℕ
  pub method : String
  pub path : String
  pub content_type : String
  pub body : Result Error (List ℕ)

-- Who answers a request: the gRPC server, a handler with a status, or the multiplexer itself, because no
-- pattern matches (404, 405, or a redirect to a clean path).
pub data Served : Type 0 where
  grpc : Served
  answered : ℕ → Served
  no_handler : Served
