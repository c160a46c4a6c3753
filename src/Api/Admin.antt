-- ===== src/Api/Admin.antt =====
-- internal/api/admin_server.go: the server of AdminService over a store.
pub mod Ids
pub mod Producers
pub mod JobTypes
pub mod Invariant
use jack_service.Common.{
  ℕ, ◌/◌, ◌%◌, String, List, [], ◌∷◌, Option, none, some, Result, ok, err, if◌then◌else◌, get_or,
}
use jack_service.Common.Int.{ℤ, pos, leb_ℤ}
use jack_service.Common.Text.{Char, chars, of_chars, ◌==◌, ◌+++◌}
use jack_service.Go.{Error, Sentinel, error_is, error_text}
use jack_service.Proto.{Producer, JobType, CreateProducerRequest, CreateJobTypeRequest}
use jack_service.World.{M, ◌>>=◌, pure, Env, draw}
use jack_service.Storage.{Store}
use jack_service.Api.Status.{Status, Code, Reply, invalid_argument, internal}
use jack_service.Api.Server.Enqueue.{refuse}

abbrev pub hex_alphabet : String
hex_alphabet = "0123456789abcdef"

unfoldable pub hex_char : ℕ → Char
hex_char d = get_or (chars hex_alphabet) d "0"

-- hex.EncodeToString
unfoldable pub hex_encode : List ℕ → List Char
unfolding hex_char
hex_encode [] = []
hex_encode (b ∷ bs) = hex_char (b / 16) ∷ hex_char (b % 16) ∷ hex_encode bs

unfoldable pub generate_producer_id : Env → M String
unfolding draw hex_encode
generate_producer_id env = do b ← draw env 4; pure ("prod_" +++ of_chars (hex_encode b))

-- The replies from the outcomes of the store.
unfoldable pub created_producer_reply : Option Error × Producer → Reply Producer
created_producer_reply (none, p) = ok p
created_producer_reply (some e, p) =
    if error_is e Sentinel.already_exists
    then err (record { code = Code.already_exists; message = error_text e })
    else err (record { code = internal; message = "failed to create producer" })

unfoldable pub found_producer_reply : String → Result Error Producer → Reply Producer
found_producer_reply id (ok p) = ok p
found_producer_reply id (err e) =
    if error_is e Sentinel.not_found
    then err (record { code = Code.not_found; message = "producer not found: " +++ id })
    else err (record { code = internal; message = "failed to get producer" })

unfoldable pub created_job_type_reply : String → Option Error × JobType → Reply JobType
created_job_type_reply producer_id (none, jt) = ok jt
created_job_type_reply producer_id (some e, jt) =
    if error_is e Sentinel.already_exists
    then err (record { code = Code.already_exists; message = error_text e })
    else if error_is e Sentinel.not_found
    then err (record { code = Code.not_found; message = "producer not found: " +++ producer_id })
    else err (record { code = internal; message = "failed to create job type" })

unfoldable pub listed_reply : {A : Type 0} → String → Result Error (List A) → Reply (List A)
listed_reply message (ok found) = ok found
listed_reply message (err e) = err (record { code = internal; message = message })

abbrev pub producer_of : CreateProducerRequest → String → Producer
producer_of req id = record {
  producer_id = id;
  name = req.name;
  description = req.description;
  rate_limit_rps = pos 1000;
  created_at = none;
  updated_at = none;
}

abbrev pub retries_of : ℤ → ℤ
retries_of max_retries = if leb_ℤ max_retries (pos 0) then pos 3 else max_retries

abbrev pub job_type_of : CreateJobTypeRequest → JobType
job_type_of req = record {
  producer_id = req.producer_id;
  name = req.name;
  queue = req.queue;
  max_retries = retries_of req.max_retries;
  description = req.description;
  created_at = none;
  updated_at = none;
}

module _ (env : Env) (store : Store) where
  unfoldable pub create_producer : CreateProducerRequest → M (Reply Producer)
  unfolding generate_producer_id created_producer_reply
  create_producer req = if req.name == "" then refuse invalid_argument "name is required" else (do
    id ← generate_producer_id env
    outcome ← store.create_producer (producer_of req id)
    pure (created_producer_reply outcome))

  unfoldable pub get_producer : String → M (Reply Producer)
  unfolding found_producer_reply
  get_producer id =
      if id == ""
      then refuse invalid_argument "producer_id is required"
      else (do found ← store.get_producer id; pure (found_producer_reply id found))

  unfoldable pub list_producers : M (Reply (List Producer))
  unfolding listed_reply
  list_producers = do
    found ← store.list_producers
    pure (listed_reply "failed to list producers" found)

  unfoldable pub create_job_type : CreateJobTypeRequest → M (Reply JobType)
  unfolding created_job_type_reply
  create_job_type req =
      if req.producer_id == ""
      then refuse invalid_argument "producer_id is required"
      else if req.name == ""
      then refuse invalid_argument "name is required"
      else (do
        outcome ← store.create_job_type (job_type_of req)
        pure (created_job_type_reply req.producer_id outcome))

  unfoldable pub list_job_types : String → M (Reply (List JobType))
  unfolding listed_reply
  list_job_types producer_id =
      if producer_id == "" then refuse invalid_argument "producer_id is required" else (do
        found ← store.list_job_types producer_id
        pure (listed_reply "failed to list job types" found))
