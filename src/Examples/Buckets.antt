-- ===== src/Examples/Buckets.antt =====
-- A bucket that remembers what was written, and the theorem on a restart applied to it.
use native.Mathlib.Decide.{ℕ_discrete}
use jack_service.Common.{
  ℕ, String, ◌≡◌, refl, List, [], ◌∷◌, none, some, Result, ok, err, if◌then◌else◌,
}
use jack_service.Common.Map.{lookup, delete}
use jack_service.Common.Text.{◌==◌, String-discrete}
use jack_service.Go.{Error, text}
use jack_service.Proto.{Producer, JobType, Timestamp}
use jack_service.Common.Int.{pos}
use jack_service.World.{
  World, Event, clock_read, bytes_drawn, metric_sent, message_published, topic_checked,
  task_created, topic_stopped, connection_closed, serving_status_set, http_shut_down, grpc_stopped,
  object_written,
}
use jack_service.Storage.{stamp_producer, stamp_job_type}
use jack_service.Storage.Operations.{
  Operation, create_producer_call, create_job_type_call, get_job_type_call, elsewhere, perform_all,
}
use jack_service.Storage.Gcs
use jack_service.Storage.Gcs.{new_gcs_store, get_job_type}
use jack_service.Storage.Bucket.{Bucket, Fetched, not_exist, fetched, written}
use jack_service.Examples.{env, services, crm, mails, nothing_yet}

Producers-discrete : Discrete (List Producer)
Producers-discrete = hlevel (String-discrete, ℕ_discrete)

JobTypes-discrete : Discrete (List JobType)
JobTypes-discrete = hlevel (String-discrete, ℕ_discrete)

-- What was last written to the object.
latest : List Event → String → Fetched
latest [] path = not_exist
latest (object_written p bytes none ∷ history) path =
    let rest = latest history path in if p == path then fetched bytes else rest
latest (object_written p bytes (some e) ∷ history) path = latest history path
latest (clock_read t ∷ history) path = latest history path
latest (bytes_drawn bytes ∷ history) path = latest history path
latest (metric_sent m ∷ history) path = latest history path
latest (message_published t m o ∷ history) path = latest history path
latest (topic_checked t o ∷ history) path = latest history path
latest (task_created t o ∷ history) path = latest history path
latest (topic_stopped t ∷ history) path = latest history path
latest (connection_closed c o ∷ history) path = latest history path
latest (serving_status_set b ∷ history) path = latest history path
latest (http_shut_down o ∷ history) path = latest history path
latest (grpc_stopped ∷ history) path = latest history path

-- A code that knows the values of a table, each by its place.
module _ {A : Type 0} where
  decode_in : List A → List ℕ → Result Error A
  decode_in [] bytes = err (text "not in the table")
  decode_in (x ∷ xs) [] = ok x
  decode_in (x ∷ xs) (b ∷ bytes) = decode_in xs bytes

  place_of : {x a : A} → Dec (x ≡ a) → Result Error (List ℕ) → Result Error (List ℕ)
  place_of (yes same) later = ok []
  place_of (no differ) (ok bytes) = ok (0 ∷ bytes)
  place_of (no differ) (err e) = err e

  module _ (dec : Discrete A) where
    code_in : List A → A → Result Error (List ℕ)
    unfolding place_of
    code_in [] a = err (text "not in the table")
    code_in (x ∷ xs) a = place_of (dec x a) (code_in xs a)

abbrev stamp : Timestamp
stamp = record { seconds = pos 0; nanos = pos 0 }

abbrev all_producers : List (List Producer)
all_producers = [] ∷ (stamp_producer stamp crm ∷ []) ∷ []

abbrev all_job_types : List (List JobType)
all_job_types = [] ∷ (stamp_job_type stamp mails ∷ []) ∷ []

abbrev remembering : Bucket
remembering = record {
  write = λ history path bytes. written;
  read = latest;
  close = λ history. none;
  marshal_producers = code_in Producers-discrete all_producers;
  marshal_job_types = code_in JobTypes-discrete all_job_types;
  unmarshal_producers = decode_in all_producers;
  unmarshal_job_types = decode_in all_job_types;
}

-- The producer is created, once more in vain, and then the job type.
abbrev calls : List Operation
calls =
    create_producer_call crm
    ∷ create_producer_call crm
    ∷ create_job_type_call mails
    ∷ get_job_type_call "prod_1" "mail"
    ∷ elsewhere (clock_read (pos 3))
    ∷ []

abbrev before : World
before =
    perform_all (Gcs.gcs_store env services remembering "jack") calls
      (new_gcs_store env services remembering "jack" none nothing_yet).1

-- The job type is there before the restart, and so after it.
created_before :
    (get_job_type env services remembering "jack" "prod_1" "mail" before).0
    ≡ ok (stamp_job_type stamp mails)
unfolding new_gcs_store latest perform_all get_job_type code_in Gcs.create_producer
    Gcs.create_job_type lookup delete Producers-discrete JobTypes-discrete String-discrete
    ℕ_discrete
created_before = refl
