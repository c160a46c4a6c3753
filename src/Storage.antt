-- ===== src/Storage.antt =====
-- internal/storage/storage.go: the interface of the stores, and the key of a job type.
-- A store's two maps are those of the world. An operation that the code gives a pointer returns the message
-- as it leaves it, since the caller goes on to use it. Messages are copied on the way in and out
-- (`proto.Clone`), so a value stands for each. The locks make each operation one step.
pub mod Keys
pub mod Memory
pub mod Bucket
pub mod Gcs
pub mod Laws
pub mod Operations
pub mod Contract
pub mod Reading
use jack_service.Common.{
  String, List, [], ◌∷◌, Option, none, some, Result, ok, err, Bool, if◌then◌else◌,
}
use jack_service.Common.Map.{Map}
use jack_service.Common.Text.{◌+++◌, ◌==◌}
use jack_service.Go.{Instant, Error, sentinel, wrapped, not_found, already_exists}
use jack_service.Proto.{Timestamp, Producer, JobType}
use jack_service.World.{M}

unfoldable pub job_type_key : String → String → String
job_type_key producer_id job_type_name = producer_id +++ (":" +++ job_type_name)

pub record Store : Type 0 where
  pub create_producer : Producer → M (Option Error × Producer)
  pub get_producer : String → M (Result Error Producer)
  pub list_producers : M (Result Error (List Producer))
  pub create_job_type : JobType → M (Option Error × JobType)
  pub get_job_type : String → String → M (Result Error JobType)
  pub list_job_types : String → M (Result Error (List JobType))
  pub close : M (Option Error)

-- What the stores use of others: timestamppb.New, and the order in which `range` visits a map.
pub record Services : Type 0 where
  pub timestamp_of : Instant → Timestamp
  pub range_producers : Map Producer → List Producer
  pub range_job_types : Map JobType → List JobType

abbrev pub stamp_producer : Timestamp → Producer → Producer
stamp_producer t p = record p { created_at = some t; updated_at = some t }

abbrev pub stamp_job_type : Timestamp → JobType → JobType
stamp_job_type t jt = record jt { created_at = some t; updated_at = some t }

-- The errors, which both stores spell alike.
abbrev pub producer_exists : String → Error
producer_exists id = wrapped "" (sentinel already_exists) (": producer with ID " +++ id)

abbrev pub producer_missing : String → Error
producer_missing id = wrapped "" (sentinel not_found) (": producer " +++ id)

abbrev pub job_type_exists : String → String → Error
job_type_exists producer_id name =
    wrapped "" (sentinel already_exists)
      (": job type " +++ (name +++ (" for producer " +++ producer_id)))

abbrev pub job_type_missing : String → String → Error
job_type_missing producer_id name =
    wrapped "" (sentinel not_found)
      (": job type " +++ (name +++ (" for producer " +++ producer_id)))

-- The loop of ListJobTypes over the values in the order of `range`.
unfoldable pub of_producer : String → List JobType → List JobType
of_producer producer_id [] = []
of_producer producer_id (jt ∷ jts) =
    let rest = of_producer producer_id jts in
    if jt.producer_id == producer_id then jt ∷ rest else rest
