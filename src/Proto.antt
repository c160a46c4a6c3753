-- ===== src/Proto.antt =====
-- The messages of proto/storage.proto, proto/jack.proto and proto/admin.proto, as the generated structs
-- in proto/jackpb hold them. A pointer to a message is an option where the code tests it for nil.
use jack_service.Common.{ℕ, String, List, Option}
use jack_service.Common.Int.{ℤ, pos}

-- timestamppb.Timestamp
pub record Timestamp : Type 0 where
  pub seconds : ℤ
  pub nanos : ℤ

-- An int32 with named values; a client may send any other.
abbrev pub Queue : Type 0
Queue = ℤ

abbrev pub queue_unspecified : Queue
queue_unspecified = pos 0

abbrev pub queue_immediate : Queue
queue_immediate = pos 1

abbrev pub queue_high : Queue
queue_high = pos 2

abbrev pub queue_medium : Queue
queue_medium = pos 3

abbrev pub queue_low : Queue
queue_low = pos 4

pub record Producer : Type 0 where
  pub producer_id : String
  pub name : String
  pub description : String
  pub rate_limit_rps : ℤ
  pub created_at : Option Timestamp
  pub updated_at : Option Timestamp

pub record JobType : Type 0 where
  pub producer_id : String
  pub name : String
  pub queue : Queue
  pub max_retries : ℤ
  pub description : String
  pub created_at : Option Timestamp
  pub updated_at : Option Timestamp

pub record EnqueueRequest : Type 0 where
  pub producer_id : String
  pub job_type : String
  pub payload : List ℕ
  pub run_at : Option Timestamp
  pub trace_id : String
  pub correlation_id : String

pub record EnqueueResponse : Type 0 where
  pub job_id : String
  pub error_messages : List String
  pub correlation_id : String

pub record BulkResult : Type 0 where
  pub index : ℤ
  pub job_id : String
  pub error : String
  pub error_messages : List String
  pub correlation_id : String
  pub reason : String

-- The request and the response of EnqueueBulk have one field each, a list; so have the responses of
-- AdminService.
pub record CreateProducerRequest : Type 0 where
  pub name : String
  pub description : String

pub record CreateJobTypeRequest : Type 0 where
  pub producer_id : String
  pub name : String
  pub queue : Queue
  pub max_retries : ℤ
  pub description : String
