-- ===== src/Queue.antt =====
-- internal/queue/queue.go: priorities, jobs, and the interface of the queue backends.
pub mod Noop
pub mod Adapter
pub mod PubSub
pub mod Contract
pub mod Apart
use jack_service.Common.{
  ℕ, ◌*◌, String, Bool, ◌&&◌, List, Option, none, some, length, if◌then◌else◌,
}
use jack_service.Common.Int.{ℤ, pos, ltb_ℤ, eqb_ℤ}
use jack_service.Common.Text.{◌==◌}
use jack_service.Go.{Instant, Duration, Error, text, sentinel, job_too_large}
use jack_service.World.{M}

-- An int: `UnmarshalJob` converts whatever number it reads.
abbrev pub Priority : Type 0
Priority = ℤ

abbrev pub priority_unspecified : Priority
priority_unspecified = pos 0

abbrev pub priority_immediate : Priority
priority_immediate = pos 1

abbrev pub priority_high : Priority
priority_high = pos 2

abbrev pub priority_medium : Priority
priority_medium = pos 3

abbrev pub priority_low : Priority
priority_low = pos 4

-- Priority.String
unfoldable pub priority_text : Priority → String
priority_text p =
    if eqb_ℤ p priority_immediate
    then "immediate"
    else if eqb_ℤ p priority_high
    then "high"
    else if eqb_ℤ p priority_medium
    then "medium"
    else if eqb_ℤ p priority_low
    then "low"
    else "unspecified"

-- `kind` is the field Type, and `payload` the bytes.
pub record Job : Type 0 where
  pub id : String
  pub producer_id : String
  pub kind : String
  pub priority : Priority
  pub payload : List ℕ
  pub run_at : Instant
  pub trace_id : String
  pub max_retries : ℤ
  pub created_at : Instant
  pub shadow : Bool

pub record EnqueueResult : Type 0 where
  pub job_id : String
  pub error : Option Error

pub record Backend : Type 0 where
  pub enqueue : Job → M (Option Error)
  pub enqueue_bulk : List Job → M (List EnqueueResult)
  pub health : M (Option Error)
  pub close : M (Option Error)

pub record BackendConfig : Type 0 where
  pub max_payload_size : ℤ
  pub default_max_retries : ℤ
  pub enqueue_timeout : Duration

abbrev pub default_config : BackendConfig
default_config = record {
  max_payload_size = pos 1048576;
  default_max_retries = pos 10;
  enqueue_timeout = pos (30 * 1000000000);
}

-- Job.Validate
unfoldable pub validate : Job → ℤ → Option Error
validate job max_payload_size =
    if job.producer_id == ""
    then some (text "producer_id is required")
    else if job.kind == ""
    then some (text "job_type is required")
    else if ltb_ℤ (pos 0) max_payload_size && ltb_ℤ max_payload_size (pos (length job.payload))
    then some (sentinel job_too_large)
    else none
