-- ===== src/Api/Server.antt =====
-- internal/api/server.go: the server of the service BackgroundJobs, and how it routes a job.
-- Parameters: crypto/sha256, timestamppb's AsTime, encoding/json on the struct with the field `queue`, and
-- what gRPC gives for the metadata key `shadow`.
pub mod Enqueue
pub mod Bulk
pub mod Chosen
pub mod Made
pub mod Outcome
pub mod Accepted
pub mod Apart
pub mod Dropping
pub mod Routing
use jack_service.Common.{
  ℕ, String, Bool, true, false, List, [], ◌∷◌, ◌++◌, Option, none, some, Result, ok, err,
  if◌then◌else◌,
}
use jack_service.Common.Int.{ℤ, pos, eqb_ℤ, ltb_ℤ, leb_ℤ}
use jack_service.Common.Text.{◌==◌, ◌+++◌}
use jack_service.Go.{Instant, Duration, Error}
use jack_service.Proto.{
  Timestamp, Queue, queue_immediate, queue_high, queue_medium, queue_low, EnqueueRequest, Producer,
  JobType,
}
use jack_service.World.{M, ◌>>=◌, ◌>>◌, pure, Env, Metric, incr, now, until, send}
use jack_service.JobId.{generate}
use jack_service.Queue.{
  Priority, priority_unspecified, priority_immediate, priority_high, priority_medium, priority_low,
  priority_text, Job, Backend,
}
use jack_service.Scheduler.{Scheduler}
use jack_service.Storage.{Store}

pub record ServerConfig : Type 0 where
  pub max_payload_size : ℤ
  pub default_queue : Priority
  pub default_max_retries : ℤ
  pub schedule_threshold : Duration
  pub legacy_payload_queue_routing : Bool

abbrev pub default_server_config : ServerConfig
default_server_config = record {
  max_payload_size = pos 1048576;
  default_queue = priority_medium;
  default_max_retries = pos 10;
  schedule_threshold = pos 0;
  legacy_payload_queue_routing = false;
}

-- `none` is a nil interface.
pub record Server : Type 0 where
  pub store : Option Store
  pub backend : Backend
  pub scheduler : Option Scheduler
  pub config : ServerConfig

pub record Libraries : Type 0 where
  pub env : Env
  pub sha256 : List ℕ → List ℕ
  pub as_time : Timestamp → Instant
  pub payload_queue : List ℕ → Result Error String

-- The values of the key `shadow` in the incoming metadata, if there is any metadata.
pub record Context : Type 0 where
  pub shadow_values : Option (List String)

unfoldable pub shadow_from_context : Context → Bool
shadow_from_context ctx = elim ctx.shadow_values [
  | none ↦ false
  | some [] ↦ false
  | some (v ∷ _) ↦ v == "true"
]

unfoldable pub storage_queue_to_queue_priority : Queue → Priority
storage_queue_to_queue_priority q =
    if eqb_ℤ q queue_immediate
    then priority_immediate
    else if eqb_ℤ q queue_high
    then priority_high
    else if eqb_ℤ q queue_medium
    then priority_medium
    else if eqb_ℤ q queue_low
    then priority_low
    else priority_medium

-- The switch on `legacy.Queue`; the second result of the function is whether there is a priority.
unfoldable pub priority_named : String → Option Priority
priority_named name =
    if name == "immediate"
    then some priority_immediate
    else if name == "high"
    then some priority_high
    else if name == "medium"
    then some priority_medium
    else if name == "low"
    then some priority_low
    else none

-- What routes a job: its priority, its retries, and a warning, "" for none.
pub record RoutingConfig : Type 0 where
  pub priority : Priority
  pub max_retries : ℤ
  pub warning : String

module _ (lib : Libraries) where
  unfoldable pub legacy_payload_priority : List ℕ → Option Priority
  unfolding priority_named
  legacy_payload_priority payload = elim (lib.payload_queue payload) [
    | err e ↦ none
    | ok name ↦ priority_named name
  ]

  -- `runAt` of the request, or the clock.
  unfoldable pub instant_or : Instant → Option Timestamp → Instant
  instant_or clock none = clock
  instant_or clock (some t) = lib.as_time t

  module _ (s : Server) where
    unfoldable pub default_routing : String → RoutingConfig
    default_routing warning = record {
      priority = s.config.default_queue;
      max_retries = s.config.default_max_retries;
      warning = warning;
    }

    -- The configuration from the answer of the store.
    unfoldable pub registration_config : String → String → Result Error JobType → RoutingConfig
    unfolding default_routing storage_queue_to_queue_priority
    registration_config producer_id job_type (err e) =
        default_routing
          ("unregistered job_type: " +++ (job_type +++ (" (producer: " +++ (producer_id +++ ")"))))
    registration_config producer_id job_type (ok jt) = record {
      priority = storage_queue_to_queue_priority jt.queue;
      max_retries = jt.max_retries;
      warning = "";
    }

    unfoldable pub get_job_type_config : String → String → M RoutingConfig
    unfolding default_routing registration_config
    get_job_type_config producer_id job_type = elim s.store [
      | none ↦ pure (default_routing "")
      | some store ↦ (do
        found ← store.get_job_type producer_id job_type
        pure (registration_config producer_id job_type found))
    ]

    unfoldable pub routing_config : String → String → List ℕ → M RoutingConfig
    unfolding get_job_type_config legacy_payload_priority send priority_text
    routing_config producer_id job_type payload =
        elim (if s.config.legacy_payload_queue_routing
          then legacy_payload_priority payload
          else none) [
            | none ↦ get_job_type_config producer_id job_type
            | some priority ↦ (do
              send (
                  incr "jack.enqueue.legacy_payload_queue_routing.count" (
                    ("producer_id:" +++ producer_id)
                    ∷ ("job_type:" +++ job_type)
                    ∷ ("priority:" +++ priority_text priority)
                    ∷ []))
              pure (record {
                priority = priority;
                max_retries = s.config.default_max_retries;
                warning = "";
              }))
          ]

    -- The warning about the producer, from the answer of the store.
    unfoldable pub registration_warnings : String → Result Error Producer → List String
    registration_warnings producer_id (err e) = ("unregistered producer_id: " +++ producer_id) ∷ []
    registration_warnings producer_id (ok p) = []

    unfoldable pub producer_warnings : String → M (List String)
    unfolding registration_warnings
    producer_warnings producer_id = elim s.store [
      | none ↦ pure []
      | some store ↦ (do
        found ← store.get_producer producer_id
        pure (registration_warnings producer_id found))
    ]

    -- What Enqueue and the loop of EnqueueBulk do alike with a valid request, up to the finished job:
    -- the job and the warnings.
    unfoldable pub prepare_job : Bool → EnqueueRequest → M (Job × List String)
    unfolding producer_warnings routing_config generate now instant_or
    prepare_job shadow req = do
      warnings ← producer_warnings req.producer_id
      routing ← routing_config req.producer_id req.job_type req.payload
      job_id ← generate lib.sha256 lib.env req.producer_id req.job_type
      clock ← now lib.env
      let run_at = instant_or clock req.run_at
      created_at ← now lib.env
      pure (
        record {
          id = job_id;
          producer_id = req.producer_id;
          kind = req.job_type;
          priority = routing.priority;
          payload = req.payload;
          run_at = run_at;
          trace_id = req.trace_id;
          max_retries = routing.max_retries;
          created_at = created_at;
          shadow = shadow;
        },
        (if routing.warning == "" then warnings else warnings ++ routing.warning ∷ []),
      )

    -- The scheduler, if the job is to go there: `time.Until` is called only where there is one and the
    -- threshold is positive.
    unfoldable pub scheduler_for : Job → M (Option Scheduler)
    unfolding until
    scheduler_for job = elim s.scheduler [
      | none ↦ pure none
      | some scheduler ↦
          if ltb_ℤ (pos 0) s.config.schedule_threshold
          then (do
            left ← until lib.env job.run_at
            pure (if leb_ℤ s.config.schedule_threshold left then some scheduler else none))
          else pure none
    ]
