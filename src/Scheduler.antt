-- ===== src/Scheduler.antt =====
-- internal/scheduler/scheduler.go and noop.go: delayed jobs, and the body of the task that calls back.
-- The JSON text and the RFC 3339 text of an instant are parameters.
pub mod Dropped
pub mod RoundTrip
pub mod CloudTasks
pub mod Apart
use jack_service.Common.{ℕ, String, Bool, List, [], ◌∷◌, Option, none, Result, ok, err, ◌≡◌}
use jack_service.Common.Int.{ℤ}
use jack_service.Go.{Instant, Error}
use jack_service.World.{World, M, ◌>>=◌, pure}
use jack_service.Queue.{Job, EnqueueResult}
use jack_service.Queue.Contract.{Answers}

-- The interface.
pub record Scheduler : Type 0 where
  pub schedule : Job → M (Option Error)
  pub schedule_bulk : List Job → M (List EnqueueResult)
  pub close : M (Option Error)

-- What the comment on `ScheduleBulk` promises, as of a backend.
pub record IsScheduler (scheduler : Scheduler) : Type 0 where
  pub answers : (jobs : List Job) (w : World) → Answers jobs (scheduler.schedule_bulk jobs w).0

pub record ScheduledJob : Type 0 where
  pub id : String
  pub producer_id : String
  pub kind : String
  pub priority : ℤ
  pub payload : List ℕ
  pub run_at : String
  pub trace_id : String
  pub max_retries : ℤ
  pub created_at : String
  pub shadow : Bool

-- encoding/json on that struct, and time.Format and time.Parse with time.RFC3339Nano in UTC.
pub record Codec : Type 0 where
  pub json_marshal : ScheduledJob → Result Error (List ℕ)
  pub json_unmarshal : List ℕ → Result Error ScheduledJob
  pub format_time : Instant → String
  pub parse_time : String → Result Error Instant

module _ (codec : Codec) where
  unfoldable pub marshal_job : Job → Result Error (List ℕ)
  marshal_job job = codec.json_marshal (record {
    id = job.id;
    producer_id = job.producer_id;
    kind = job.kind;
    priority = job.priority;
    payload = job.payload;
    run_at = codec.format_time job.run_at;
    trace_id = job.trace_id;
    max_retries = job.max_retries;
    created_at = codec.format_time job.created_at;
    shadow = job.shadow;
  })

  abbrev pub job_at : ScheduledJob → Instant → Instant → Job
  job_at sj run_at created_at = record {
    id = sj.id;
    producer_id = sj.producer_id;
    kind = sj.kind;
    priority = sj.priority;
    payload = sj.payload;
    run_at = run_at;
    trace_id = sj.trace_id;
    max_retries = sj.max_retries;
    created_at = created_at;
    shadow = sj.shadow;
  }

  unfoldable pub unmarshal_job : List ℕ → Result Error Job
  unmarshal_job body = elim (codec.json_unmarshal body) [
    | err e ↦ err e
    | ok sj ↦ elim (codec.parse_time sj.run_at) [
      | err e ↦ err e
      | ok run_at ↦ elim (codec.parse_time sj.created_at) [
        | err e ↦ err e
        | ok created_at ↦ ok (job_at sj run_at created_at)
      ]
    ]
  ]

-- noop.go: nothing but a line in the log.
unfoldable pub noop_schedule : Job → M (Option Error)
noop_schedule job = pure none

unfoldable pub noop_schedule_bulk : List Job → M (List EnqueueResult)
noop_schedule_bulk [] = pure []
noop_schedule_bulk (job ∷ jobs) = do
  results ← noop_schedule_bulk jobs
  pure (record { job_id = job.id; error = none } ∷ results)

abbrev pub noop_scheduler : Scheduler
noop_scheduler = record {
  schedule = noop_schedule;
  schedule_bulk = noop_schedule_bulk;
  close = pure none;
}
