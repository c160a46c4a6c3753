-- ===== src/Api/Server/Enqueue.antt =====
-- `Enqueue` of internal/api/server.go.
use jack_service.Common.{
  String, List, [], ◌∷◌, ◌++◌, Option, none, some, ok, err, length, if◌then◌else◌,
}
use jack_service.Common.Int.{pos, ltb_ℤ}
use jack_service.Common.Text.{◌==◌, ◌+++◌}
use jack_service.Go.{Instant, Error, error_is, queue_unavailable, show_ℤ}
use jack_service.Proto.{EnqueueRequest, EnqueueResponse}
use jack_service.World.{M, ◌>>=◌, ◌>>◌, pure, incr, distribution, now, since, send}
use jack_service.Queue.{Job, priority_text}
use jack_service.Scheduler.{Scheduler}
use jack_service.Api.Status.{Code, invalid_argument, internal, unavailable, Reply}
use jack_service.Api.Server.{
  Server, Libraries, Context, shadow_from_context, prepare_job, scheduler_for,
}

abbrev pub refuse : {A : Type 0} → Code → String → M (Reply A)
refuse code message = pure (err (record { code = code; message = message }))

abbrev pub tags_of : Job → List String
tags_of job =
    ("job_type:" +++ job.kind)
    ∷ ("producer_id:" +++ job.producer_id)
    ∷ ("priority:" +++ priority_text job.priority)
    ∷ []

abbrev first_tags : Job → List String
first_tags job = ("job_type:" +++ job.kind) ∷ ("producer_id:" +++ job.producer_id) ∷ []

abbrev pub response_of : EnqueueRequest → Job → List String → EnqueueResponse
response_of req job warnings = record {
  job_id = job.id;
  error_messages = warnings;
  correlation_id = req.correlation_id;
}

module _ (lib : Libraries) where
  -- The metrics of a success and the response, alike for both ways.
  unfoldable pub succeed :
      String → EnqueueRequest → Job → List String → Instant → M (Reply EnqueueResponse)
  unfolding send since priority_text
  succeed method req job warnings start = do
    send (incr "jack.enqueue.count" (tags_of job ++ "status:success" ∷ method ∷ []))
    duration ← since lib.env start
    send (distribution "jack.enqueue.duration" duration (tags_of job))
    send (distribution "jack.enqueue.payload_bytes" (pos (length req.payload)) (first_tags job))
    pure (ok (response_of req job warnings))

  -- What follows the call of the scheduler, and that of the backend.
  unfoldable pub after_schedule :
      EnqueueRequest → Job → List String → Instant → Option Error → M (Reply EnqueueResponse)
  unfolding succeed send
  after_schedule req job warnings start (some e) = do
    send (incr "jack.enqueue.count" (tags_of job ++ "status:error" ∷ "method:scheduled" ∷ []))
    refuse internal "failed to schedule future job"
  after_schedule req job warnings start none = succeed "method:scheduled" req job warnings start

  unfoldable pub after_queue :
      EnqueueRequest → Job → List String → Instant → Option Error → M (Reply EnqueueResponse)
  unfolding succeed send
  after_queue req job warnings start (some e) = do
    send (incr "jack.enqueue.count" (tags_of job ++ "status:error" ∷ "method:immediate" ∷ []))
    if error_is e queue_unavailable
        then refuse unavailable "queue temporarily unavailable"
        else refuse internal "failed to enqueue job"
  after_queue req job warnings start none = succeed "method:immediate" req job warnings start

  module _ (s : Server) where
    -- The branch for a scheduler, and the branch for the backend.
    unfoldable pub dispatch_to :
        EnqueueRequest → Job → List String → Instant → Option Scheduler → M (Reply EnqueueResponse)
    unfolding after_schedule after_queue
    dispatch_to req job warnings start (some scheduler) = do
      outcome ← scheduler.schedule job
      after_schedule req job warnings start outcome
    dispatch_to req job warnings start none = do
      outcome ← s.backend.enqueue job
      after_queue req job warnings start outcome

    -- The rest of Enqueue with the job made.
    unfoldable pub dispatch :
        EnqueueRequest → Job → List String → Instant → M (Reply EnqueueResponse)
    unfolding scheduler_for dispatch_to
    dispatch req job warnings start = do
      delayed ← scheduler_for lib s job
      dispatch_to req job warnings start delayed

    unfoldable pub enqueue : Context → EnqueueRequest → M (Reply EnqueueResponse)
    unfolding now prepare_job shadow_from_context dispatch
    enqueue ctx req = do
      start ← now lib.env
      if req.producer_id == ""
          then refuse invalid_argument "producer_id is required"
          else if req.job_type == ""
          then refuse invalid_argument "job_type is required"
          else if ltb_ℤ s.config.max_payload_size (pos (length req.payload))
          then refuse invalid_argument
              ("payload exceeds max size (" +++ (show_ℤ s.config.max_payload_size +++ " bytes)"))
          else (do
            (job, warnings) ← prepare_job lib s (shadow_from_context ctx) req
            dispatch req job warnings start)
