-- ===== src/Api/Server/Outcome.antt =====
-- What `Enqueue` of internal/api/server.go answers, in every case.
use jack_service.Common.{
  String, true, ◌≡◌, refl, List, Option, none, some, ok, err, length, if◌then◌else◌, Bool-cases,
  Option-cases, inl, inr,
}
use jack_service.Common.Int.{pos, ltb_ℤ, leb_ℤ}
use jack_service.Common.Text.{◌==◌}
use jack_service.Go.{Instant, Error, error_is, queue_unavailable, sub_time}
use jack_service.Proto.{EnqueueRequest, EnqueueResponse}
use jack_service.World.{World, now}
use jack_service.Queue.{Job}
use jack_service.Scheduler.{Scheduler}
use jack_service.Api.Status.{Status, Code, invalid_argument, internal, unavailable, Reply}
use jack_service.Api.Server.{
  Server, Libraries, Context, shadow_from_context, prepare_job, scheduler_for,
}
use jack_service.Api.Server.Chosen.{Chosen, to_wait, scheduler_for-Chosen}
use jack_service.Api.Server.Made.{IsJobOf, prepare_job-IsJobOf}
use jack_service.Api.Server.Enqueue.{
  after_schedule, after_queue, dispatch_to, dispatch, succeed, enqueue,
}
use jack_service.Api.Server.Bulk.{rejection}

-- The job has been taken by the scheduler, which is only asked about a job that is far enough ahead of the
-- clock, or by the backend.
pub data Handed (s : Server) (job : Job) : Type 0 where
  to_scheduler :
      (scheduler : Scheduler) (v : World) (clock : Instant)
      → s.scheduler ≡ some scheduler
      → ltb_ℤ (pos 0) s.config.schedule_threshold ≡ true
      → leb_ℤ s.config.schedule_threshold (sub_time job.run_at clock) ≡ true
      → (scheduler.schedule job v).0 ≡ none
      → Handed s job
  to_backend : (v : World) → (s.backend.enqueue job v).0 ≡ none → Handed s job

-- The code for an error of the backend.
abbrev pub backend_code : Error → Code
backend_code e = if error_is e queue_unavailable then unavailable else internal

module _ (lib : Libraries) (s : Server) where
  -- The answers to a request whose job is `job`.
  pub data Settled (q : EnqueueRequest) (job : Job) (warnings : List String)
      : Reply EnqueueResponse → Type 0 where
    taken :
        {r : EnqueueResponse}
        → r.job_id ≡ job.id
        → r.error_messages ≡ warnings
        → r.correlation_id ≡ q.correlation_id
        → Handed s job
        → Settled q job warnings (ok r)
    not_scheduled :
        {status : Status} {e : Error}
        → (scheduler : Scheduler) (v : World) → s.scheduler ≡ some scheduler
        → (scheduler.schedule job v).0 ≡ some e
        → status.code ≡ internal
        → Settled q job warnings (err status)
    not_queued :
        {status : Status} {e : Error}
        → (v : World) → (s.backend.enqueue job v).0 ≡ some e
        → status.code ≡ backend_code e
        → Settled q job warnings (err status)

  pub data OutcomeOf (ctx : Context) (q : EnqueueRequest) : Reply EnqueueResponse → Type 0 where
    invalid :
        {status : Status} {why : String × String}
        → rejection s q ≡ some why
        → status.code ≡ invalid_argument
        → OutcomeOf ctx q (err status)
    valid :
        {reply : Reply EnqueueResponse}
        → (v : World) → rejection s q ≡ none
        → (let (job, warnings) = (prepare_job lib s (shadow_from_context ctx) q v).0 in
            IsJobOf lib (shadow_from_context ctx) q job × Settled q job warnings reply)
        → OutcomeOf ctx q reply

  module _ (q : EnqueueRequest) (job : Job) (warnings : List String) (start : Instant) where
    after_queue-Settled :
        (v v' : World) (outcome : Option Error)
        → (s.backend.enqueue job v).0 ≡ outcome
        → Settled q job warnings (after_queue lib q job warnings start outcome v').0
    unfolding after_queue succeed
    after_queue-Settled v v' none h = taken refl refl refl (to_backend v h)
    after_queue-Settled v v' (some e) h = elim (Bool-cases (error_is e queue_unavailable)) [
      | inl down ↦ rw (down) (not_queued v h (rw (down) refl))
      | inr other ↦ rw (other) (not_queued v h (rw (other) refl))
    ]

    after_schedule-Settled :
        (scheduler : Scheduler) (v v' : World) (clock : Instant) (outcome : Option Error)
        → s.scheduler ≡ some scheduler
        → ltb_ℤ (pos 0) s.config.schedule_threshold ≡ true
        → leb_ℤ s.config.schedule_threshold (sub_time job.run_at clock) ≡ true
        → (scheduler.schedule job v).0 ≡ outcome
        → Settled q job warnings (after_schedule lib q job warnings start outcome v').0
    unfolding after_schedule succeed
    after_schedule-Settled scheduler v v' clock none has enabled far h =
        taken refl refl refl (to_scheduler scheduler v clock has enabled far h)
    after_schedule-Settled scheduler v v' clock (some e) has enabled far h =
        not_scheduled scheduler v has h refl

    dispatch_to-Settled :
        (delayed : Option Scheduler) (v : World)
        → Chosen lib s job delayed
        → Settled q job warnings (dispatch_to lib s q job warnings start delayed v).0
    unfolding dispatch_to
    dispatch_to-Settled none v c =
        after_queue-Settled v (s.backend.enqueue job v).1 (s.backend.enqueue job v).0 refl
    dispatch_to-Settled (some scheduler) v (to_wait clock has enabled far) =
        after_schedule-Settled scheduler v (scheduler.schedule job v).1 clock _ has enabled far refl

    dispatch-Settled :
        (w : World) → Settled q job warnings (dispatch lib s q job warnings start w).0
    unfolding dispatch
    dispatch-Settled w =
        dispatch_to-Settled (scheduler_for lib s job w).0 (scheduler_for lib s job w).1
          (scheduler_for-Chosen lib s job w)

  enqueue-valid :
      (ctx : Context) (q : EnqueueRequest) (w : World)
      → rejection s q ≡ none
      → OutcomeOf ctx q (enqueue lib s ctx q w).0
  unfolding enqueue rejection
  enqueue-valid ctx q w h = elim (Bool-cases (q.producer_id == "")) [
    | inl missing ↦ absurd (cc (rw missing at h))
    | inr given ↦ elim (Bool-cases (q.job_type == "")) [
      | inl missing ↦ absurd (cc (rw (given, missing) at h))
      | inr named ↦ elim (Bool-cases (ltb_ℤ s.config.max_payload_size (pos (length q.payload)))) [
        | inl large ↦ absurd (cc (rw (given, named, large) at h))
        | inr small ↦
            let w' = (now lib.env w).1 in
            let made = prepare_job lib s (shadow_from_context ctx) q w' in
            rw (given, named, small, enqueue)
              (valid w' h (
                prepare_job-IsJobOf lib s (shadow_from_context ctx) q w',
                dispatch-Settled q made.0.0 made.0.1 (now lib.env w).0 made.1,
              ))
      ]
    ]
  ]

  enqueue-invalid :
      (ctx : Context) (q : EnqueueRequest) (w : World) {why : String × String}
      → rejection s q ≡ some why
      → OutcomeOf ctx q (enqueue lib s ctx q w).0
  unfolding enqueue rejection
  enqueue-invalid ctx q w h = elim (Bool-cases (q.producer_id == "")) [
    | inl missing ↦ rw (missing, enqueue) (invalid h refl)
    | inr given ↦ elim (Bool-cases (q.job_type == "")) [
      | inl missing ↦ rw (given, missing, enqueue) (invalid h refl)
      | inr named ↦ elim (Bool-cases (ltb_ℤ s.config.max_payload_size (pos (length q.payload)))) [
        | inl large ↦ rw (given, named, large, enqueue) (invalid h refl)
        | inr small ↦ absurd (cc (rw (given, named, small) at h))
      ]
    ]
  ]

  -- `Enqueue` answers in one of five ways. A request that the validation of EnqueueBulk would refuse is
  -- refused with invalid_argument. For any other a job is prepared, with an ID of jobid.Generate, the fields of
  -- the request, the shadow flag of the context and, if the request names a time, that time. The answer is then
  -- the ID of that job, the warnings of its preparation and the correlation ID of the request, only if the
  -- scheduler (for a job far enough ahead of a reading of the clock, with a positive threshold) or the backend
  -- has taken this very job; internal if the scheduler has refused it; and if the backend has, unavailable for
  -- an error that wraps ErrQueueUnavailable and else internal.
  pub enqueue-OutcomeOf :
      (ctx : Context) (q : EnqueueRequest) (w : World) → OutcomeOf ctx q (enqueue lib s ctx q w).0
  enqueue-OutcomeOf ctx q w = elim (Option-cases (rejection s q)) [
    | inl fine ↦ enqueue-valid ctx q w fine
    | inr (why, bad) ↦ enqueue-invalid ctx q w bad
  ]
