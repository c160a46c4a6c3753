-- ===== src/Api/Server/Dropping.antt =====
-- What becomes of a delayed job where the scheduler is the one of internal/scheduler/noop.go: cmd/jack
-- passes it to the server of internal/api/server.go when Cloud Tasks is not configured.
use jack_service.Common.{
  String, true, ◌≡◌, refl, sym, ap, ◌∙◌, List, none, some, ok, length, Bool-cases, inl, inr,
}
use jack_service.Common.Int.{pos, ltb_ℤ, leb_ℤ}
use jack_service.Common.Text.{◌==◌}
use jack_service.Go.{Instant, sub_time}
use jack_service.Proto.{Timestamp, EnqueueRequest, EnqueueResponse}
use jack_service.World.{World, Event, now}
use jack_service.Queue.{Job, Backend}
use jack_service.Scheduler.{Scheduler, noop_scheduler, noop_schedule}
use jack_service.Api.Server.{
  Server, Libraries, Context, shadow_from_context, prepare_job, scheduler_for,
}
use jack_service.Api.Server.Made.{prepare_job-IsJobOf}
use jack_service.Api.Server.Enqueue.{after_schedule, dispatch_to, dispatch, succeed, enqueue}
use jack_service.Api.Server.Bulk.{rejection}

module _ (lib : Libraries) (s : Server) where
  pub enqueue-dispatch :
      (ctx : Context) (q : EnqueueRequest) (w : World)
      → rejection s q ≡ none
      → enqueue lib s ctx q w ≡ (
          let start = now lib.env w in
          let made = prepare_job lib s (shadow_from_context ctx) q start.1 in
          dispatch lib s q made.0.0 made.0.1 start.0 made.1)
  unfolding enqueue rejection
  enqueue-dispatch ctx q w h = elim (Bool-cases (q.producer_id == "")) [
    | inl missing ↦ absurd (cc (rw missing at h))
    | inr given ↦ elim (Bool-cases (q.job_type == "")) [
      | inl missing ↦ absurd (cc (rw (given, missing) at h))
      | inr named ↦ elim (Bool-cases (ltb_ℤ s.config.max_payload_size (pos (length q.payload)))) [
        | inl large ↦ absurd (cc (rw (given, named, large) at h))
        | inr small ↦ rw (given, named, small, enqueue) refl
      ]
    ]
  ]

  scheduler_for_far :
      (job : Job) (w : World) {scheduler : Scheduler}
      → s.scheduler ≡ some scheduler
      → ltb_ℤ (pos 0) s.config.schedule_threshold ≡ true
      → leb_ℤ s.config.schedule_threshold (sub_time job.run_at (now lib.env w).0) ≡ true
      → scheduler_for lib s job w ≡ (some scheduler, (now lib.env w).1)
  unfolding scheduler_for
  scheduler_for_far job w has enabled far = rw (has, enabled, far, scheduler_for) refl

  dispatch_far :
      (q : EnqueueRequest) (job : Job) (warnings : List String) (start : Instant) (w : World)
      → s.scheduler ≡ some noop_scheduler
      → ltb_ℤ (pos 0) s.config.schedule_threshold ≡ true
      → leb_ℤ s.config.schedule_threshold (sub_time job.run_at (now lib.env w).0) ≡ true
      → dispatch lib s q job warnings start w
        ≡ succeed lib "method:scheduled" q job warnings start (now lib.env w).1
  unfolding dispatch dispatch_to noop_schedule after_schedule
  dispatch_far q job warnings start w has enabled far =
      ap (λ d. dispatch_to lib s q job warnings start d.0 d.1)
        (scheduler_for_far job w has enabled far)

-- With the scheduler that schedules nothing and a positive threshold, a valid request for a time that is
-- at least the threshold ahead of every reading of the clock succeeds, while what the server does is the
-- same whatever backend it has: the job is queued nowhere.
pub enqueue_ignores_backend :
    (lib : Libraries) (s : Server) (ctx : Context) (q : EnqueueRequest) (t : Timestamp) (w : World)
    → rejection s q ≡ none
    → s.scheduler ≡ some noop_scheduler
    → ltb_ℤ (pos 0) s.config.schedule_threshold ≡ true
    → q.run_at ≡ some t
    → ((history : List Event)
        → leb_ℤ s.config.schedule_threshold (sub_time (lib.as_time t) (lib.env.clock history))
          ≡ true)
    → ((r : EnqueueResponse) × ((enqueue lib s ctx q w).0 ≡ ok r))
      × ((b : Backend) → enqueue lib (record s { backend = b }) ctx q w ≡ enqueue lib s ctx q w)
unfolding succeed rejection prepare_job now
enqueue_ignores_backend lib s ctx q t w fine has enabled asked far =
    let start = now lib.env w in
    let made = prepare_job lib s (shadow_from_context ctx) q start.1 in
    let job = made.0.0 in
    let at : job.run_at ≡ lib.as_time t =
      (prepare_job-IsJobOf lib s (shadow_from_context ctx) q start.1).run_at t asked in
    let ahead : leb_ℤ s.config.schedule_threshold (sub_time job.run_at (now lib.env made.1).0)
        ≡ true =
      ap (λ x. leb_ℤ s.config.schedule_threshold (sub_time x (now lib.env made.1).0)) at
      ∙ far made.1.history in
    let same =
      enqueue-dispatch lib s ctx q w fine
      ∙ dispatch_far lib s q job made.0.1 start.0 made.1 has enabled ahead in
    (
      (_, ap (λ x. x.0) same),
      λ b.
          enqueue-dispatch lib (record s { backend = b }) ctx q w fine
          ∙ dispatch_far lib (record s { backend = b }) q job made.0.1 start.0 made.1 has enabled
              ahead
          ∙ sym same,
    )
