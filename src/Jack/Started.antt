-- ===== src/Jack/Started.antt =====
-- What holds of every runtime server that cmd/jack/main.go starts.
use mathlib.Core.Option.{some-injective}
use jack_service.Common.{true, ◌≡◌, refl, sym, ap, ◌∙◌, List, ◌∷◌, none, some, ok, ok-injective}
use jack_service.Common.Int.{pos, ltb_ℤ, leb_ℤ}
use jack_service.Common.Text.{◌==◌}
use jack_service.Go.{sub_time}
use jack_service.Proto.{Timestamp, EnqueueRequest, EnqueueResponse, BulkResult}
use jack_service.World.{World, Event}
use jack_service.Queue.{Backend}
use jack_service.Scheduler.{noop_scheduler}
use jack_service.Scheduler.CloudTasks.Bulk.{RunsAll}
use jack_service.Api.Server.{Libraries, Context, shadow_from_context}
use jack_service.Api.Server.Enqueue.{enqueue}
use jack_service.Api.Server.Dropping.{enqueue_ignores_backend}
use jack_service.Api.Server.Bulk.{rejection, enqueue_bulk}
use jack_service.Api.Server.Bulk.Results.{Described}
use jack_service.Api.Server.Bulk.Answered.{enqueue_bulk-Described}
use jack_service.Config.{Config}
use jack_service.Jack.Assembled.{
  start-Assembled, choose_backend-IsBackend, choose_scheduler-IsScheduler,
}
use jack_service.Jack.{Process, Platform, choose_scheduler, start}

-- Every server that is started answers EnqueueBulk as described, whatever store, backend and scheduler the
-- configuration chooses, if every goroutine runs.
pub start-Described :
    (platform : Platform) (cfg : Config) (w : World) (p : Process)
    → RunsAll platform.order
    → (start platform cfg w).0 ≡ ok p
    → (lib : Libraries) (ctx : Context) (q : EnqueueRequest) (qs : List EnqueueRequest) (v : World)
    → (results : List BulkResult) × ((enqueue_bulk lib p.runtime ctx (q ∷ qs) v).0 ≡ ok results)
      × Described lib (shadow_from_context ctx) p.runtime 0 (q ∷ qs) results
start-Described platform cfg w p all h lib ctx q qs v =
    let a = start-Assembled platform cfg w p h in
    enqueue_bulk-Described lib p.runtime ctx q qs v
      (choose_backend-IsBackend platform cfg p.runtime.backend a.chose_backend)
      (λ scheduler has.
        rw (← (some-injective _ _ (sym a.has_scheduler ∙ has)))
          (choose_scheduler-IsScheduler platform cfg all a.scheduler a.chose_scheduler))

choose_scheduler_unset :
    (platform : Platform) (cfg : Config)
    → (cfg.cloud_tasks_project == "") ≡ true
    → choose_scheduler platform cfg ≡ ok noop_scheduler
unfolding choose_scheduler
choose_scheduler_unset platform cfg unset = rw unset refl

-- Where CLOUD_TASKS_PROJECT is not set and the threshold is positive (one minute if it is not configured),
-- the server that is started accepts a valid request for a time that is at least the threshold ahead of every
-- reading of the clock, and does the same whatever backend it has: the job is queued nowhere.
pub start_ignores_backend :
    (platform : Platform) (cfg : Config) (w : World) (p : Process)
    → (cfg.cloud_tasks_project == "") ≡ true
    → ltb_ℤ (pos 0) cfg.schedule_threshold ≡ true
    → (start platform cfg w).0 ≡ ok p
    → (lib : Libraries) (ctx : Context) (q : EnqueueRequest) (t : Timestamp) (v : World)
    → rejection p.runtime q ≡ none
    → q.run_at ≡ some t
    → ((history : List Event)
        → leb_ℤ cfg.schedule_threshold (sub_time (lib.as_time t) (lib.env.clock history)) ≡ true)
    → ((r : EnqueueResponse) × ((enqueue lib p.runtime ctx q v).0 ≡ ok r))
      × ((b : Backend)
          → enqueue lib (record p.runtime { backend = b }) ctx q v ≡ enqueue lib p.runtime ctx q v)
start_ignores_backend platform cfg w p unset positive h lib ctx q t v fine asked far =
    let a = start-Assembled platform cfg w p h in
    let threshold : p.runtime.config.schedule_threshold ≡ cfg.schedule_threshold =
      ap (λ c. c.schedule_threshold) a.configured in
    let noop : noop_scheduler ≡ a.scheduler =
      ok-injective (sym (choose_scheduler_unset platform cfg unset) ∙ a.chose_scheduler) in
    enqueue_ignores_backend lib p.runtime ctx q t v fine (a.has_scheduler ∙ ap some (sym noop))
      (ap (λ x. ltb_ℤ (pos 0) x) threshold ∙ positive) asked
      (λ history.
        ap (λ x. leb_ℤ x (sub_time (lib.as_time t) (lib.env.clock history))) threshold
        ∙ far history)
