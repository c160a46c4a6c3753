-- ===== src/Api/Callback/Delivery.antt =====
-- The way of a delayed job: from `Schedule` of internal/scheduler/cloudtasks.go through the body of its task
-- to the handler of internal/api/callback.go.
use jack_service.Common.{ℕ, ◌≡◌, refl, ap, ◌∙◌, List, Option, none, some, ok}
use jack_service.Common.Text.{◌+++◌}
use jack_service.Go.{Instant, Error}
use jack_service.World.{World, Env, Task, task_created, now, Logged}
use jack_service.Queue.{Job, Backend}
use jack_service.Scheduler.{Codec, marshal_job, unmarshal_job}
use jack_service.Scheduler.RoundTrip.{IsCodec, unmarshal-marshal_job}
use jack_service.Scheduler.CloudTasks
use jack_service.Scheduler.CloudTasks.{
  CloudTasksScheduler, max_task_body_size, task_for, create_task, submit, schedule,
}
use jack_service.Scheduler.CloudTasks.Created.{schedule-Logged}
use jack_service.Api.Callback.{
  status_ok, status_internal_server_error, after_enqueue, enqueue_now, handle_enqueue_callback,
}

abbrev pub status_of : Option Error → ℕ
status_of none = status_ok
status_of (some e) = status_internal_server_error

module _ (env : Env) (codec : Codec) (backend : Backend) where
  after_enqueue-status :
      (start : Instant) (outcome : Option Error) (w : World)
      → (after_enqueue env codec backend start outcome w).0 ≡ status_of outcome
  unfolding after_enqueue
  after_enqueue-status start none w = refl
  after_enqueue-status start (some e) w = refl

  handle-enqueue_now :
      (bytes : List ℕ) (job : Job) (w : World)
      → unmarshal_job codec bytes ≡ ok job
      → handle_enqueue_callback env codec backend (ok bytes) w
        ≡ enqueue_now env codec backend (now env w).0 job (now env w).1
  unfolding handle_enqueue_callback
  handle-enqueue_now bytes job w h = rw (h, handle_enqueue_callback) refl

  enqueue_now-status :
      (start : Instant) (job : Job) (w : World)
      → (enqueue_now env codec backend start job w).0
        ≡ status_of (backend.enqueue (record job { run_at = (now env w).0 }) (now env w).1).0
  unfolding enqueue_now
  enqueue_now-status start job w =
      after_enqueue-status start
        (backend.enqueue (record job { run_at = (now env w).0 }) (now env w).1).0 _

  -- A callback with the body that was made of a job gives the backend this very job, due at its second
  -- reading of the clock, and answers 200 if the backend takes it and 500, for a retry, if not.
  pub handle-marshal_job :
      (Readable : Instant → Type 0) (is : IsCodec Readable codec) (job : Job) (body : List ℕ)
      (w : World)
      → Readable job.run_at
      → Readable job.created_at
      → marshal_job codec job ≡ ok body
      → (let started = (now env w).1 in
          (handle_enqueue_callback env codec backend (ok body) w).0
          ≡ status_of
              (backend.enqueue (record job { run_at = (now env started).0 }) (now env started).1).0)
  handle-marshal_job Readable is job body w r c h =
      ap (λ x. x.0)
        (handle-enqueue_now body job w (unmarshal-marshal_job Readable codec is job body r c h))
      ∙ enqueue_now-status (now env w).0 job (now env w).1

  -- A delayed job is not lost on its way: once `Schedule` has reported a success, a task named by the ID of
  -- the job has been created, and the callback with the body of that task, whenever it comes, gives the backend
  -- this very job, due at its second reading of the clock, and answers 200 if the backend takes it and 500 if not.
  pub handle-schedule :
      (Readable : Instant → Type 0) (is : IsCodec Readable codec) (client : CloudTasks.Client)
      (s : CloudTasksScheduler) (job : Job) (w : World)
      → Readable job.run_at
      → Readable job.created_at
      → (schedule env codec client s job w).0 ≡ none
      → (task : Task) × (task.name ≡ s.queue_path +++ ("/tasks/" +++ job.id))
        × (task.url ≡ s.callback_url)
        × Logged (task_created task none) (schedule env codec client s job w).1.history
        × ((u : World)
            → (let started = (now env u).1 in
                (handle_enqueue_callback env codec backend (ok task.body) u).0
                ≡ status_of
                    (backend.enqueue
                      (record job { run_at = (now env started).0 })
                      (now env started).1).0))
  unfolding task_for
  handle-schedule Readable is client s job w r c h =
      let (body, good, small, logged) = schedule-Logged env codec client s job w h in
      (
        task_for env codec client s job body,
        refl,
        refl,
        logged,
        λ u. handle-marshal_job Readable is job body u r c good,
      )
