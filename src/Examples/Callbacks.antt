-- ===== src/Examples/Callbacks.antt =====
-- The theorems on delayed jobs at concrete inputs.
use jack_service.Common.{ℕ, ◌≡◌, ◌≤◌, refl, List, none, ok, length}
use jack_service.Common.Text.{◌+++◌}
use jack_service.World.{World, Task, task_created, now, Logged}
use jack_service.Queue.{default_config}
use jack_service.Queue.Noop.{noop_backend}
use jack_service.Scheduler.{marshal_job}
use jack_service.Scheduler.CloudTasks.{max_task_body_size, task_for, schedule}
use jack_service.Scheduler.CloudTasks.Created.{schedule-Logged}
use jack_service.Api.Callback.{handle_enqueue_callback}
use jack_service.Api.Callback.Delivery.{status_of, handle-schedule}
use jack_service.Examples.{env, nothing_yet}
use jack_service.Examples.Queues.{codec, codec-IsCodec, moment, small_job, tasks, tasks_client}

schedule-Logged_example :
    (body : List ℕ) × (marshal_job codec small_job ≡ ok body)
    × (length body ≤ max_task_body_size)
    × Logged
        (task_created (task_for env codec tasks_client tasks small_job body) none)
        (schedule env codec tasks_client tasks small_job nothing_yet).1.history
unfolding schedule
schedule-Logged_example = schedule-Logged env codec tasks_client tasks small_job nothing_yet refl

handle-schedule_example :
    (task : Task) × (task.name ≡ "projects/jack" +++ ("/tasks/" +++ "pjob_1"))
    × (task.url ≡ "https://jack/cb")
    × Logged
        (task_created task none)
        (schedule env codec tasks_client tasks small_job nothing_yet).1.history
    × ((u : World)
        → (let started = (now env u).1 in
            (handle_enqueue_callback env codec (noop_backend default_config) (ok task.body) u).0
            ≡ status_of
                ((noop_backend default_config).enqueue
                  (record small_job { run_at = (now env started).0 })
                  (now env started).1).0))
unfolding schedule
handle-schedule_example =
    handle-schedule env codec (noop_backend default_config) (λ t. t ≡ moment) codec-IsCodec
      tasks_client tasks small_job nothing_yet refl refl refl
