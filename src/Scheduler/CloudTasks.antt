-- ===== src/Scheduler/CloudTasks.antt =====
-- internal/scheduler/cloudtasks.go: a Cloud Tasks task for each delayed job.
-- What CreateTask answers, timestamppb.New and the order in which goroutines run are parameters.
pub mod Bulk
pub mod Vouched
pub mod Created
use Prim.Native.Nat.{◌*◌}
use jack_service.Common.{
  ℕ, String, List, [], ◌∷◌, Option, none, some, Result, ok, err, eqb, ltb, length, set, get_elem?,
  replicate, if◌then◌else◌,
}
use jack_service.Common.Int.{ℤ, pos}
use jack_service.Common.Text.{Char, code, chars, of_chars, ◌==◌, ◌+++◌}
use jack_service.Go.{Instant, Error, text, wrapped, show_ℕ}
use jack_service.Proto.{Timestamp}
use jack_service.World.{
  to_tasks, close_connection, M, ◌>>=◌, ◌>>◌, pure, Env, Event, Task, task_created, incr,
  distribution, now, since, emit, send,
}
use jack_service.Queue.{Job, EnqueueResult}
use jack_service.Scheduler.{Scheduler, Codec, marshal_job}

abbrev pub max_task_body_size : ℕ
max_task_body_size = 95 * 1024

pub record CloudTasksConfig : Type 0 where
  pub project : String
  pub location : String
  pub queue : String
  pub callback_base_url : String
  pub service_account_email : String

pub record CloudTasksScheduler : Type 0 where
  pub queue_path : String
  pub callback_url : String
  pub sa_email : String

drop_slash : Char → List Char → List Char
drop_slash c [] = if eqb (code c) b'/' then [] else c ∷ []
drop_slash c (d ∷ ds) = c ∷ d ∷ ds

trim_slashes : List Char → List Char
trim_slashes [] = []
trim_slashes (c ∷ cs) = drop_slash c (trim_slashes cs)

-- strings.TrimRight(s, "/")
unfoldable pub trim_right_slashes : String → String
unfolding drop_slash trim_slashes
trim_right_slashes s = of_chars (trim_slashes (chars s))

-- NewCloudTasksScheduler; `client` is the error of cloudtasks.NewClient.
unfoldable pub new_cloud_tasks_scheduler :
    (client : Option Error) → CloudTasksConfig → Result Error CloudTasksScheduler
unfolding trim_right_slashes
new_cloud_tasks_scheduler (some e) cfg =
    err (wrapped "scheduler: failed to create Cloud Tasks client: " e "")
new_cloud_tasks_scheduler none cfg = ok (record {
  queue_path =
      "projects/"
      +++ (cfg.project +++ ("/locations/" +++ (cfg.location +++ ("/queues/" +++ cfg.queue))));
  callback_url = trim_right_slashes cfg.callback_base_url +++ "/internal/callback/enqueue";
  sa_email = cfg.service_account_email;
})

-- What the code calls of Cloud Tasks and of timestamppb.
pub record Client : Type 0 where
  pub create_task : List Event → Task → Option Error
  pub timestamp_of : Instant → Timestamp
  pub close : List Event → Option Error

abbrev status_error : String → List String
status_error reason = "status:error" ∷ reason ∷ []

module _ (env : Env) (codec : Codec) (client : Client) (s : CloudTasksScheduler) where
  unfoldable pub create_task : Task → M (Option Error)
  unfolding emit
  create_task task w =
      let outcome = client.create_task w.history task in
      (outcome, (emit (task_created task outcome) w).1)

  unfoldable pub task_for : Job → List ℕ → Task
  task_for job body = record {
    parent = s.queue_path;
    name = s.queue_path +++ ("/tasks/" +++ job.id);
    schedule_time = client.timestamp_of job.run_at;
    url = s.callback_url;
    headers = ("Content-Type", "application/json") ∷ [];
    body = body;
    oidc = if s.sa_email == "" then none else some (s.sa_email, s.callback_url);
  }

  -- The rest of Schedule once the body is there.
  unfoldable pub submit : Job → Instant → List ℕ → M (Option Error)
  unfolding create_task task_for since send
  submit job start body = do
    outcome ← create_task (task_for job body)
    elim outcome [
      | some e ↦ (do
        send (incr "jack.schedule.count" (status_error "reason:create"))
        pure (some (wrapped "scheduler: failed to create task: " e "")))
      | none ↦ (do
        send (incr "jack.schedule.count" ("status:success" ∷ []))
        duration ← since env start
        send (distribution "jack.schedule.duration" duration [])
        pure none)
    ]

  unfoldable pub schedule : Job → M (Option Error)
  unfolding marshal_job submit now send
  schedule job = do
    start ← now env
    elim (marshal_job codec job) [
      | err e ↦ (do
        send (incr "jack.schedule.count" (status_error "reason:marshal"))
        pure (some (wrapped "scheduler: failed to marshal job: " e "")))
      | ok body ↦
          if ltb max_task_body_size (length body)
          then (do
            send (incr "jack.schedule.count" (status_error "reason:too_large"))
            pure (
                some (
                  text (
                    "scheduler: serialized job ("
                    +++ (show_ℕ (length body)
                        +++ (" bytes) exceeds Cloud Tasks limit ("
                            +++ (show_ℕ max_task_body_size +++ " bytes)")))))))
          else submit job start body
    ]

  abbrev pub result_of : Job → Option Error → EnqueueResult
  result_of job (some e) = record { job_id = ""; error = some e }
  result_of job none = record { job_id = job.id; error = none }

  -- The goroutine of the job at an index, and the entry that it writes.
  unfoldable pub run_one : List Job → ℕ → List EnqueueResult → M (List EnqueueResult)
  unfolding schedule
  run_one jobs i results = elim (get_elem? jobs i) [
    | none ↦ pure results
    | some job ↦ (do outcome ← schedule job; pure (set results i (result_of job outcome)))
  ]

  -- The goroutines in the order in which they run.
  unfoldable pub run_all : List Job → List ℕ → List EnqueueResult → M (List EnqueueResult)
  unfolding run_one
  run_all jobs [] results = pure results
  run_all jobs (i ∷ order) results = do
    results' ← run_one jobs i results
    run_all jobs order results'

  unfoldable pub schedule_bulk : (order : ℕ → List ℕ) → List Job → M (List EnqueueResult)
  unfolding run_all
  schedule_bulk order jobs =
      run_all jobs (order (length jobs))
        (replicate (length jobs) (record { job_id = ""; error = none }))

  -- Close
  unfoldable pub close : M (Option Error)
  unfolding close_connection
  close = close_connection to_tasks client.close

  abbrev pub cloud_tasks_scheduler : (order : ℕ → List ℕ) → Scheduler
  cloud_tasks_scheduler order = record {
    schedule = schedule;
    schedule_bulk = schedule_bulk order;
    close = close;
  }
