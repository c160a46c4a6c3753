-- ===== src/Jack/Accepted.antt =====
-- What has happened to a job when a process (cmd/jack/main.go) with Pub/Sub and Cloud Tasks answers with its ID.
use mathlib.Core.Path.{subst}
use mathlib.Core.Option.{some-injective}
use jack_service.Common.{ℕ, some, List, ◌≢◌, ◌∷◌, get_elem?, true, false, ◌≡◌, sym, ◌∙◌, ◌⊎◌, ok}
use jack_service.Proto.{BulkResult, EnqueueRequest, EnqueueResponse}
use jack_service.Queue.Contract.{BulkVouches, Vouches}
use jack_service.Queue.Adapter.{legacy_adapter}
use jack_service.Queue.PubSub.Bulk.{IsAdapter, legacy_adapter-IsAdapter, Delivered}
use jack_service.Queue.PubSub.Vouched.{pubsub_backend-Vouches, pubsub_backend-BulkVouches}
use jack_service.Scheduler.CloudTasks.Bulk.{RunsAll}
use jack_service.Scheduler.CloudTasks.Vouched.{schedule_bulk-BulkVouches}
use jack_service.Api.Server.Bulk.{enqueue_bulk}
use jack_service.Api.Server.Bulk.Vouched.{enqueue_bulk-accepted}
use jack_service.Jack.Assembled.{
  choose_backend-IsBackend, choose_scheduler-IsScheduler, start-Assembled,
}
use jack_service.Common.Text.{◌==◌}
use jack_service.World.{World}
use jack_service.Queue.{Job, Backend}
use jack_service.Queue.PubSub.{PubSubBackend, new_pubsub_backend}
use jack_service.Scheduler.{Scheduler}
use jack_service.Scheduler.CloudTasks.{CloudTasksScheduler, new_cloud_tasks_scheduler}
use jack_service.Scheduler.CloudTasks.Created.{Created, cloud_tasks_scheduler-Vouches}
use jack_service.Api.Server.{Libraries, Context, shadow_from_context}
use jack_service.Api.Server.Made.{IsJobOf}
use jack_service.Api.Server.Enqueue.{enqueue}
use jack_service.Api.Server.Accepted.{enqueue-accepted}
use jack_service.Config.{Config}
use jack_service.Jack.{Platform, Process, pubsub_config, tasks_config, start}
use jack_service.Jack.Chosen.{cloud_tasks_chosen, pubsub_chosen}

-- In a process with Pub/Sub and Cloud Tasks configured, a reply of Enqueue with a job ID is the one of a job that was
-- made of the request, and when the reply is given, either the message of the job has been published without an
-- error to the topic of its priority, or the task of the job has been created without an error, with a body within
-- the limit of Cloud Tasks. The bytes of the message are those of the legacy adapter.
pub enqueue-accounted :
    (platform : Platform) (cfg : Config) (w : World) (p : Process)
    → (start platform cfg w).0 ≡ ok p
    → (cfg.queue_backend == "pubsub") ≡ true
    → (cfg.cloud_tasks_project == "") ≡ false
    → (lib : Libraries) (ctx : Context) (q : EnqueueRequest) (v : World) (r : EnqueueResponse)
    → (enqueue lib p.runtime ctx q v).0 ≡ ok r
    → (b : PubSubBackend) × (s : CloudTasksScheduler) × (new_pubsub_backend platform.pubsub_client
          (pubsub_config platform cfg)
        ≡ ok b)
      × (new_cloud_tasks_scheduler platform.tasks_client (tasks_config platform cfg) ≡ ok s)
      × (b.adapter ≡ legacy_adapter platform.env platform.legacy_json)
      × (job : Job) × IsJobOf lib (shadow_from_context ctx) q job
      × (r.job_id ≡ job.id)
      × (let history = (enqueue lib p.runtime ctx q v).1.history in
          Delivered platform.env platform.pubsub b job history
          ⊎ Created platform.env platform.codec platform.tasks s job history)
enqueue-accounted platform cfg w p h published given lib ctx q v r answered =
    let a = start-Assembled platform cfg w p h in
    let (b, b_new, b_same, legacy) =
      pubsub_chosen platform cfg p.runtime.backend published a.chose_backend in
    let (s, s_new, s_same, _) =
      cloud_tasks_chosen platform cfg a.scheduler given a.chose_scheduler in
    let (job, made, id, accounted) =
      enqueue-accepted lib p.runtime (Delivered platform.env platform.pubsub b)
        (Created platform.env platform.codec platform.tasks s)
        (subst (λ (x : Backend). Vouches x.enqueue (Delivered platform.env platform.pubsub b))
          (sym b_same) (pubsub_backend-Vouches platform.env platform.pubsub b))
        (λ scheduler has.
          subst
            (λ (x : Scheduler).
              Vouches x.schedule (Created platform.env platform.codec platform.tasks s))
            (sym s_same ∙ some-injective _ _ (sym a.has_scheduler ∙ has))
            (cloud_tasks_scheduler-Vouches platform.env platform.codec platform.tasks s))
        ctx q v r answered in
    (b, s, b_new, s_new, sym legacy, job, made, id, accounted)

-- In a process with Pub/Sub and Cloud Tasks configured, in which every goroutine runs, a result of EnqueueBulk with a job
-- ID is the one of a job that was made of the request at its place, and when the reply is given, either the message
-- of the job has been published without an error to the topic of its priority, or the task of the job has been created
-- without an error.
pub enqueue_bulk-accounted :
    (platform : Platform) (cfg : Config) (w : World) (p : Process)
    → RunsAll platform.order
    → (start platform cfg w).0 ≡ ok p
    → (cfg.queue_backend == "pubsub") ≡ true
    → (cfg.cloud_tasks_project == "") ≡ false
    → (lib : Libraries) (ctx : Context) (q : EnqueueRequest) (qs : List EnqueueRequest) (v : World)
    → (results : List BulkResult) → (enqueue_bulk lib p.runtime ctx (q ∷ qs) v).0 ≡ ok results
    → (i : ℕ) (request : EnqueueRequest) (r : BulkResult) → get_elem? (q ∷ qs) i ≡ some request
    → get_elem? results i ≡ some r
    → r.job_id ≢ ""
    → (b : PubSubBackend) × (s : CloudTasksScheduler) × (new_pubsub_backend platform.pubsub_client
          (pubsub_config platform cfg)
        ≡ ok b)
      × (new_cloud_tasks_scheduler platform.tasks_client (tasks_config platform cfg) ≡ ok s)
      × (job : Job) × IsJobOf lib (shadow_from_context ctx) request job
      × (r.job_id ≡ job.id)
      × (let history = (enqueue_bulk lib p.runtime ctx (q ∷ qs) v).1.history in
          Delivered platform.env platform.pubsub b job history
          ⊎ Created platform.env platform.codec platform.tasks s job history)
enqueue_bulk-accounted platform cfg w p all h published given lib ctx q qs v results answered i
      request r at at' named =
    let a = start-Assembled platform cfg w p h in
    let (b, b_new, b_same, legacy) =
      pubsub_chosen platform cfg p.runtime.backend published a.chose_backend in
    let (s, s_new, s_same, _) =
      cloud_tasks_chosen platform cfg a.scheduler given a.chose_scheduler in
    let (job, made, id, accounted) =
      enqueue_bulk-accepted lib p.runtime (Delivered platform.env platform.pubsub b)
        (Created platform.env platform.codec platform.tasks s)
        (choose_backend-IsBackend platform cfg p.runtime.backend a.chose_backend)
        (subst
          (λ (x : Backend). BulkVouches x.enqueue_bulk (Delivered platform.env platform.pubsub b))
          (sym b_same)
          (pubsub_backend-BulkVouches platform.env platform.pubsub b
            (subst IsAdapter legacy (legacy_adapter-IsAdapter platform.env platform.legacy_json))))
        (λ scheduler has.
          rw (← (some-injective _ _ (sym a.has_scheduler ∙ has)))
            (choose_scheduler-IsScheduler platform cfg all a.scheduler a.chose_scheduler))
        (λ scheduler has.
          subst
            (λ (x : Scheduler).
              BulkVouches x.schedule_bulk (Created platform.env platform.codec platform.tasks s))
            (sym s_same ∙ some-injective _ _ (sym a.has_scheduler ∙ has))
            (schedule_bulk-BulkVouches platform.env platform.codec platform.tasks s platform.order))
        ctx q qs v results answered i request r at at' named in
    (b, s, b_new, s_new, job, made, id, accounted)
