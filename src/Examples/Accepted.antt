-- ===== src/Examples/Accepted.antt =====
-- The theorems on a process with Cloud Tasks and Pub/Sub at concrete inputs.
use jack_service.JobId.Base62.{encode_base62}
use jack_service.JobId.Checksum.{crc16}
use jack_service.Common.{
  ◌≢◌, sym, ap, ◌∙◌, false, String, ◌≡◌, ◌⊎◌, List, Option, ◌++◌, refl, [], ◌∷◌, none, some, ok,
}
use jack_service.Common.Text.{◌==◌}
use jack_service.Go.{to_int32, Error, sub_time}
use jack_service.Jack.Accepted.{enqueue_bulk-accounted, enqueue-accounted}
use jack_service.Proto.{BulkResult, EnqueueRequest, EnqueueResponse}
use jack_service.Api.Server.Bulk.{enqueue_bulk}
use jack_service.Examples.Queues.{in_order-RunsAll, client, codec, tasks_client, count_from}
use jack_service.Examples.Processes.{cfg, store, tasks}
use jack_service.Common.Int.{pos}
use jack_service.Common.Map.{lookup}
use jack_service.World.{
  Event, pure, grpc_stopped, http_shut_down, serving_status_set, to_storage, to_pubsub, to_tasks,
}
use jack_service.Queue.{Job, priority_medium}
use jack_service.Queue.Adapter.{legacy_marshal, legacy_adapter}
use jack_service.Queue.PubSub.{PubSubBackend, pubsub_backend, new_pubsub_backend}
use jack_service.Queue.PubSub.Bulk.{Delivered}
use jack_service.Scheduler.CloudTasks.Created.{Created}
use jack_service.Api.Server.Enqueue.{enqueue}
use jack_service.Api.Server.Made.{IsJobOf}
use jack_service.Storage.Gcs.{gcs_store}
use jack_service.Scheduler.CloudTasks.{
  CloudTasksScheduler, new_cloud_tasks_scheduler, cloud_tasks_scheduler,
}
use jack_service.JobId.{generate}
use jack_service.Api.Server.{shadow_from_context}
use jack_service.Config.{Config, load}
use jack_service.Jack.{Process, pubsub_config, tasks_config, server_config, start}
use jack_service.Jack.Lifetime.{listen, serve_until_signal, main}
use jack_service.Jack.Lifetime.Closings.{closings}
use jack_service.Jack.Lifetime.Closed.{main-Closed}
use jack_service.Examples.{env, sha256, nothing_yet, with_crm, mail_request}
use jack_service.Examples.Server.{lib, ctx}
use jack_service.Examples.Started.{platform}
use jack_service.Queue.PubSub
use jack_service.Storage.Gcs

-- With Pub/Sub as well.
abbrev cfg_pubsub : Config
cfg_pubsub = record cfg {
  queue_backend = "pubsub";
  pubsub_project = "jack";
  pubsub_topic_medium = "jobs";
}

abbrev pubsub : PubSubBackend
pubsub = record {
  topics = (priority_medium, "jobs") ∷ [];
  adapter = legacy_adapter env (λ j. ok []);
}

abbrev process_pubsub : Process
process_pubsub = record {
  runtime = record {
    store = some store;
    backend = pubsub_backend env client pubsub;
    scheduler = some (cloud_tasks_scheduler env codec tasks_client tasks (count_from 0));
    config = server_config platform cfg_pubsub;
  };
  admin_store = store;
  callback_backend = pubsub_backend env client pubsub;
}

-- A job that is queued at once.
abbrev now_request : EnqueueRequest
now_request = record mail_request { run_at = none }

abbrev reply : EnqueueResponse
reply = record {
  job_id = (generate sha256 env "prod_1" "mail" with_crm).0;
  error_messages = "unregistered job_type: mail (producer: prod_1)" ∷ [];
  correlation_id = "c1";
}

enqueue-accounted_example :
    (b : PubSubBackend) × (s : CloudTasksScheduler) × (new_pubsub_backend none
        (pubsub_config platform cfg_pubsub)
      ≡ ok b)
    × (new_cloud_tasks_scheduler none (tasks_config platform cfg_pubsub) ≡ ok s)
    × (b.adapter ≡ legacy_adapter env (λ j. ok []))
    × (job : Job) × IsJobOf lib (shadow_from_context ctx) now_request job
    × (reply.job_id ≡ job.id)
    × (let history = (enqueue lib process_pubsub.runtime ctx now_request with_crm).1.history in
        Delivered env client b job history ⊎ Created env codec tasks_client s job history)
unfolding start load new_pubsub_backend enqueue generate lookup sub_time PubSub.enqueue
    Gcs.get_job_type Gcs.get_producer legacy_marshal
enqueue-accounted_example =
    enqueue-accounted platform cfg_pubsub nothing_yet process_pubsub refl refl refl lib ctx
      now_request with_crm reply refl

-- The process gets its signal at once.
main-Closed_example :
    (p : Process) × ((start platform cfg_pubsub nothing_yet).0 ≡ ok p)
    × (let served =
          (listen platform cfg_pubsub (start platform cfg_pubsub nothing_yet).1).1.history in
        (later : List Event) × (e : Option Error) × ((main platform cfg_pubsub
            (λ q. pure tt)
            nothing_yet).1.history
          ≡ later ++ grpc_stopped ∷ http_shut_down e ∷ serving_status_set false ∷ served)
        × (closings later ≡ to_storage ∷ to_pubsub ∷ to_tasks ∷ []))
unfolding start load main serve_until_signal new_pubsub_backend
main-Closed_example = main-Closed platform cfg_pubsub (λ q. pure tt) nothing_yet refl

abbrev first_result : BulkResult
first_result = record {
  index = pos 0;
  job_id = reply.job_id;
  error = "";
  error_messages = reply.error_messages;
  correlation_id = reply.correlation_id;
  reason = "";
}

given : (s : String) → (s == "") ≡ false → s ≢ ""
given s h e = absurd (cc (sym h ∙ ap (λ x. x == "") e))

enqueue_bulk-accounted_example :
    (b : PubSubBackend) × (s : CloudTasksScheduler) × (new_pubsub_backend none
        (pubsub_config platform cfg_pubsub)
      ≡ ok b)
    × (new_cloud_tasks_scheduler none (tasks_config platform cfg_pubsub) ≡ ok s)
    × (job : Job) × IsJobOf lib (shadow_from_context ctx) now_request job
    × (reply.job_id ≡ job.id)
    × (let history =
          (enqueue_bulk lib process_pubsub.runtime ctx (now_request ∷ []) with_crm).1.history in
        Delivered env client b job history ⊎ Created env codec tasks_client s job history)
unfolding start load new_pubsub_backend enqueue_bulk generate lookup sub_time PubSub.enqueue_bulk
    Gcs.get_job_type Gcs.get_producer legacy_marshal to_int32 encode_base62 crc16
enqueue_bulk-accounted_example =
    enqueue_bulk-accounted platform cfg_pubsub nothing_yet process_pubsub in_order-RunsAll refl refl
      refl lib ctx now_request [] with_crm (first_result ∷ []) refl 0 now_request first_result refl
      refl (given reply.job_id refl)
