-- ===== src/Examples/Processes.antt =====
-- The theorems on a whole process at concrete inputs: a store in a bucket, and Cloud Tasks.
use jack_service.Common.{String, some, err, if◌then◌else◌}
use jack_service.Common.Int.{pos}
use jack_service.Common.Text.{◌==◌}
use jack_service.Go.{text}
use jack_service.Proto.{JobType, CreateJobTypeRequest, queue_low}
use jack_service.World.{World}
use jack_service.Queue.{default_config}
use jack_service.Queue.Noop.{noop_backend}
use jack_service.Storage.{Store}
use jack_service.Storage.Gcs
use jack_service.Storage.Gcs.{gcs_store}
use jack_service.Scheduler.CloudTasks.{CloudTasksScheduler, cloud_tasks_scheduler}
use jack_service.Api.Admin.{create_job_type}
use jack_service.Config.{Config, load}
use jack_service.Jack.{Process, server_config}
use jack_service.Jack.Runs.{list_producers_call, handle}
use jack_service.Examples.{env, services, with_crm}
use jack_service.Examples.Queues.{codec, tasks_client, count_from}
use jack_service.Examples.Stores.{open_bucket}
use jack_service.Examples.Server.{lib}
use jack_service.Examples.Started.{platform}

abbrev pub environment : String → String
environment key =
    if key == "GCS_BUCKET"
    then "bucket"
    else if key == "CLOUD_TASKS_PROJECT"
    then "jack"
    else if key == "CALLBACK_BASE_URL"
    then "https://jack/"
    else ""

abbrev pub cfg : Config
cfg = load environment (λ s. err (text "no duration"))

abbrev pub store : Store
store = gcs_store env services open_bucket ""

abbrev pub tasks : CloudTasksScheduler
tasks = record {
  queue_path = "projects/jack/locations//queues/";
  callback_url = "https://jack/internal/callback/enqueue";
  sa_email = "";
}

abbrev pub process : Process
process = record {
  runtime = record {
    store = some store;
    backend = noop_backend default_config;
    scheduler = some (cloud_tasks_scheduler env codec tasks_client tasks (count_from 0));
    config = server_config platform cfg;
  };
  admin_store = store;
  callback_backend = noop_backend default_config;
}

abbrev mail_type : CreateJobTypeRequest
mail_type = record {
  producer_id = "prod_1";
  name = "mail";
  queue = queue_low;
  max_retries = pos 7;
  description = "";
}

abbrev stored_mail_type : JobType
stored_mail_type = record {
  producer_id = "prod_1";
  name = "mail";
  queue = queue_low;
  max_retries = pos 7;
  description = "";
  created_at = some (record { seconds = pos 0; nanos = pos 0 });
  updated_at = some (record { seconds = pos 0; nanos = pos 0 });
}

-- Between the two, a list of the producers is asked for.
abbrev listed : World
listed =
    handle lib platform cfg process list_producers_call
      (create_job_type env store mail_type with_crm).1
