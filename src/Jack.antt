-- ===== src/Jack.antt =====
-- cmd/jack/main.go: how the process puts the servers together, and which of them a request goes to. The errors
-- of the client constructors are parameters; log.Fatalf is an error.
pub mod Assembled
pub mod Started
pub mod Registered
pub mod Delivered
pub mod Chosen
pub mod Runs
pub mod Accepted
pub mod Lifetime
use text.Mathlib.Text.{starts_with}
use jack_service.Common.{
  eqb, ◌&&◌, ℕ, String, Bool, List, Option, none, some, Result, ok, err, if◌then◌else◌,
}
use jack_service.Common.Text.{◌==◌}
use jack_service.Go.{Error}
use jack_service.World.{World, Event, M, ◌>>=◌, pure, Env}
use jack_service.Queue.{Backend, default_config}
use jack_service.Queue.Adapter.{LegacyPubsubJob, legacy_adapter}
use jack_service.Queue.Noop.{noop_backend}
use jack_service.Queue.PubSub
use jack_service.Queue.PubSub.{PubSubConfig, new_pubsub_backend, pubsub_backend}
use jack_service.Scheduler.{Scheduler, Codec, noop_scheduler}
use jack_service.Scheduler.CloudTasks
use jack_service.Scheduler.CloudTasks.{
  CloudTasksConfig, new_cloud_tasks_scheduler, cloud_tasks_scheduler,
}
use jack_service.Storage.{Store, Services}
use jack_service.Storage.Memory.{memory_store}
use jack_service.Storage.Bucket.{Bucket}
use jack_service.Storage.Gcs.{new_gcs_store}
use jack_service.Api.Server.{Server, ServerConfig, default_server_config}
use jack_service.Api.Http.{HttpRequest, Served, grpc}
use jack_service.Api.Callback.{serve_mux}
use jack_service.Config.{Config}

-- What the process uses that is not in the repository, and how its client constructors end.
pub record Platform : Type 0 where
  pub env : Env
  pub services : Services
  pub bucket : Bucket
  pub statsd_client : Option Error
  pub close_statsd : List Event → Option Error
  pub storage_client : Option Error
  pub pubsub : PubSub.Client
  pub pubsub_client : Option Error
  pub legacy_json : LegacyPubsubJob → Result Error (List ℕ)
  pub tasks : CloudTasks.Client
  pub tasks_client : Option Error
  pub codec : Codec
  pub order : ℕ → List ℕ
  pub listen : Option Error
  pub shut_down_http : List Event → Option Error

-- What main has made when it begins to listen: the runtime server, the store of the admin server, and the
-- backend of the callback handler.
pub record Process : Type 0 where
  pub runtime : Server
  pub admin_store : Store
  pub callback_backend : Backend

module _ (platform : Platform) (cfg : Config) where
  open platform use {env}

  -- The error of the statsd client, if there is to be one.
  unfoldable pub connect_statsd : Option Error
  connect_statsd = if cfg.datadog_statsd_addr == "" then none else platform.statsd_client

  unfoldable pub choose_store : M (Result Error Store)
  unfolding new_gcs_store
  choose_store =
      if cfg.gcs_bucket == ""
      then pure (ok (memory_store env platform.services))
      else new_gcs_store env platform.services platform.bucket cfg.gcs_prefix
          platform.storage_client

  abbrev pub pubsub_config : PubSubConfig
  pubsub_config = record {
    project = cfg.pubsub_project;
    high_topic = cfg.pubsub_topic_high;
    medium_topic = cfg.pubsub_topic_medium;
    low_topic = cfg.pubsub_topic_low;
    immediate_topic = cfg.pubsub_topic_immediate;
    adapter = some (legacy_adapter env platform.legacy_json);
  }

  unfoldable pub choose_backend : Result Error Backend
  unfolding new_pubsub_backend
  choose_backend =
      if cfg.queue_backend == "pubsub"
      then elim (new_pubsub_backend platform.pubsub_client pubsub_config) [
        | err e ↦ err e
        | ok b ↦ ok (pubsub_backend env platform.pubsub b)
      ]
      else ok (noop_backend default_config)

  abbrev pub tasks_config : CloudTasksConfig
  tasks_config = record {
    project = cfg.cloud_tasks_project;
    location = cfg.cloud_tasks_location;
    queue = cfg.cloud_tasks_queue;
    callback_base_url = cfg.callback_base_url;
    service_account_email = cfg.cloud_tasks_service_account;
  }

  unfoldable pub choose_scheduler : Result Error Scheduler
  unfolding new_cloud_tasks_scheduler
  choose_scheduler =
      if cfg.cloud_tasks_project == ""
      then ok noop_scheduler
      else elim (new_cloud_tasks_scheduler platform.tasks_client tasks_config) [
        | err e ↦ err e
        | ok s ↦ ok (cloud_tasks_scheduler env platform.codec platform.tasks s platform.order)
      ]

  abbrev pub server_config : ServerConfig
  server_config = record default_server_config {
    schedule_threshold = cfg.schedule_threshold;
    legacy_payload_queue_routing = cfg.legacy_payload_queue_routing;
  }

  -- The servers from their parts: the first error ends the process.
  unfoldable pub assemble :
      Result Error Store → Result Error Backend → Result Error Scheduler → Result Error Process
  assemble (err e) backend scheduler = err e
  assemble (ok store) (err e) scheduler = err e
  assemble (ok store) (ok backend) (err e) = err e
  assemble (ok store) (ok backend) (ok scheduler) = ok (record {
    runtime = record {
      store = some store;
      backend = backend;
      scheduler = some scheduler;
      config = server_config;
    };
    admin_store = store;
    callback_backend = backend;
  })

  unfoldable pub start : M (Result Error Process)
  unfolding connect_statsd choose_store choose_backend choose_scheduler assemble
  start = elim connect_statsd [
    | some e ↦ pure (err e)
    | none ↦ (do store ← choose_store; pure (assemble store choose_backend choose_scheduler))
  ]

  -- The handler of the listener: gRPC goes to the gRPC server, and all else to the multiplexer.
  unfoldable pub serve : Process → HttpRequest → M Served
  unfolding serve_mux
  serve p r =
      if eqb r.proto_major 2 && starts_with r.content_type "application/grpc"
      then pure grpc
      else serve_mux env platform.codec p.callback_backend r
