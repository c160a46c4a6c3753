-- ===== src/Jack/Runs.antt =====
-- A process (cmd/jack/main.go) while it listens: the calls of the two registered gRPC services, and HTTP requests.
pub mod Apart
pub mod Grown
pub mod Administered
use jack_service.Common.{String, List}
use jack_service.Proto.{EnqueueRequest, CreateProducerRequest, CreateJobTypeRequest}
use jack_service.World.{World}
use jack_service.Api.Admin
use jack_service.Api.Http.{HttpRequest}
use jack_service.Api.Server.{Libraries, Context}
use jack_service.Api.Server.Enqueue.{enqueue}
use jack_service.Api.Server.Bulk.{enqueue_bulk}
use jack_service.Config.{Config}
use jack_service.Jack.{Platform, Process, serve}

pub data Call : Type 0 where
  enqueue_call : Context → EnqueueRequest → Call
  enqueue_bulk_call : Context → List EnqueueRequest → Call
  create_producer_call : CreateProducerRequest → Call
  get_producer_call : String → Call
  list_producers_call : Call
  create_job_type_call : CreateJobTypeRequest → Call
  list_job_types_call : String → Call
  http_call : HttpRequest → Call

module _ (lib : Libraries) (platform : Platform) (cfg : Config) (p : Process) where
  -- The world once the call has been answered.
  unfoldable pub handle : Call → World → World
  unfolding enqueue enqueue_bulk Admin.create_producer Admin.get_producer Admin.list_producers
      Admin.create_job_type Admin.list_job_types serve
  handle (enqueue_call ctx req) w = (enqueue lib p.runtime ctx req w).1
  handle (enqueue_bulk_call ctx reqs) w = (enqueue_bulk lib p.runtime ctx reqs w).1
  handle (create_producer_call req) w = (Admin.create_producer platform.env p.admin_store req w).1
  handle (get_producer_call id) w = (Admin.get_producer platform.env p.admin_store id w).1
  handle list_producers_call w = (Admin.list_producers platform.env p.admin_store w).1
  handle (create_job_type_call req) w = (Admin.create_job_type platform.env p.admin_store req w).1
  handle (list_job_types_call id) w = (Admin.list_job_types platform.env p.admin_store id w).1
  handle (http_call r) w = (serve platform cfg p r w).1

  -- The calls of a run, one after the other.
  pub data Reaches : World → World → Type 0 where
    here : {w : World} → Reaches w w
    answer : {u v : World} (c : Call) → Reaches (handle c u) v → Reaches u v
