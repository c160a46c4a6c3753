-- ===== src/Examples/Server.antt =====
-- The theorems on the server at concrete inputs.
use jack_service.Common.{◌≡◌, refl, List, [], ◌∷◌, none, some, ok, err}
use mathlib.Core.Option.{some-injective}
use jack_service.Common.Int.{pos}
use jack_service.Go.{text, sub_time}
use jack_service.Proto.{BulkResult, EnqueueResponse}
use jack_service.Queue.{Backend, default_config}
use jack_service.Queue.Noop.{noop_backend}
use jack_service.Queue.Noop.Answers.{noop_backend-IsBackend}
use jack_service.Scheduler.{Scheduler, IsScheduler, noop_scheduler}
use jack_service.Scheduler.Dropped.{noop_scheduler-IsScheduler}
use jack_service.Storage.Memory.{memory_store}
use jack_service.Api.Server.{shadow_from_context, Server, Libraries, Context, default_server_config}
use jack_service.Api.Server.Enqueue.{enqueue}
use jack_service.Api.Server.Outcome.{OutcomeOf, enqueue-OutcomeOf}
use jack_service.Api.Server.Dropping.{enqueue_ignores_backend}
use jack_service.Api.Server.Bulk.{Slot, rejection, enqueue_bulk}
use jack_service.Api.Server.Bulk.Results.{Described}
use jack_service.Api.Server.Bulk.Answered.{enqueue_bulk-Described}
use jack_service.Examples.{
  env, sha256, services, with_crm, later, mail_request, bad_request, mail_job,
}

abbrev pub lib : Libraries
lib = record {
  env = env;
  sha256 = sha256;
  as_time = λ t. pos 1700000600000000000;
  payload_queue = λ bytes. err (text "no JSON");
}

abbrev server : Server
server = record {
  store = some (memory_store env services);
  backend = noop_backend default_config;
  scheduler = some noop_scheduler;
  config = record default_server_config { schedule_threshold = pos 60000000000 };
}

abbrev pub ctx : Context
ctx = record { shadow_values = some ("true" ∷ []) }

enqueue-OutcomeOf_example :
    OutcomeOf lib server ctx mail_request (enqueue lib server ctx mail_request with_crm).0
enqueue-OutcomeOf_example = enqueue-OutcomeOf lib server ctx mail_request with_crm

the_scheduler : (scheduler : Scheduler) → server.scheduler ≡ some scheduler → IsScheduler scheduler
the_scheduler scheduler h =
    let same : noop_scheduler ≡ scheduler = some-injective _ _ h in
    rw (← same) noop_scheduler-IsScheduler

enqueue_bulk-Described_example :
    (results : List BulkResult) × ((enqueue_bulk lib server ctx
        (mail_request ∷ bad_request ∷ [])
        with_crm).0
      ≡ ok results)
    × Described lib (shadow_from_context ctx) server 0 (mail_request ∷ bad_request ∷ []) results
enqueue_bulk-Described_example =
    enqueue_bulk-Described lib server ctx mail_request (bad_request ∷ []) with_crm
      (noop_backend-IsBackend default_config) the_scheduler

abbrev good_slot : Slot
good_slot = record { job = some mail_job; error = ""; reason = ""; warnings = [] }

abbrev bad_slot : Slot
bad_slot = record {
  job = none;
  error = "job_type is required";
  reason = "validation_error";
  warnings = [];
}

enqueue_ignores_backend_example :
    ((r : EnqueueResponse) × ((enqueue lib server ctx mail_request with_crm).0 ≡ ok r))
    × ((b : Backend)
        → enqueue lib (record server { backend = b }) ctx mail_request with_crm
          ≡ enqueue lib server ctx mail_request with_crm)
unfolding rejection sub_time
enqueue_ignores_backend_example =
    enqueue_ignores_backend lib server ctx mail_request later with_crm refl refl refl refl
      (λ history. refl)
