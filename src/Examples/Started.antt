-- ===== src/Examples/Started.antt =====
-- The theorems on a started server at concrete inputs.
use jack_service.Common.{◌≡◌, refl, true, List, [], ◌∷◌, none, some, ok, err, if◌then◌else◌}
use jack_service.Common.Int.{ℤ, pos, negsuc}
use jack_service.Common.Text.{◌==◌}
use jack_service.Go.{text, sub_time, show_ℕ}
use jack_service.Proto.{EnqueueResponse, BulkResult}
use jack_service.Queue.{Backend}
use jack_service.Api.Server.{shadow_from_context, Server}
use jack_service.Api.Server.Enqueue.{enqueue}
use jack_service.Api.Server.Bulk.{rejection, enqueue_bulk}
use jack_service.Api.Server.Bulk.Results.{Described}
use jack_service.Storage.Memory.{memory_store}
use jack_service.Queue.{default_config}
use jack_service.Queue.Noop.{noop_backend}
use jack_service.Scheduler.{noop_scheduler}
use jack_service.Cenv.Numbers.{get_int-show_ℕ}
use jack_service.Cenv.{get, get_int, get_int_or_default, trim_space, atoi, parse_bool}
use jack_service.Config.{Config, load, minute}
use jack_service.Jack.{Platform, Process, server_config, start}
use jack_service.Jack.Started.{start-Described, start_ignores_backend}
use jack_service.Examples.{env, services, nothing_yet, with_crm, mail_request, bad_request, later}
use jack_service.Examples.Queues.{client, codec, tasks_client, count_from, in_order-RunsAll}
use jack_service.Examples.Stores.{open_bucket}
use jack_service.Examples.Server.{lib, ctx}

trim_space_test : trim_space "  a b\t\n" ≡ "a b"
unfolding trim_space
trim_space_test = refl

atoi_test : (atoi "50051" ≡ (pos 50051, none)) × (atoi "-7" ≡ (negsuc 6, none))
unfolding atoi
atoi_test = (refl, refl)

atoi_large_test : (atoi "9223372036854775808").0 ≡ pos 9223372036854775807
unfolding atoi
atoi_large_test = refl

parse_bool_test : (parse_bool "True").0 ≡ true
unfolding parse_bool
parse_bool_test = refl

get_int-show_ℕ_example :
    (get_int (λ key. " 8080 ") "GRPC_PORT" ≡ pos 8080)
    × ((d : ℤ) → get_int_or_default (λ key. " 8080 ") "GRPC_PORT" d ≡ pos 8080)
unfolding get show_ℕ
get_int-show_ℕ_example = get_int-show_ℕ (λ key. " 8080 ") "GRPC_PORT" 8080 refl

-- An environment with nothing but a threshold of one minute.
abbrev cfg : Config
cfg =
    load (λ key. if key == "SCHEDULE_THRESHOLD" then "1m" else "")
      (λ s. if s == "1m" then ok minute else err (text "no duration"))

abbrev pub platform : Platform
platform = record {
  env = env;
  services = services;
  bucket = open_bucket;
  statsd_client = none;
  close_statsd = λ history. none;
  listen = none;
  shut_down_http = λ history. none;
  storage_client = none;
  pubsub = client;
  pubsub_client = none;
  legacy_json = λ j. ok [];
  tasks = tasks_client;
  tasks_client = none;
  codec = codec;
  order = count_from 0;
}

abbrev started : Server
started = record {
  store = some (memory_store env services);
  backend = noop_backend default_config;
  scheduler = some noop_scheduler;
  config = server_config platform cfg;
}

abbrev process : Process
process = record {
  runtime = started;
  admin_store = memory_store env services;
  callback_backend = noop_backend default_config;
}

start-Described_example :
    (results : List BulkResult) × ((enqueue_bulk lib started ctx
        (mail_request ∷ bad_request ∷ [])
        with_crm).0
      ≡ ok results)
    × Described lib (shadow_from_context ctx) started 0 (mail_request ∷ bad_request ∷ []) results
unfolding start load
start-Described_example =
    start-Described platform cfg nothing_yet process in_order-RunsAll refl lib ctx mail_request
      (bad_request ∷ []) with_crm

start_ignores_backend_example :
    ((r : EnqueueResponse) × ((enqueue lib started ctx mail_request with_crm).0 ≡ ok r))
    × ((b : Backend)
        → enqueue lib (record started { backend = b }) ctx mail_request with_crm
          ≡ enqueue lib started ctx mail_request with_crm)
unfolding start load rejection sub_time
start_ignores_backend_example =
    start_ignores_backend platform cfg nothing_yet process refl refl refl lib ctx mail_request later
      with_crm refl refl (λ history. refl)
