-- ===== src/Config.antt =====
-- internal/config/config.go: the configuration of the service.
use jack_service.Common.{◌*◌, String, Bool, Result}
use jack_service.Common.Int.{ℤ, pos}
use jack_service.Go.{Duration, Error}
use jack_service.Cenv.Names
use jack_service.Cenv.{get, get_or_default, get_int_or_default, get_bool, get_duration_or_default}

pub record Config : Type 0 where
  pub grpc_port : ℤ
  pub datadog_statsd_addr : String
  pub gcs_bucket : String
  pub gcs_prefix : String
  pub queue_backend : String
  pub pubsub_project : String
  pub pubsub_topic_high : String
  pub pubsub_topic_medium : String
  pub pubsub_topic_low : String
  pub pubsub_topic_immediate : String
  pub cloud_tasks_project : String
  pub cloud_tasks_location : String
  pub cloud_tasks_queue : String
  pub callback_base_url : String
  pub cloud_tasks_service_account : String
  pub schedule_threshold : Duration
  pub legacy_payload_queue_routing : Bool

abbrev pub minute : Duration
minute = pos (60 * 1000000000)

-- Load, which has no error to report.
unfoldable pub load :
    (environ : String → String) (parse_duration : String → Result Error Duration) → Config
unfolding get get_or_default get_int_or_default get_bool get_duration_or_default
load environ parse_duration = record {
  datadog_statsd_addr = get environ Names.datadog_statsd_addr;
  grpc_port = get_int_or_default environ Names.grpc_port (pos 50051);
  gcs_bucket = get environ Names.gcs_bucket;
  gcs_prefix = get environ Names.gcs_prefix;
  queue_backend = get_or_default environ Names.queue_backend "noop";
  pubsub_project = get environ Names.pubsub_project;
  pubsub_topic_high = get environ Names.pubsub_topic_high;
  pubsub_topic_medium = get environ Names.pubsub_topic_medium;
  pubsub_topic_low = get environ Names.pubsub_topic_low;
  pubsub_topic_immediate = get environ Names.pubsub_topic_immediate;
  cloud_tasks_project = get environ Names.cloud_tasks_project;
  cloud_tasks_location = get environ Names.cloud_tasks_location;
  cloud_tasks_queue = get environ Names.cloud_tasks_queue;
  callback_base_url = get environ Names.callback_base_url;
  cloud_tasks_service_account = get environ Names.cloud_tasks_service_account;
  schedule_threshold =
      get_duration_or_default environ parse_duration Names.schedule_threshold minute;
  legacy_payload_queue_routing = get_bool environ Names.legacy_payload_queue_routing;
}
