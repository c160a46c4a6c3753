-- ===== src/Cenv/Names.antt =====
-- internal/cenv/cenv.go: the names of the environment variables.
use jack_service.Common.{String}

abbrev pub grpc_port : String
grpc_port = "GRPC_PORT"

abbrev pub gcs_bucket : String
gcs_bucket = "GCS_BUCKET"

abbrev pub gcs_prefix : String
gcs_prefix = "GCS_PREFIX"

abbrev pub queue_backend : String
queue_backend = "QUEUE_BACKEND"

abbrev pub datadog_statsd_addr : String
datadog_statsd_addr = "DATADOG_STATSD_ADDR"

abbrev pub pubsub_project : String
pubsub_project = "PUBSUB_PROJECT"

abbrev pub pubsub_topic_high : String
pubsub_topic_high = "PUBSUB_TOPIC_HIGH"

abbrev pub pubsub_topic_medium : String
pubsub_topic_medium = "PUBSUB_TOPIC_MEDIUM"

abbrev pub pubsub_topic_low : String
pubsub_topic_low = "PUBSUB_TOPIC_LOW"

abbrev pub pubsub_topic_immediate : String
pubsub_topic_immediate = "PUBSUB_TOPIC_IMMEDIATE"

abbrev pub cloud_tasks_project : String
cloud_tasks_project = "CLOUD_TASKS_PROJECT"

abbrev pub cloud_tasks_location : String
cloud_tasks_location = "CLOUD_TASKS_LOCATION"

abbrev pub cloud_tasks_queue : String
cloud_tasks_queue = "CLOUD_TASKS_QUEUE"

abbrev pub callback_base_url : String
callback_base_url = "CALLBACK_BASE_URL"

abbrev pub cloud_tasks_service_account : String
cloud_tasks_service_account = "CLOUD_TASKS_SERVICE_ACCOUNT"

abbrev pub schedule_threshold : String
schedule_threshold = "SCHEDULE_THRESHOLD"

abbrev pub legacy_payload_queue_routing : String
legacy_payload_queue_routing = "LEGACY_PAYLOAD_QUEUE_ROUTING"
