-- ===== src/Examples.antt =====
-- Data for the tests: an environment, services, requests and jobs.
pub mod Ids
pub mod Stores
pub mod Buckets
pub mod Queues
pub mod Server
pub mod Callbacks
pub mod Started
pub mod Processes
pub mod Runs
pub mod Accepted
pub mod Admin
use jack_service.Common.{
  ℕ, zero, suc, ◌≡◌, refl, Bool, true, false, String, List, [], ◌∷◌, Option, none, some, Result, ok,
  err, All, arith, replicate, length, length-replicate,
}
use jack_service.Common.Int.{pos}
use jack_service.Common.Map.{values}
use jack_service.Go.{Instant, Error, text}
use jack_service.Proto.{Timestamp, Producer, JobType, EnqueueRequest, queue_high}
use jack_service.World.{World, Env}
use jack_service.JobId.Division.{IsByte}
use jack_service.JobId.Fields.{IsSum256, IsRandom}
use jack_service.Queue.{Job, priority_high, priority_low}
use jack_service.Queue.Adapter.{MessageAdapter}
use jack_service.Storage.{Services}

-- The clock stands still, and every random byte is 7.
abbrev pub env : Env
env = record { clock = λ history. pos 1700000000000000000; entropy = λ history n. replicate n 7 }

abbrev pub sha256 : List ℕ → List ℕ
sha256 bytes = replicate 32 1

abbrev pub nothing_yet : World
nothing_yet = record { history = []; producers = []; job_types = [] }

abbrev pub services : Services
services = record {
  timestamp_of = λ t. record { seconds = pos 0; nanos = pos 0 };
  range_producers = values;
  range_job_types = values;
}

All-replicate : (n b : ℕ) → IsByte b → All IsByte (replicate n b)
All-replicate zero b h = tt
All-replicate (suc n) b h = (h, All-replicate n b h)

pub sha256-IsSum256 : IsSum256 sha256
sha256-IsSum256 = record {
  as_long = λ bytes. length-replicate {A = ℕ} 32 1;
  bytes = λ bytes. All-replicate 32 1 (omega arith);
}

pub env-IsRandom : IsRandom env
env-IsRandom = record {
  as_long = λ history n. length-replicate {A = ℕ} n 7;
  bytes = λ history n. All-replicate n 7 (omega arith);
}

abbrev pub crm : Producer
crm = record {
  producer_id = "prod_1";
  name = "crm";
  description = "";
  rate_limit_rps = pos 1000;
  created_at = none;
  updated_at = none;
}

abbrev pub mails : JobType
mails = record {
  producer_id = "prod_1";
  name = "mail";
  queue = queue_high;
  max_retries = pos 5;
  description = "";
  created_at = none;
  updated_at = none;
}

-- A world with that producer.
abbrev pub with_crm : World
with_crm = record nothing_yet { producers = ("prod_1", crm) ∷ [] }

abbrev pub later : Timestamp
later = record { seconds = pos 1700000600; nanos = pos 0 }

abbrev pub mail_request : EnqueueRequest
mail_request = record {
  producer_id = "prod_1";
  job_type = "mail";
  payload = 1 ∷ 2 ∷ [];
  run_at = some later;
  trace_id = "";
  correlation_id = "c1";
}

abbrev pub bad_request : EnqueueRequest
bad_request = record mail_request { job_type = ""; correlation_id = "c2" }

abbrev pub mail_job : Job
mail_job = record {
  id = "pjob_1";
  producer_id = "prod_1";
  kind = "mail";
  priority = priority_high;
  payload = 1 ∷ 2 ∷ [];
  run_at = pos 5;
  trace_id = "";
  max_retries = pos 5;
  created_at = pos 4;
  shadow = false;
}

-- An adapter that writes the payload alone.
abbrev pub plain_adapter : MessageAdapter
plain_adapter = record { marshal = λ job w. (ok job.payload, w) }
