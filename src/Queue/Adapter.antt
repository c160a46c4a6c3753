-- ===== src/Queue/Adapter.antt =====
-- internal/queue/adapter.go and internal/queue/adapter_legacy.go: the wire format of a Pub/Sub message.
-- The JSON text is a parameter: encoding/json on the struct.
use jack_service.Common.{ℕ, String, List, Option, none, some, Result}
use jack_service.Common.Int.{ℤ, pos}
use jack_service.Go.{Instant, Error}
use jack_service.World.{M, ◌>>=◌, pure, Env, now}
use jack_service.Queue.{Job, priority_text}

-- MessageAdapter
pub record MessageAdapter : Type 0 where
  pub marshal : Job → M (Result Error (List ℕ))

-- An instant is the same in UTC. `args` is a json.RawMessage.
pub record LegacyPubsubJob : Type 0 where
  pub id : String
  pub run_at : Instant
  pub queue : String
  pub args : List ℕ
  pub status : String
  pub created_at : Instant
  pub updated_at : Instant
  pub job_type : String
  pub published_at : Option Instant
  pub last_error : Option String
  pub error_count : ℤ
  pub parent_id : Option String

-- The struct that `Marshal` fills at the time `now`.
unfoldable pub legacy_message : Job → Instant → LegacyPubsubJob
unfolding priority_text
legacy_message job time = record {
  id = job.id;
  run_at = job.run_at;
  queue = priority_text job.priority;
  args = job.payload;
  status = "not_published";
  created_at = job.created_at;
  updated_at = job.created_at;
  job_type = job.kind;
  published_at = some time;
  last_error = none;
  error_count = pos 0;
  parent_id = none;
}

module _ (env : Env) (json_marshal : LegacyPubsubJob → Result Error (List ℕ)) where
  unfoldable pub legacy_marshal : Job → M (Result Error (List ℕ))
  unfolding now legacy_message
  legacy_marshal job = do time ← now env; pure (json_marshal (legacy_message job time))

  abbrev pub legacy_adapter : MessageAdapter
  legacy_adapter = record { marshal = legacy_marshal }
