-- ===== src/Queue/Noop.antt =====
-- internal/queue/noop.go: the backend that accepts valid jobs and queues them nowhere.
pub mod Answers
use jack_service.Common.{List, [], ◌∷◌, none, Option}
use jack_service.Go.{Error}
use jack_service.World.{M, ◌>>=◌, pure}
use jack_service.Queue.{Job, EnqueueResult, Backend, BackendConfig, validate}

module _ (config : BackendConfig) where
  unfoldable pub enqueue : Job → M (Option Error)
  enqueue job = pure (validate job config.max_payload_size)

  unfoldable pub enqueue_bulk : List Job → M (List EnqueueResult)
  unfolding enqueue
  enqueue_bulk [] = pure []
  enqueue_bulk (job ∷ jobs) = do
    error ← enqueue job
    results ← enqueue_bulk jobs
    pure (record { job_id = job.id; error = error } ∷ results)

  abbrev pub noop_backend : Backend
  noop_backend = record {
    enqueue = enqueue;
    enqueue_bulk = enqueue_bulk;
    health = pure none;
    close = pure none;
  }
