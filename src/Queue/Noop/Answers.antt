-- ===== src/Queue/Noop/Answers.antt =====
-- The backend of internal/queue/noop.go as an implementation of the interface of internal/queue/queue.go.
use jack_service.Common.{refl, List, [], ◌∷◌}
use jack_service.World.{World}
use jack_service.Queue.{Job, BackendConfig}
use jack_service.Queue.Contract.{Answers, IsBackend}
use jack_service.Queue.Noop.{enqueue, enqueue_bulk, noop_backend}

enqueue_bulk-Answers :
    (config : BackendConfig) (jobs : List Job) (w : World)
    → Answers jobs (enqueue_bulk config jobs w).0
unfolding enqueue_bulk
enqueue_bulk-Answers config [] w = tt
enqueue_bulk-Answers config (job ∷ jobs) w =
    (λ e. refl, enqueue_bulk-Answers config jobs (enqueue config job w).1)

-- The backend that queues nothing answers each job in order.
pub noop_backend-IsBackend : (config : BackendConfig) → IsBackend (noop_backend config)
noop_backend-IsBackend config = record { answers = enqueue_bulk-Answers config }
