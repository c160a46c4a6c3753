-- ===== src/Queue/PubSub/Answers.antt =====
-- The backend of internal/queue/pubsub.go as an implementation of the interface of
-- internal/queue/queue.go.
use jack_service.Common.{suc, arith, ◌≡◌, refl, ap, List, [], ◌∷◌, none, some, length}
use jack_service.World.{World, Env}
use jack_service.Queue.{Job}
use jack_service.Queue.Contract.{Answers, IsBackend}
use jack_service.Queue.PubSub.{
  Client, Pending, refused, sent, PubSubBackend, settle, settle_all, hand_over, hand_over_all,
  enqueue_bulk, pubsub_backend,
}

settle_id : (job : Job) (p : Pending) → (settle job p).job_id ≡ job.id
unfolding settle
settle_id job (refused e) = refl
settle_id job (sent (some e)) = refl
settle_id job (sent none) = refl

settle_all-Answers :
    (jobs : List Job) (pending : List Pending)
    → length pending ≡ length jobs
    → Answers jobs (settle_all jobs pending)
unfolding settle_all
settle_all-Answers [] pending n = tt
settle_all-Answers (job ∷ jobs) [] n = absurd (omega arith)
settle_all-Answers (job ∷ jobs) (p ∷ pending) n =
    (λ e. settle_id job p, settle_all-Answers jobs pending (omega arith))

module _ (env : Env) (client : Client) (b : PubSubBackend) where
  length-hand_over_all :
      (jobs : List Job) (w : World) → length (hand_over_all env client b jobs w).0 ≡ length jobs
  unfolding hand_over_all
  length-hand_over_all [] w = refl
  length-hand_over_all (job ∷ jobs) w =
      ap suc (length-hand_over_all jobs (hand_over env client b job w).1)

  pub pubsub_backend-IsBackend : IsBackend (pubsub_backend env client b)
  unfolding enqueue_bulk
  pubsub_backend-IsBackend = record {
    answers = λ jobs w.
        settle_all-Answers jobs (hand_over_all env client b jobs w).0 (length-hand_over_all jobs w);
  }
