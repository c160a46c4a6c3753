-- ===== src/Queue/Contract.antt =====
-- What internal/queue/queue.go promises of a backend's `EnqueueBulk`: a result for each job, in the order
-- of the jobs.
use jack_service.Common.{ℕ, zero, suc, ◌≡◌, ◌≢◌, refl, List, [], ◌∷◌, Option, none, some, get_elem?}
use jack_service.Go.{Error}
use jack_service.World.{World, M, Event, Extends}
use jack_service.Queue.{Job, EnqueueResult, Backend}

-- As many results as jobs, and each result without an error carries the ID of its own job.
abbrev pub Answers : List Job → List EnqueueResult → Type 0
Answers [] [] = Unit
Answers [] (r ∷ rs) = ⊥
Answers (j ∷ js) [] = ⊥
Answers (j ∷ js) (r ∷ rs) = (r.error ≡ none → r.job_id ≡ j.id) × Answers js rs

pub record IsBackend (backend : Backend) : Type 0 where
  pub answers : (jobs : List Job) (w : World) → Answers jobs (backend.enqueue_bulk jobs w).0

-- The result at the place of the job.
pub data Paired : List Job → List EnqueueResult → Job → EnqueueResult → Type 0 where
  here :
      {job : Job} {jobs : List Job} {r : EnqueueResult} {rs : List EnqueueResult}
      → Paired (job ∷ jobs) (r ∷ rs) job r
  there :
      {job other : Job} {jobs : List Job} {r q : EnqueueResult} {rs : List EnqueueResult}
      → Paired jobs rs job r
      → Paired (other ∷ jobs) (q ∷ rs) job r

-- What a backend or a scheduler vouches for when it takes a job: a fact about the history that later events do not
-- undo.
pub record Vouches (take : Job → M (Option Error)) (P : Job → List Event → Type 0) : Type 0 where
  pub vouched : (job : Job) (w : World) → (take job w).0 ≡ none → P job (take job w).1.history
  pub lasting : (job : Job) (h h' : List Event) → Extends h h' → P job h → P job h'

-- What it vouches for when it takes a list of jobs: the same of each job whose result has an ID and no error.
pub record BulkVouches (take : List Job → M (List EnqueueResult)) (P : Job → List Event → Type 0)
    : Type 0 where
  pub vouched :
      (jobs : List Job) (w : World) (job : Job) (r : EnqueueResult)
      → Paired jobs (take jobs w).0 job r
      → r.error ≡ none
      → r.job_id ≢ ""
      → P job (take jobs w).1.history
  pub appends : (jobs : List Job) (w : World) → Extends w.history (take jobs w).1.history
  pub lasting : (job : Job) (h h' : List Event) → Extends h h' → P job h → P job h'

pub Paired-at :
    {jobs : List Job} {results : List EnqueueResult} {job : Job} {r : EnqueueResult}
    → Paired jobs results job r
    → (i : ℕ) × (get_elem? jobs i ≡ some job) × (get_elem? results i ≡ some r)
Paired-at here = (zero, refl, refl)
Paired-at (there p) = let (i, at, at') = Paired-at p in (suc i, at, at')
