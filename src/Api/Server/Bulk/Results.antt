-- ===== src/Api/Server/Bulk/Results.antt =====
-- What `EnqueueBulk` (internal/api/server.go) answers for each request.
use jack_service.Common.{ℕ, suc, Bool, ◌≡◌, List, [], ◌∷◌, none, some}
use jack_service.Go.{to_int32, Error, error_text}
use jack_service.Proto.{EnqueueRequest, BulkResult}
use jack_service.World.{World}
use jack_service.Queue.{Job, EnqueueResult}
use jack_service.Scheduler.{Scheduler}
use jack_service.Api.Server.{Server, Libraries}
use jack_service.Api.Server.Made.{IsJobOf}
use jack_service.Api.Server.Bulk.{Slot, rejection, reason_internal_error}
use jack_service.Queue.Contract.{Paired}

-- The result of the backend, or of the scheduler, at the place of this job in a list that it was called with.
pub data Came (s : Server) (job : Job) (br : EnqueueResult) : Type 0 where
  from_backend :
      (jobs : List Job) (w : World)
      → Paired jobs (s.backend.enqueue_bulk jobs w).0 job br
      → Came s job br
  from_scheduler :
      (scheduler : Scheduler) (jobs : List Job) (w : World)
      → s.scheduler ≡ some scheduler
      → Paired jobs (scheduler.schedule_bulk jobs w).0 job br
      → Came s job br

-- The result of a request: the error of the validation; or, for a job that was made of it, what the backend or
-- the scheduler has answered, the ID of the job or the text of the error.
pub data OutcomeFor (lib : Libraries) (shadow : Bool) (s : Server) (q : EnqueueRequest)
    (r : BulkResult) : Type 0 where
  rejected :
      rejection s q ≡ some (r.error, r.reason)
      → r.job_id ≡ ""
      → r.error_messages ≡ []
      → OutcomeFor lib shadow s q r
  accepted :
      {job : Job} {br : EnqueueResult}
      → rejection s q ≡ none
      → IsJobOf lib shadow q job
      → Came s job br
      → br.error ≡ none
      → r.error ≡ ""
      → r.reason ≡ ""
      → r.job_id ≡ job.id
      → OutcomeFor lib shadow s q r
  failed :
      {job : Job} {br : EnqueueResult} {e : Error}
      → rejection s q ≡ none
      → IsJobOf lib shadow q job
      → Came s job br
      → br.error ≡ some e
      → r.error ≡ error_text e
      → r.reason ≡ reason_internal_error
      → r.job_id ≡ ""
      → OutcomeFor lib shadow s q r

-- A result for each request, in the order of the requests, with its index and its correlation ID.
abbrev pub Described :
    Libraries → Bool → Server → ℕ → List EnqueueRequest → List BulkResult → Type 0
Described lib shadow s i [] [] = Unit
Described lib shadow s i [] (r ∷ rs) = ⊥
Described lib shadow s i (q ∷ qs) [] = ⊥
Described lib shadow s i (q ∷ qs) (r ∷ rs) =
    (r.index ≡ to_int32 i)
    × (r.correlation_id ≡ q.correlation_id)
    × OutcomeFor lib shadow s q r
    × Described lib shadow s (suc i) qs rs

pub data SlotFor (lib : Libraries) (shadow : Bool) (s : Server) (q : EnqueueRequest) (slot : Slot)
    : Type 0 where
  refused :
      rejection s q ≡ some (slot.error, slot.reason)
      → slot.job ≡ none
      → slot.warnings ≡ []
      → SlotFor lib shadow s q slot
  made :
      {job : Job}
      → rejection s q ≡ none
      → slot.job ≡ some job
      → slot.error ≡ ""
      → IsJobOf lib shadow q job
      → SlotFor lib shadow s q slot

abbrev pub SlotsFor : Libraries → Bool → Server → List EnqueueRequest → List Slot → Type 0
SlotsFor lib shadow s [] [] = Unit
SlotsFor lib shadow s [] (slot ∷ slots) = ⊥
SlotsFor lib shadow s (q ∷ qs) [] = ⊥
SlotsFor lib shadow s (q ∷ qs) (slot ∷ slots) =
    SlotFor lib shadow s q slot × SlotsFor lib shadow s qs slots
