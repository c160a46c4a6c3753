-- ===== src/Api/Server/Bulk.antt =====
-- `EnqueueBulk` of internal/api/server.go. The four slices that the code fills by index are one list of
-- slots, an entry for each request.
pub mod Partition
pub mod Filling
pub mod Results
pub mod Entries
pub mod Answered
pub mod Apart
pub mod Accounted
pub mod Vouched
use jack_service.Common.{
  ℕ, zero, suc, String, Bool, List, [], ◌∷◌, Option, none, some, ok, length, map, if◌then◌else◌,
}
use jack_service.Common.Int.{pos, ltb_ℤ}
use jack_service.Common.Text.{◌==◌}
use jack_service.Go.{Instant, error_text, to_int32}
use jack_service.Proto.{EnqueueRequest, BulkResult}
use jack_service.World.{M, ◌>>=◌, ◌>>◌, pure, incr, distribution, now, since, send}
use jack_service.Queue.{Job, EnqueueResult}
use jack_service.Queue.PubSub.{status_tag}
use jack_service.Api.Status.{invalid_argument, Reply}
use jack_service.Api.Server.{
  Server, Libraries, Context, shadow_from_context, prepare_job, scheduler_for,
}
use jack_service.Api.Server.Enqueue.{refuse}

abbrev pub reason_validation_error : String
reason_validation_error = "validation_error"

abbrev pub reason_payload_too_large : String
reason_payload_too_large = "payload_too_large"

abbrev pub reason_internal_error : String
reason_internal_error = "internal_error"

-- jobs[i], validationErrors[i], validationReasons[i] and jobWarnings[i]
pub record Slot : Type 0 where
  pub job : Option Job
  pub error : String
  pub reason : String
  pub warnings : List String

-- The validation: the error and the reason.
unfoldable pub rejection : Server → EnqueueRequest → Option (String × String)
rejection s r =
    if r.producer_id == ""
    then some ("producer_id is required", reason_validation_error)
    else if r.job_type == ""
    then some ("job_type is required", reason_validation_error)
    else if ltb_ℤ s.config.max_payload_size (pos (length r.payload))
    then some ("payload exceeds max size", reason_payload_too_large)
    else none

-- results[i] = &BulkResult{Index, ErrorMessages, CorrelationId}
unfoldable pub initial_results : ℕ → List EnqueueRequest → List Slot → List BulkResult
initial_results i [] slots = []
initial_results i (r ∷ rs) [] = []
initial_results i (r ∷ rs) (slot ∷ slots) =
    record {
      index = to_int32 i;
      job_id = "";
      error = "";
      error_messages = slot.warnings;
      correlation_id = r.correlation_id;
      reason = "";
    }
    ∷ initial_results (suc i) rs slots

abbrev pub with_validation : Slot → BulkResult → BulkResult
with_validation slot r =
    if slot.error == "" then r else record r { error = slot.error; reason = slot.reason }

unfoldable pub fill_validation : List Slot → List BulkResult → List BulkResult
fill_validation [] results = results
fill_validation (slot ∷ slots) [] = []
fill_validation (slot ∷ slots) (r ∷ results) =
    with_validation slot r ∷ fill_validation slots results

-- A write through results[i].
unfoldable pub update_at : ℕ → (BulkResult → BulkResult) → List BulkResult → List BulkResult
update_at i f [] = []
update_at zero f (r ∷ results) = f r ∷ results
update_at (suc i) f (r ∷ results) = r ∷ update_at i f results

abbrev pub with_outcome : EnqueueResult → BulkResult → BulkResult
with_outcome br r = elim br.error [
  | some e ↦ record r { error = error_text e; reason = reason_internal_error }
  | none ↦ record r { job_id = br.job_id }
]

-- The loop over immediateIndexes or futureIndexes; an index past the results is skipped.
unfoldable pub fill_outcomes : List ℕ → List EnqueueResult → List BulkResult → List BulkResult
unfolding update_at
fill_outcomes [] outcomes results = results
fill_outcomes (i ∷ indexes) [] results = results
fill_outcomes (i ∷ indexes) (br ∷ outcomes) results =
    fill_outcomes indexes outcomes (update_at i (with_outcome br) results)

unfoldable pub count_outcomes : String → List EnqueueResult → M (Unit {0})
unfolding send
count_outcomes method [] = pure tt
count_outcomes method (br ∷ outcomes) = do
  send (incr "jack.enqueue_bulk.count" (status_tag br.error ∷ method ∷ []))
  count_outcomes method outcomes

-- `if len(jobs) > 0`: no call for no job.
unfoldable pub unless_empty :
    (List Job → M (List EnqueueResult)) → List Job → M (List EnqueueResult)
unless_empty call [] = pure []
unless_empty call (job ∷ jobs) = call (job ∷ jobs)

abbrev pub Indexed : Type 0
Indexed = List (ℕ × Job)

abbrev pub indexes_of : Indexed → List ℕ
indexes_of = map (λ e. e.0)

abbrev pub jobs_of : Indexed → List Job
jobs_of = map (λ e. e.1)

-- The two lists with a job in front of one of them.
abbrev pub place : {A : Type 0} → ℕ → Job → Option A → Indexed × Indexed → Indexed × Indexed
place i job none (immediate, future) = ((i, job) ∷ immediate, future)
place i job (some scheduler) (immediate, future) = (immediate, (i, job) ∷ future)

module _ (lib : Libraries) (s : Server) where
  unfoldable pub prepare_slot : Bool → EnqueueRequest → M Slot
  unfolding rejection prepare_job
  prepare_slot shadow r = elim (rejection s r) [
    | some (error, reason) ↦
        pure (record { job = none; error = error; reason = reason; warnings = [] })
    | none ↦ (do
      (job, warnings) ← prepare_job lib s shadow r
      pure (record { job = some job; error = ""; reason = ""; warnings = warnings }))
  ]

  unfoldable pub prepare_slots : Bool → List EnqueueRequest → M (List Slot)
  unfolding prepare_slot
  prepare_slots shadow [] = pure []
  prepare_slots shadow (r ∷ rs) = do
    slot ← prepare_slot shadow r
    slots ← prepare_slots shadow rs
    pure (slot ∷ slots)

  -- The immediate and the future jobs with their indexes, from the index `i` on.
  unfoldable pub partition : ℕ → List Slot → M (Indexed × Indexed)
  unfolding scheduler_for
  partition i [] = pure ([], [])
  partition i (slot ∷ slots) = elim slot.job [
    | none ↦ partition (suc i) slots
    | some job ↦ (do
      delayed ← scheduler_for lib s job
      rest ← partition (suc i) slots
      pure (place i job delayed rest))
  ]

  -- s.scheduler.ScheduleBulk; there are future jobs only where there is a scheduler.
  unfoldable pub schedule_future : List Job → M (List EnqueueResult)
  unfolding unless_empty
  schedule_future jobs = elim s.scheduler [
    | none ↦ pure []
    | some scheduler ↦ unless_empty scheduler.schedule_bulk jobs
  ]

  -- The response once the jobs are there.
  unfoldable pub dispatch_slots : Instant → List EnqueueRequest → List Slot → M (List BulkResult)
  unfolding partition unless_empty schedule_future initial_results fill_validation fill_outcomes
      count_outcomes since send
  dispatch_slots start requests slots = do
    (immediate, future) ← partition 0 slots
    immediate_results ← unless_empty s.backend.enqueue_bulk (jobs_of immediate)
    future_results ← schedule_future (jobs_of future)
    send (distribution "jack.enqueue_bulk.jobs" (pos (length requests)) [])
    duration ← since lib.env start
    send (distribution "jack.enqueue_bulk.duration" duration [])
    count_outcomes "method:immediate" immediate_results
    count_outcomes "method:scheduled" future_results
    pure (
        fill_outcomes (indexes_of future) future_results (
          fill_outcomes (indexes_of immediate) immediate_results
            (fill_validation slots (initial_results 0 requests slots))))

  unfoldable pub enqueue_bulk : Context → List EnqueueRequest → M (Reply (List BulkResult))
  unfolding now prepare_slots dispatch_slots shadow_from_context
  enqueue_bulk ctx [] = do now lib.env; refuse invalid_argument "jobs is required"
  enqueue_bulk ctx (r ∷ rs) = do
    start ← now lib.env
    slots ← prepare_slots (shadow_from_context ctx) (r ∷ rs)
    results ← dispatch_slots start (r ∷ rs) slots
    pure (ok results)
