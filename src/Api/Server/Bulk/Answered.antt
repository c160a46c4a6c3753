-- ===== src/Api/Server/Bulk/Answered.antt =====
-- `EnqueueBulk` (internal/api/server.go) as a whole: what it answers once its backend and its scheduler
-- keep what their interfaces promise.
use jack_service.Common.{
  Bool, ◌≢◌, ℕ, suc, ◌≡◌, refl, ap, List, [], ◌∷◌, none, some, ok, inl, inr, Option-cases, length,
}
use jack_service.Proto.{EnqueueRequest, BulkResult}
use jack_service.World.{World, M, now}
use jack_service.Go.{Instant}
use jack_service.Queue.{Job, EnqueueResult}
use jack_service.Queue.Contract.{IsBackend, Paired, here, there}
use jack_service.Scheduler.{Scheduler, IsScheduler}
use jack_service.Api.Server.{Server, Libraries, Context, shadow_from_context}
use jack_service.Api.Server.Bulk.{
  Slot, jobs_of, initial_results, fill_validation, prepare_slots, partition, unless_empty,
  schedule_future, dispatch_slots, enqueue_bulk,
}
use jack_service.Api.Server.Bulk.Partition.{partition-Division, partition-immediate}
use jack_service.Api.Server.Bulk.Filling.{Answered, fills}
use jack_service.Api.Server.Bulk.Results.{Came, from_backend, from_scheduler, Described, SlotsFor}
use jack_service.Api.Server.Bulk.Entries.{SlotsFor-Described, prepare_slots-SlotsFor}

pub length-fill_validation :
    (lib : Libraries) (shadow : Bool) (s : Server) (i : ℕ) (qs : List EnqueueRequest)
    (slots : List Slot)
    → SlotsFor lib shadow s qs slots
    → length (fill_validation slots (initial_results i qs slots)) ≡ length slots
unfolding fill_validation initial_results
length-fill_validation lib shadow s i [] [] f = refl
length-fill_validation lib shadow s i [] (slot ∷ slots) f = absurd f
length-fill_validation lib shadow s i (q ∷ qs) [] f = absurd f
length-fill_validation lib shadow s i (q ∷ qs) (slot ∷ slots) (f, fs) =
    ap suc (length-fill_validation lib shadow s (suc i) qs slots fs)

no_pair :
    {jobs : List Job} {rs : List EnqueueResult} {job : Job} {br : EnqueueResult}
    → Paired jobs rs job br
    → jobs ≢ []
no_pair here e = cc
no_pair (there p) e = cc

module _ (P : Job → EnqueueResult → Type 0) where
  pub nothing-Answered : (rs : List EnqueueResult) → rs ≡ [] → Answered P [] rs
  nothing-Answered [] e = record { answers = tt; each = λ job br p. absurd (no_pair p refl) }
  nothing-Answered (r ∷ rs) e = absurd (cc)

  unless_empty-Answered :
      (call : List Job → M (List EnqueueResult)) (jobs : List Job) (w : World)
      → ((js : List Job) (v : World) → Answered P js (call js v).0)
      → Answered P jobs (unless_empty call jobs w).0
  unfolding unless_empty
  unless_empty-Answered call [] w h = nothing-Answered [] refl
  unless_empty-Answered call (job ∷ jobs) w h = h (job ∷ jobs) w

module _ (lib : Libraries) (s : Server) where
  backend-Answered :
      IsBackend s.backend
      → (js : List Job) (v : World) → Answered (Came s) js (s.backend.enqueue_bulk js v).0
  backend-Answered b js v = record {
    answers = b.answers js v;
    each = λ job br p. from_backend js v p;
  }

  scheduler-Answered :
      (scheduler : Scheduler)
      → s.scheduler ≡ some scheduler
      → IsScheduler scheduler
      → (js : List Job) (v : World) → Answered (Came s) js (scheduler.schedule_bulk js v).0
  scheduler-Answered scheduler has h js v = record {
    answers = h.answers js v;
    each = λ job br p. from_scheduler scheduler js v has p;
  }

  schedule_future-some :
      (jobs : List Job) (v : World) (scheduler : Scheduler)
      → s.scheduler ≡ some scheduler
      → (schedule_future lib s jobs v).0 ≡ (unless_empty scheduler.schedule_bulk jobs v).0
  unfolding schedule_future
  schedule_future-some jobs v scheduler has = rw (has, schedule_future) refl

  pub schedule_future-none :
      (jobs : List Job) (v : World) → s.scheduler ≡ none → (schedule_future lib s jobs v).0 ≡ []
  unfolding schedule_future
  schedule_future-none jobs v missing = rw (missing, schedule_future) refl

  schedule_future-Answered :
      (jobs : List Job) (v : World)
      → ((scheduler : Scheduler) → s.scheduler ≡ some scheduler → IsScheduler scheduler)
      → (s.scheduler ≡ none → jobs ≡ [])
      → Answered (Came s) jobs (schedule_future lib s jobs v).0
  schedule_future-Answered jobs v h empty = elim (Option-cases s.scheduler) [
    | inl missing ↦
        rw (empty missing) (nothing-Answered (Came s) _ (schedule_future-none [] v missing))
    | inr (scheduler, has) ↦ rw (schedule_future-some jobs v scheduler has) (
        unless_empty-Answered (Came s) scheduler.schedule_bulk jobs v
          (scheduler-Answered scheduler has (h scheduler has)))
  ]

  dispatch_slots-Described :
      (shadow : Bool) (start : Instant) (qs : List EnqueueRequest) (slots : List Slot) (w : World)
      → IsBackend s.backend
      → ((scheduler : Scheduler) → s.scheduler ≡ some scheduler → IsScheduler scheduler)
      → SlotsFor lib shadow s qs slots
      → Described lib shadow s 0 qs (dispatch_slots lib s start qs slots w).0
  unfolding dispatch_slots
  dispatch_slots-Described shadow start qs slots w b h f =
      let division = partition-Division lib s 0 slots w in
      let parts = (partition lib s 0 slots w).0 in
      let w' = (partition lib s 0 slots w).1 in
      let sent = unless_empty s.backend.enqueue_bulk (jobs_of parts.0) w' in
      let delayed = schedule_future lib s (jobs_of parts.1) sent.1 in
      let (after, filled, same) =
        fills (Came s) division [] (fill_validation slots (initial_results 0 qs slots)) sent.0
          delayed.0 refl (length-fill_validation lib shadow s 0 qs slots f)
          (unless_empty-Answered (Came s) s.backend.enqueue_bulk (jobs_of parts.0) w'
            (backend-Answered b))
          (schedule_future-Answered (jobs_of parts.1) sent.1 h
            (λ missing. ap jobs_of (partition-immediate lib s 0 slots w missing))) in
      rw same (SlotsFor-Described lib shadow s 0 qs filled f refl)

  -- With a backend and, where there is one, a scheduler that answer every job in order, `EnqueueBulk` of at
  -- least one request succeeds, with one result for each request, in their order, with the index and the
  -- correlation ID of the request. If the validation refuses the request, the result has its error and its
  -- reason. Else a job has been made of the request, with its fields and the shadow flag of the context, and the
  -- backend or the scheduler has been called with a list in which the job stands: the result has the ID of the
  -- job and no error where their result at that place has no error, and else the text of that error and the
  -- reason internal_error.
  pub enqueue_bulk-Described :
      (ctx : Context) (q : EnqueueRequest) (qs : List EnqueueRequest) (w : World)
      → IsBackend s.backend
      → ((scheduler : Scheduler) → s.scheduler ≡ some scheduler → IsScheduler scheduler)
      → (results : List BulkResult) × ((enqueue_bulk lib s ctx (q ∷ qs) w).0 ≡ ok results)
        × Described lib (shadow_from_context ctx) s 0 (q ∷ qs) results
  unfolding enqueue_bulk
  enqueue_bulk-Described ctx q qs w b h =
      let shadow = shadow_from_context ctx in
      let start = now lib.env w in
      let slots = prepare_slots lib s shadow (q ∷ qs) start.1 in
      (
        _,
        refl,
        dispatch_slots-Described shadow start.0 (q ∷ qs) slots.0 slots.1 b h
            (prepare_slots-SlotsFor lib shadow s (q ∷ qs) start.1),
      )
