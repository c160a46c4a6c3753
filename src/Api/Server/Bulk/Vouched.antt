-- ===== src/Api/Server/Bulk/Vouched.antt =====
-- `EnqueueBulk` (internal/api/server.go) as a whole: what has happened to its jobs when it answers.
use jack_service.Common.{
  ℕ, Bool, String, ◌≡◌, ◌≢◌, refl, ap, ◌∙◌, ◌⊎◌, inl, inr, List, [], ◌∷◌, none, some, ok,
  Option-cases, get_elem?, ok-injective,
}
use jack_service.Go.{Instant}
use jack_service.Proto.{EnqueueRequest, BulkResult}
use jack_service.World.{World, M, Event, Extends, Extends-trans, now}
use jack_service.Queue.{Job, EnqueueResult}
use jack_service.Queue.Contract.{IsBackend, Answers, BulkVouches}
use jack_service.Scheduler.{Scheduler, IsScheduler}
use jack_service.Api.Server.{Server, Libraries, Context, shadow_from_context}
use jack_service.Api.Server.Bulk.{
  Slot, initial_results, fill_validation, count_outcomes, partition, unless_empty, schedule_future,
  prepare_slots, jobs_of, dispatch_slots, enqueue_bulk,
}
use jack_service.Api.Server.Bulk.Partition.{partition-Division, partition-immediate}
use jack_service.Api.Server.Bulk.Filling.{Answered, fills}
use jack_service.Api.Server.Bulk.Results.{SlotsFor}
use jack_service.Api.Server.Bulk.Entries.{prepare_slots-SlotsFor}
use jack_service.Api.Server.Bulk.Answered.{
  length-fill_validation, nothing-Answered, schedule_future-none,
}
use jack_service.Api.Server.Bulk.Accounted.{
  Named, Accounted, EachAccounted, EachAccounted-at, Filled-Accounted,
}

count_outcomes-Extends :
    (method : String) (outcomes : List EnqueueResult) (w : World)
    → Extends w.history (count_outcomes method outcomes w).1.history
unfolding count_outcomes
count_outcomes-Extends method [] w = ([], refl)
count_outcomes-Extends method (r ∷ outcomes) w =
    Extends-trans w.history _ _ (_ ∷ [], refl) (count_outcomes-Extends method outcomes _)

-- A call that vouches for its jobs, made only if there are any.
module _ (call : List Job → M (List EnqueueResult)) (Q : Job → List Event → Type 0)
    (vouches : BulkVouches call Q) where
  unless_empty-Extends :
      (jobs : List Job) (w : World) → Extends w.history (unless_empty call jobs w).1.history
  unfolding unless_empty
  unless_empty-Extends [] w = ([], refl)
  unless_empty-Extends (job ∷ jobs) w = vouches.appends (job ∷ jobs) w

  unless_empty-Answered :
      (lib : Libraries) (shadow : Bool) (X : Job → Type 0) (history : List Event)
      → ((job : Job) → Q job history → X job)
      → ((jobs : List Job) (w : World) → Answers jobs (call jobs w).0)
      → (jobs : List Job) (w : World) → Extends (unless_empty call jobs w).1.history history
      → Answered (Named lib shadow X) jobs (unless_empty call jobs w).0
  unfolding unless_empty
  unless_empty-Answered lib shadow X history x answers [] w later = nothing-Answered _ [] refl
  unless_empty-Answered lib shadow X history x answers (job ∷ jobs) w later = record {
    answers = answers (job ∷ jobs) w;
    each = λ j br p fine named.
        x j (vouches.lasting j _ history later (vouches.vouched (job ∷ jobs) w j br p fine named));
  }

module _ (lib : Libraries) (s : Server) (B S : Job → List Event → Type 0) (is : IsBackend s.backend)
    (queued : BulkVouches s.backend.enqueue_bulk B)
    (is_scheduler : (scheduler : Scheduler) → s.scheduler ≡ some scheduler → IsScheduler scheduler)
    (scheduled : (scheduler : Scheduler)
      → s.scheduler ≡ some scheduler
      → BulkVouches scheduler.schedule_bulk S) where
  schedule_future-some :
      (jobs : List Job) (w : World) (scheduler : Scheduler)
      → s.scheduler ≡ some scheduler
      → schedule_future lib s jobs w ≡ unless_empty scheduler.schedule_bulk jobs w
  unfolding schedule_future
  schedule_future-some jobs w scheduler has = rw (has, schedule_future) refl

  schedule_future-Extends :
      (jobs : List Job) (w : World) → Extends w.history (schedule_future lib s jobs w).1.history
  unfolding schedule_future
  schedule_future-Extends jobs w = elim (Option-cases s.scheduler) [
    | inl missing ↦ rw (missing, schedule_future) ([], refl)
    | inr (scheduler, has) ↦
        rw (schedule_future-some jobs w scheduler has)
          (unless_empty-Extends scheduler.schedule_bulk S (scheduled scheduler has) jobs w)
  ]

  -- What has happened to a job by the end.
  abbrev End : List Event → Job → Type 0
  End history job = B job history ⊎ S job history

  schedule_future-Answered :
      (shadow : Bool) (jobs : List Job) (w : World) (history : List Event)
      → (s.scheduler ≡ none → jobs ≡ [])
      → Extends (schedule_future lib s jobs w).1.history history
      → Answered (Named lib shadow (End history)) jobs (schedule_future lib s jobs w).0
  schedule_future-Answered shadow jobs w history empty later = elim (Option-cases s.scheduler) [
    | inl missing ↦
        rw (empty missing) (nothing-Answered _ _ (schedule_future-none lib s [] w missing))
    | inr (scheduler, has) ↦
        let same = schedule_future-some jobs w scheduler has in
        rw same (
          unless_empty-Answered scheduler.schedule_bulk S (scheduled scheduler has) lib shadow
            (End history) history (λ job x. inr x) (is_scheduler scheduler has).answers jobs w
            (rw same at later))
  ]

  dispatch_slots-Accounted :
      (shadow : Bool) (start : Instant) (qs : List EnqueueRequest) (slots : List Slot) (w : World)
      → SlotsFor lib shadow s qs slots
      → (let (results, end) = dispatch_slots lib s start qs slots w in
          EachAccounted lib shadow (End end.history) qs results)
  unfolding dispatch_slots
  dispatch_slots-Accounted shadow start qs slots w f =
      let ((immediate, future), w₁) = partition lib s 0 slots w in
      let (sent, w₂) = unless_empty s.backend.enqueue_bulk (jobs_of immediate) w₁ in
      let (delayed, w₃) = schedule_future lib s (jobs_of future) w₂ in
      let history = (dispatch_slots lib s start qs slots w).1.history in
      let counted : Extends w₃.history history =
        Extends-trans w₃.history _ _ (_ ∷ _ ∷ _ ∷ [], refl)
          (Extends-trans _ (count_outcomes "method:immediate" sent _).1.history _
            (count_outcomes-Extends "method:immediate" sent _)
            (count_outcomes-Extends "method:scheduled" delayed _)) in
      let (after, filled, same) =
        fills (Named lib shadow (End history)) (partition-Division lib s 0 slots w) []
          (fill_validation slots (initial_results 0 qs slots)) sent delayed refl
          (length-fill_validation lib shadow s 0 qs slots f)
          (unless_empty-Answered s.backend.enqueue_bulk B queued lib shadow (End history) history
            (λ job x. inl x) is.answers (jobs_of immediate) w₁
            (Extends-trans w₂.history w₃.history history
              (schedule_future-Extends (jobs_of future) w₂) counted))
          (schedule_future-Answered shadow (jobs_of future) w₂ history
            (λ missing. ap jobs_of (partition-immediate lib s 0 slots w missing)) counted) in
      rw same (Filled-Accounted lib shadow (End history) s 0 qs filled f refl)

  -- A result with a job ID is the one of a job that was made of the request at its place, and for which, when the
  -- reply is given, the backend or the scheduler has done what it vouches for.
  pub enqueue_bulk-accepted :
      (ctx : Context) (q : EnqueueRequest) (qs : List EnqueueRequest) (w : World)
      (results : List BulkResult)
      → (enqueue_bulk lib s ctx (q ∷ qs) w).0 ≡ ok results
      → (i : ℕ) (p : EnqueueRequest) (r : BulkResult) → get_elem? (q ∷ qs) i ≡ some p
      → get_elem? results i ≡ some r
      → r.job_id ≢ ""
      → Accounted lib
          (shadow_from_context ctx)
          (End (enqueue_bulk lib s ctx (q ∷ qs) w).1.history)
          p
          r.job_id
  unfolding enqueue_bulk
  enqueue_bulk-accepted ctx q qs w results h i p r ep er named =
      let shadow = shadow_from_context ctx in
      let start = now lib.env w in
      let slots = prepare_slots lib s shadow (q ∷ qs) start.1 in
      let f = prepare_slots-SlotsFor lib shadow s (q ∷ qs) start.1 in
      EachAccounted-at lib shadow _ (q ∷ qs) _ i p r
        (dispatch_slots-Accounted shadow start.0 (q ∷ qs) slots.0 slots.1 f) ep
        (ap (λ x. get_elem? x i) (ok-injective h) ∙ er) named
