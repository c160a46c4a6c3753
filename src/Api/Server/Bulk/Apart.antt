-- ===== src/Api/Server/Bulk/Apart.antt =====
-- `EnqueueBulk` of internal/api/server.go and the maps of the store.
use jack_service.Common.{Bool, refl, ℕ, suc, List, [], ◌∷◌, Option-cases, inl, inr, String}
use jack_service.Go.{Instant}
use jack_service.Proto.{EnqueueRequest}
use jack_service.World.{M, Env, now}
use jack_service.Queue.{Job, EnqueueResult}
use jack_service.Storage.{Services}
use jack_service.Storage.Laws.{LeavesMaps, SameMaps-refl, SameMaps-trans}
use jack_service.Api.Server.{Server, Libraries, Context, shadow_from_context, scheduler_for}
use jack_service.Api.Server.Apart.{HasParts, prepare_job-LeavesMaps, scheduler_for-LeavesMaps}
use jack_service.Api.Server.Bulk.{
  Slot, rejection, prepare_slot, prepare_slots, partition, unless_empty, schedule_future, jobs_of,
  count_outcomes, dispatch_slots, enqueue_bulk,
}

unless_empty-LeavesMaps :
    (call : List Job → M (List EnqueueResult))
    → ((jobs : List Job) → LeavesMaps (call jobs))
    → (jobs : List Job) → LeavesMaps (unless_empty call jobs)
unfolding unless_empty
unless_empty-LeavesMaps call h [] = record { leaves = SameMaps-refl }
unless_empty-LeavesMaps call h (job ∷ jobs) = h (job ∷ jobs)

count_outcomes-LeavesMaps :
    (method : String) (outcomes : List EnqueueResult) → LeavesMaps (count_outcomes method outcomes)
unfolding count_outcomes
count_outcomes-LeavesMaps method [] = record { leaves = SameMaps-refl }
count_outcomes-LeavesMaps method (r ∷ outcomes) = record {
  leaves = λ w. (count_outcomes-LeavesMaps method outcomes).leaves _;
}

module _ (lib : Libraries) (s : Server) (env : Env) (services : Services)
    (has : HasParts env services s) where
  prepare_slot-LeavesMaps :
      (shadow : Bool) (r : EnqueueRequest) → LeavesMaps (prepare_slot lib s shadow r)
  unfolding prepare_slot
  prepare_slot-LeavesMaps shadow r = elim (Option-cases (rejection s r)) [
    | inl fine ↦
        rw (fine, prepare_slot)
          (record {
            leaves = λ w. (prepare_job-LeavesMaps lib s env services has shadow r).leaves w;
          })
    | inr (bad, why) ↦ rw (why, prepare_slot) (record { leaves = SameMaps-refl })
  ]

  prepare_slots-LeavesMaps :
      (shadow : Bool) (rs : List EnqueueRequest) → LeavesMaps (prepare_slots lib s shadow rs)
  unfolding prepare_slots
  prepare_slots-LeavesMaps shadow [] = record { leaves = SameMaps-refl }
  prepare_slots-LeavesMaps shadow (r ∷ rs) = record {
    leaves = λ w.
        let v = (prepare_slot lib s shadow r w).1 in
        SameMaps-trans w v _ ((prepare_slot-LeavesMaps shadow r).leaves w)
          ((prepare_slots-LeavesMaps shadow rs).leaves v);
  }

  partition-LeavesMaps : (i : ℕ) (slots : List Slot) → LeavesMaps (partition lib s i slots)
  unfolding partition
  partition-LeavesMaps i [] = record { leaves = SameMaps-refl }
  partition-LeavesMaps i (slot ∷ slots) = elim (Option-cases slot.job) [
    | inl nothing ↦ rw (nothing, partition) (partition-LeavesMaps (suc i) slots)
    | inr (job, there) ↦
        rw (there, partition)
          (record {
            leaves = λ w.
                let v = (scheduler_for lib s job w).1 in
                SameMaps-trans w v _
                  ((scheduler_for-LeavesMaps lib s env services has job).leaves w)
                  ((partition-LeavesMaps (suc i) slots).leaves v);
          })
  ]

  schedule_future-LeavesMaps : (jobs : List Job) → LeavesMaps (schedule_future lib s jobs)
  unfolding schedule_future
  schedule_future-LeavesMaps jobs = elim (Option-cases s.scheduler) [
    | inl nothing ↦ rw (nothing, schedule_future) (record { leaves = SameMaps-refl })
    | inr (scheduler, there) ↦
        rw (there, schedule_future)
          (unless_empty-LeavesMaps scheduler.schedule_bulk
            (has.scheduler_apart scheduler there).on_schedule_bulk jobs)
  ]

  dispatch_slots-LeavesMaps :
      (start : Instant) (requests : List EnqueueRequest) (slots : List Slot)
      → LeavesMaps (dispatch_slots lib s start requests slots)
  unfolding dispatch_slots
  dispatch_slots-LeavesMaps start requests slots = record {
    leaves = λ w.
        let ((immediate, future), u) = partition lib s 0 slots w in
        let (queued, v) = unless_empty s.backend.enqueue_bulk (jobs_of immediate) u in
        let (scheduled, x) = schedule_future lib s (jobs_of future) v in
        SameMaps-trans w u _ ((partition-LeavesMaps 0 slots).leaves w) (
          SameMaps-trans u v _
            ((unless_empty-LeavesMaps s.backend.enqueue_bulk has.backend_apart.on_enqueue_bulk
                (jobs_of immediate)).leaves
              u)
            (SameMaps-trans v x _ ((schedule_future-LeavesMaps (jobs_of future)).leaves v) (
              SameMaps-trans x (count_outcomes "method:immediate" queued _).1 _
                ((count_outcomes-LeavesMaps "method:immediate" queued).leaves _)
                ((count_outcomes-LeavesMaps "method:scheduled" scheduled).leaves _))));
  }

  pub enqueue_bulk-LeavesMaps :
      (ctx : Context) (requests : List EnqueueRequest)
      → LeavesMaps (enqueue_bulk lib s ctx requests)
  unfolding enqueue_bulk
  enqueue_bulk-LeavesMaps ctx [] = record {
    leaves = λ w. record { same_producers = refl; same_job_types = refl };
  }
  enqueue_bulk-LeavesMaps ctx (r ∷ rs) = record {
    leaves = λ w.
        let (start, u) = now lib.env w in
        let (slots, v) = prepare_slots lib s (shadow_from_context ctx) (r ∷ rs) u in
        SameMaps-trans w v _
          ((prepare_slots-LeavesMaps (shadow_from_context ctx) (r ∷ rs)).leaves u)
          ((dispatch_slots-LeavesMaps start (r ∷ rs) slots).leaves v);
  }
