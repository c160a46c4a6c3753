-- ===== src/Api/Server/Accepted.antt =====
-- What has happened when `Enqueue` of internal/api/server.go answers with a job ID.
use jack_service.Common.{
  String, ◌≡◌, refl, sym, ap, ◌∙◌, List, [], ◌∷◌, Option, none, some, ok, length, Bool-cases, ◌⊎◌,
  inl, inr, ok-injective,
}
use jack_service.Common.Int.{pos, ltb_ℤ}
use jack_service.Common.Text.{◌==◌}
use jack_service.Go.{Instant, Error, error_is, queue_unavailable}
use jack_service.Proto.{EnqueueRequest, EnqueueResponse}
use jack_service.World.{World, Event, now, Extends}
use jack_service.Queue.{Job}
use jack_service.Queue.Contract.{Vouches}
use jack_service.Scheduler.{Scheduler}
use jack_service.Api.Status.{Reply}
use jack_service.Api.Server.{
  Server, Libraries, Context, shadow_from_context, prepare_job, scheduler_for,
}
use jack_service.Api.Server.Made.{IsJobOf, prepare_job-IsJobOf}
use jack_service.Api.Server.Chosen.{Chosen, to_wait, scheduler_for-Chosen}
use jack_service.Api.Server.Enqueue.{
  response_of, after_schedule, after_queue, dispatch_to, dispatch, succeed, enqueue,
}

module _ (lib : Libraries) (q : EnqueueRequest) (job : Job) (warnings : List String)
    (start : Instant) where
  -- A step after which only metrics are sent, and which gives the response for the job only if all went well.
  record Finished (outcome : Option Error) (w : World) (after : Reply EnqueueResponse × World)
      : Type 0 where
    went_well :
        {r : EnqueueResponse} → after.0 ≡ ok r → (outcome ≡ none) × (r ≡ response_of q job warnings)
    continues : Extends w.history after.1.history

  after_queue-Finished :
      (outcome : Option Error) (w : World)
      → Finished outcome w (after_queue lib q job warnings start outcome w)
  unfolding after_queue succeed
  after_queue-Finished none w = record {
    went_well = λ h. (refl, sym (ok-injective h));
    continues = (_ ∷ _ ∷ _ ∷ _ ∷ [], refl);
  }
  after_queue-Finished (some e) w = elim (Bool-cases (error_is e queue_unavailable)) [
    | inl down ↦ rw down (record { went_well = λ h. absurd (cc); continues = (_ ∷ [], refl) })
    | inr other ↦ rw other (record { went_well = λ h. absurd (cc); continues = (_ ∷ [], refl) })
  ]

  after_schedule-Finished :
      (outcome : Option Error) (w : World)
      → Finished outcome w (after_schedule lib q job warnings start outcome w)
  unfolding after_schedule succeed
  after_schedule-Finished none w = record {
    went_well = λ h. (refl, sym (ok-injective h));
    continues = (_ ∷ _ ∷ _ ∷ _ ∷ [], refl);
  }
  after_schedule-Finished (some e) w = record {
    went_well = λ h. absurd (cc);
    continues = (_ ∷ [], refl);
  }

module _ (lib : Libraries) (s : Server) (B S : Job → List Event → Type 0)
    (queued : Vouches s.backend.enqueue B)
    (scheduled : (scheduler : Scheduler)
      → s.scheduler ≡ some scheduler
      → Vouches scheduler.schedule S) where
  -- The response is that for the job, which is accounted for.
  Accounts : EnqueueRequest → Job → List String → EnqueueResponse → List Event → Type 0
  Accounts q job warnings r history =
      (r ≡ response_of q job warnings) × (B job history ⊎ S job history)

  module _ (q : EnqueueRequest) (job : Job) (warnings : List String) (start : Instant) where
    dispatch_to-Accounts :
        (delayed : Option Scheduler) (v : World) {r : EnqueueResponse}
        → Chosen lib s job delayed
        → (dispatch_to lib s q job warnings start delayed v).0 ≡ ok r
        → Accounts q job warnings r (dispatch_to lib s q job warnings start delayed v).1.history
    unfolding dispatch_to Accounts
    dispatch_to-Accounts none v c h =
        let taken = s.backend.enqueue job v in
        let f = after_queue-Finished lib q job warnings start taken.0 taken.1 in
        let (fine, same) = f.went_well h in
        (same, inl (queued.lasting job taken.1.history _ f.continues (queued.vouched job v fine)))
    dispatch_to-Accounts (some scheduler) v (to_wait clock has enabled far) h =
        let taken = scheduler.schedule job v in
        let vouches = scheduled scheduler has in
        let f = after_schedule-Finished lib q job warnings start taken.0 taken.1 in
        let (fine, same) = f.went_well h in
        (same, inr (vouches.lasting job taken.1.history _ f.continues (vouches.vouched job v fine)))

    dispatch-Accounts :
        (w : World) {r : EnqueueResponse}
        → (dispatch lib s q job warnings start w).0 ≡ ok r
        → Accounts q job warnings r (dispatch lib s q job warnings start w).1.history
    unfolding dispatch
    dispatch-Accounts w h =
        dispatch_to-Accounts (scheduler_for lib s job w).0 (scheduler_for lib s job w).1
          (scheduler_for-Chosen lib s job w) h

  enqueue-dispatch :
      (ctx : Context) (q : EnqueueRequest) (w : World) {r : EnqueueResponse}
      → (enqueue lib s ctx q w).0 ≡ ok r
      → (let v = (now lib.env w).1 in
          let ((job, warnings), made) = prepare_job lib s (shadow_from_context ctx) q v in
          enqueue lib s ctx q w ≡ dispatch lib s q job warnings (now lib.env w).0 made)
  unfolding enqueue
  enqueue-dispatch ctx q w h = elim (Bool-cases (q.producer_id == "")) [
    | inl missing ↦ absurd (cc (rw (missing, enqueue) at h))
    | inr given ↦ elim (Bool-cases (q.job_type == "")) [
      | inl missing ↦ absurd (cc (rw (given, missing, enqueue) at h))
      | inr named ↦ elim (Bool-cases (ltb_ℤ s.config.max_payload_size (pos (length q.payload)))) [
        | inl large ↦ absurd (cc (rw (given, named, large, enqueue) at h))
        | inr small ↦ rw (given, named, small, enqueue) refl
      ]
    ]
  ]

  -- A reply with a job ID is the one of a job that was made of the request, and for which, when the reply is
  -- given, the backend or the scheduler has done what it vouches for.
  pub enqueue-accepted :
      (ctx : Context) (q : EnqueueRequest) (w : World) (r : EnqueueResponse)
      → (enqueue lib s ctx q w).0 ≡ ok r
      → (job : Job) × IsJobOf lib (shadow_from_context ctx) q job
        × (r.job_id ≡ job.id)
        × (B job (enqueue lib s ctx q w).1.history ⊎ S job (enqueue lib s ctx q w).1.history)
  unfolding Accounts
  enqueue-accepted ctx q w r h =
      let v = (now lib.env w).1 in
      let made = prepare_job lib s (shadow_from_context ctx) q v in
      let run = enqueue-dispatch ctx q w h in
      let (same, account) =
        dispatch-Accounts q made.0.0 made.0.1 (now lib.env w).0 made.1
          (ap (λ x. x.0) (sym run) ∙ h) in
      (
        made.0.0,
        prepare_job-IsJobOf lib s (shadow_from_context ctx) q v,
        ap (λ x. x.job_id) same,
        rw run account,
      )
