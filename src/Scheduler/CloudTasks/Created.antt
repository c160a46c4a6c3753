-- ===== src/Scheduler/CloudTasks/Created.antt =====
-- What `Schedule` of internal/scheduler/cloudtasks.go has done when it reports a success.
use jack_service.Common.{
  ℕ, ◌≤◌, ◌≡◌, refl, true, false, List, [], ◌∷◌, none, ok, err, Bool-cases, Option-cases,
  Result-cases, inl, inr, arith, ltb, length,
}
use jack_service.Go.{Instant, Error}
use jack_service.World.{World, Env, Event, task_created, now, Logged, Logged-later}
use jack_service.Queue.{Job}
use jack_service.Queue.Contract.{Vouches}
use jack_service.Scheduler.{Codec, marshal_job}
use jack_service.Scheduler.CloudTasks.{
  CloudTasksScheduler, Client, max_task_body_size, task_for, create_task, submit, schedule,
}

module _ (env : Env) (codec : Codec) (client : Client) (s : CloudTasksScheduler) where
  submit-Logged :
      (job : Job) (start : Instant) (body : List ℕ) (w : World)
      → (submit env codec client s job start body w).0 ≡ none
      → Logged
          (task_created (task_for env codec client s job body) none)
          (submit env codec client s job start body w).1.history
  unfolding submit create_task
  submit-Logged job start body w h =
      elim (Option-cases (client.create_task w.history (task_for env codec client s job body))) [
        | inl fine ↦ rw (fine, submit) (_ ∷ _ ∷ _ ∷ [], _, refl)
        | inr (e, bad) ↦ absurd (cc (rw (bad, submit) at h))
      ]

  schedule-submit :
      (job : Job) (w : World) {body : List ℕ}
      → marshal_job codec job ≡ ok body
      → ltb max_task_body_size (length body) ≡ false
      → schedule env codec client s job w
        ≡ submit env codec client s job (now env w).0 body (now env w).1
  unfolding schedule
  schedule-submit job w m small = rw (m, small, schedule) refl

  schedule-unmarshalled :
      (job : Job) (w : World) {e : Error}
      → marshal_job codec job ≡ err e
      → (schedule env codec client s job w).0 ≡ none
      → ⊥
  unfolding schedule
  schedule-unmarshalled job w m h = cc (rw (m, schedule) at h)

  schedule-too_large :
      (job : Job) (w : World) {body : List ℕ}
      → marshal_job codec job ≡ ok body
      → ltb max_task_body_size (length body) ≡ true
      → (schedule env codec client s job w).0 ≡ none
      → ⊥
  unfolding schedule
  schedule-too_large job w m large h = cc (rw (m, large, schedule) at h)

  -- Where `Schedule` reports no error, the body of the job is no longer than Cloud Tasks allows, and the
  -- task with that body has been created without an error.
  pub schedule-Logged :
      (job : Job) (w : World)
      → (schedule env codec client s job w).0 ≡ none
      → (body : List ℕ) × (marshal_job codec job ≡ ok body)
        × (length body ≤ max_task_body_size)
        × Logged
            (task_created (task_for env codec client s job body) none)
            (schedule env codec client s job w).1.history
  schedule-Logged job w h = elim (Result-cases (marshal_job codec job)) [
    | inr (e, bad) ↦ absurd (schedule-unmarshalled job w bad h)
    | inl (body, good) ↦ elim (Bool-cases (ltb max_task_body_size (length body))) [
      | inl large ↦ absurd (schedule-too_large job w good large h)
      | inr small ↦
          let same = schedule-submit job w good small in
          (
            body,
            good,
            ground arith,
            rw same (submit-Logged job (now env w).0 body (now env w).1 (rw same at h)),
          )
    ]
  ]

  -- The task of the job, with a body that Cloud Tasks accepts, has been created without an error.
  abbrev pub Created : Job → List Event → Type 0
  Created job history =
      (body : List ℕ) × (marshal_job codec job ≡ ok body)
      × (length body ≤ max_task_body_size)
      × Logged (task_created (task_for env codec client s job body) none) history

  pub cloud_tasks_scheduler-Vouches : Vouches (schedule env codec client s) Created
  cloud_tasks_scheduler-Vouches = record {
    vouched = schedule-Logged;
    lasting = λ job h h' later (body, good, small, logged).
        (body, good, small, Logged-later _ h h' later logged);
  }
