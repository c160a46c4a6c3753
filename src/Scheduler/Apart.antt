-- ===== src/Scheduler/Apart.antt =====
-- The schedulers (internal/scheduler/noop.go, cloudtasks.go) and the maps of the store.
use jack_service.Common.{
  refl, ℕ, List, [], ◌∷◌, arith, length, get_elem?, ltb, Bool-cases, Option-cases, Result-cases,
  inl, inr,
}
use jack_service.World.{Env, now}
use jack_service.Go.{Instant}
use jack_service.Queue.{Job, EnqueueResult}
use jack_service.Scheduler.{
  Scheduler, Codec, marshal_job, noop_schedule, noop_schedule_bulk, noop_scheduler,
}
use jack_service.Scheduler.CloudTasks.{
  Client, CloudTasksScheduler, max_task_body_size, create_task, submit, schedule, run_one, run_all,
  schedule_bulk, cloud_tasks_scheduler,
}
use jack_service.Storage.Laws.{LeavesMaps, SameMaps-refl, SameMaps-trans}

pub record IsApartScheduler (scheduler : Scheduler) : Type 0 where
  pub on_schedule : (job : Job) → LeavesMaps (scheduler.schedule job)
  pub on_schedule_bulk : (jobs : List Job) → LeavesMaps (scheduler.schedule_bulk jobs)

noop_bulk-LeavesMaps : (jobs : List Job) → LeavesMaps (noop_schedule_bulk jobs)
unfolding noop_schedule_bulk
noop_bulk-LeavesMaps [] = record { leaves = SameMaps-refl }
noop_bulk-LeavesMaps (job ∷ jobs) = record { leaves = λ w. (noop_bulk-LeavesMaps jobs).leaves w }

pub noop_scheduler-IsApartScheduler : IsApartScheduler noop_scheduler
unfolding noop_schedule
noop_scheduler-IsApartScheduler = record {
  on_schedule = λ job. record { leaves = SameMaps-refl };
  on_schedule_bulk = noop_bulk-LeavesMaps;
}

module _ (env : Env) (codec : Codec) (client : Client) (s : CloudTasksScheduler) where
  submit-LeavesMaps :
      (job : Job) (start : Instant) (body : List ℕ)
      → LeavesMaps (submit env codec client s job start body)
  unfolding submit create_task
  submit-LeavesMaps job start body = record {
    leaves = λ w. record { same_producers = ground arith; same_job_types = ground arith };
  }

  schedule-LeavesMaps : (job : Job) → LeavesMaps (schedule env codec client s job)
  unfolding schedule
  schedule-LeavesMaps job = elim (Result-cases (marshal_job codec job)) [
    | inr (e, bad) ↦
        rw (bad, schedule)
          (record { leaves = λ w. record { same_producers = refl; same_job_types = refl } })
    | inl (body, good) ↦ elim (Bool-cases (ltb max_task_body_size (length body))) [
      | inl large ↦ record {
        leaves = λ w.
            rw (good, large, schedule) (record { same_producers = refl; same_job_types = refl });
      }
      | inr small ↦ record {
        leaves = λ w.
            rw (good, small, schedule)
              (let v = (now env w).1 in
                SameMaps-trans w v _ (record { same_producers = refl; same_job_types = refl })
                  ((submit-LeavesMaps job (now env w).0 body).leaves v));
      }
    ]
  ]

  run_one-LeavesMaps :
      (jobs : List Job) (i : ℕ) (results : List EnqueueResult)
      → LeavesMaps (run_one env codec client s jobs i results)
  unfolding run_one
  run_one-LeavesMaps jobs i results = elim (Option-cases (get_elem? jobs i)) [
    | inl nothing ↦ rw (nothing, run_one) (record { leaves = SameMaps-refl })
    | inr (job, there) ↦
        rw (there, run_one) (record { leaves = λ w. (schedule-LeavesMaps job).leaves w })
  ]

  run_all-LeavesMaps :
      (jobs : List Job) (order : List ℕ) (results : List EnqueueResult)
      → LeavesMaps (run_all env codec client s jobs order results)
  unfolding run_all
  run_all-LeavesMaps jobs [] results = record { leaves = SameMaps-refl }
  run_all-LeavesMaps jobs (i ∷ order) results = record {
    leaves = λ w.
        let (results', v) = run_one env codec client s jobs i results w in
        SameMaps-trans w v _ ((run_one-LeavesMaps jobs i results).leaves w)
          ((run_all-LeavesMaps jobs order results').leaves v);
  }

  pub cloud_tasks_scheduler-IsApartScheduler :
      (order : ℕ → List ℕ) → IsApartScheduler (cloud_tasks_scheduler env codec client s order)
  unfolding schedule_bulk
  cloud_tasks_scheduler-IsApartScheduler order = record {
    on_schedule = schedule-LeavesMaps;
    on_schedule_bulk =
        λ jobs. record { leaves = λ w. (run_all-LeavesMaps jobs (order (length jobs)) _).leaves w };
  }
