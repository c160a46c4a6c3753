-- ===== src/Jack/Assembled.antt =====
-- The parts of a process that cmd/jack/main.go starts, and the contracts of their interfaces.
use jack_service.Common.{
  ◌≡◌, refl, sym, ap, ◌∙◌, some, Result, ok, err, Bool-cases, Option-cases, Result-cases,
  ok-injective, inl, inr,
}
use jack_service.Common.Text.{◌==◌}
use jack_service.Go.{Error}
use jack_service.World.{World}
use jack_service.Queue.{Backend, default_config}
use jack_service.Queue.Contract.{IsBackend}
use jack_service.Queue.Noop.Answers.{noop_backend-IsBackend}
use jack_service.Queue.PubSub.{new_pubsub_backend}
use jack_service.Queue.PubSub.Answers.{pubsub_backend-IsBackend}
use jack_service.Scheduler.{Scheduler, IsScheduler}
use jack_service.Scheduler.Dropped.{noop_scheduler-IsScheduler}
use jack_service.Scheduler.CloudTasks.{new_cloud_tasks_scheduler}
use jack_service.Scheduler.CloudTasks.Bulk.{RunsAll, cloud_tasks_scheduler-IsScheduler}
use jack_service.Storage.{Store}
use jack_service.Storage.Contract.{IsStore}
use jack_service.Storage.Memory.Kept.{memory_store-IsStore}
use jack_service.Storage.Gcs.Start.{new_gcs_store-ok}
use jack_service.Storage.Gcs.Kept.{gcs_store-IsStore}
use jack_service.Config.{Config}
use jack_service.Jack.{
  Platform, Process, connect_statsd, pubsub_config, tasks_config, server_config, choose_store,
  choose_backend, choose_scheduler, assemble, start,
}

module _ (platform : Platform) (cfg : Config) where
  pub choose_backend-IsBackend :
      (backend : Backend) → choose_backend platform cfg ≡ ok backend → IsBackend backend
  unfolding choose_backend
  choose_backend-IsBackend backend h = elim (Bool-cases (cfg.queue_backend == "pubsub")) [
    | inr other ↦ rw (← (ok-injective (rw (other) at h))) (noop_backend-IsBackend default_config)
    | inl chosen ↦
        elim (Result-cases
          (new_pubsub_backend platform.pubsub_client (pubsub_config platform cfg))) [
            | inr (e, bad) ↦ absurd (cc (rw (chosen, bad) at h))
            | inl (b, fine) ↦
                rw (← (ok-injective (rw (chosen, fine) at h)))
                  (pubsub_backend-IsBackend platform.env platform.pubsub b)
          ]
  ]

  pub choose_scheduler-IsScheduler :
      RunsAll platform.order
      → (scheduler : Scheduler) → choose_scheduler platform cfg ≡ ok scheduler
      → IsScheduler scheduler
  unfolding choose_scheduler
  choose_scheduler-IsScheduler all scheduler h = elim (Bool-cases (cfg.cloud_tasks_project == "")) [
    | inl missing ↦ rw (← (ok-injective (rw (missing) at h))) noop_scheduler-IsScheduler
    | inr given ↦
        elim (Result-cases
          (new_cloud_tasks_scheduler platform.tasks_client (tasks_config platform cfg))) [
            | inr (e, bad) ↦ absurd (cc (rw (given, bad) at h))
            | inl (s, fine) ↦ rw (← (ok-injective (rw (given, fine) at h))) (
                cloud_tasks_scheduler-IsScheduler platform.env platform.codec platform.tasks s
                  platform.order all)
          ]
  ]

  choose_store-IsStore :
      (w : World) (store : Store)
      → (choose_store platform cfg w).0 ≡ ok store
      → IsStore platform.env platform.services store
  unfolding choose_store
  choose_store-IsStore w store h = elim (Bool-cases (cfg.gcs_bucket == "")) [
    | inl in_memory ↦
        rw (← (ok-injective (rw (in_memory, choose_store) at h)))
          (memory_store-IsStore platform.env platform.services)
    | inr in_bucket ↦
        rw
          (← (
            new_gcs_store-ok platform.env platform.services platform.bucket cfg.gcs_prefix
              platform.storage_client w (rw (in_bucket, choose_store) at h)))
          (gcs_store-IsStore platform.env platform.services platform.bucket cfg.gcs_prefix)
  ]

  -- The parts of a process that has been put together, in which the servers share the store and the backend.
  pub record Assembled (p : Process) : Type 0 where
    pub scheduler : Scheduler
    pub chose_backend : choose_backend platform cfg ≡ ok p.runtime.backend
    pub chose_scheduler : choose_scheduler platform cfg ≡ ok scheduler
    pub has_scheduler : p.runtime.scheduler ≡ some scheduler
    pub has_store : p.runtime.store ≡ some p.admin_store
    pub same_backend : p.callback_backend ≡ p.runtime.backend
    pub configured : p.runtime.config ≡ server_config platform cfg

  assemble-Assembled :
      (store : Result Error Store) (backend : Result Error Backend)
      (scheduler : Result Error Scheduler) (p : Process)
      → choose_backend platform cfg ≡ backend
      → choose_scheduler platform cfg ≡ scheduler
      → assemble platform cfg store backend scheduler ≡ ok p
      → Assembled p × (store ≡ ok p.admin_store)
  unfolding assemble
  assemble-Assembled (err e) backend scheduler p b c h = absurd (cc)
  assemble-Assembled (ok store) (err e) scheduler p b c h = absurd (cc)
  assemble-Assembled (ok store) (ok backend) (err e) p b c h = absurd (cc)
  assemble-Assembled (ok store) (ok backend) (ok scheduler) p b c h =
      let same = ok-injective h in
      (
        record {
          scheduler = scheduler;
          chose_backend = b ∙ ap ok (ap (λ x. x.runtime.backend) same);
          chose_scheduler = c;
          has_scheduler = sym (ap (λ x. x.runtime.scheduler) same);
          has_store = sym (ap (λ x. x.runtime.store) same) ∙ ap (λ x. some x.admin_store) same;
          same_backend = sym (ap (λ x. x.callback_backend) same) ∙ ap (λ x. x.runtime.backend) same;
          configured = sym (ap (λ x. x.runtime.config) same);
        },
        ap (λ x. ok x.admin_store) same,
      )

  started :
      (w : World) (p : Process)
      → (start platform cfg w).0 ≡ ok p
      → Assembled p × ((choose_store platform cfg w).0 ≡ ok p.admin_store)
  unfolding start
  started w p h = elim (Option-cases (connect_statsd platform cfg)) [
    | inr (e, bad) ↦ absurd (cc (rw (bad, start) at h))
    | inl fine ↦
        assemble-Assembled (choose_store platform cfg w).0 _ _ p refl refl (rw (fine, start) at h)
  ]

  pub start-Assembled : (w : World) (p : Process) → (start platform cfg w).0 ≡ ok p → Assembled p
  start-Assembled w p h = (started w p h).0

  pub start-choose_store :
      (w : World) (p : Process)
      → (start platform cfg w).0 ≡ ok p
      → (choose_store platform cfg w).0 ≡ ok p.admin_store
  start-choose_store w p h = (started w p h).1

  -- The store of a process that has started keeps the contract of the interface.
  pub start-IsStore :
      (w : World) (p : Process)
      → (start platform cfg w).0 ≡ ok p
      → IsStore platform.env platform.services p.admin_store
  start-IsStore w p h = choose_store-IsStore w p.admin_store (started w p h).1
