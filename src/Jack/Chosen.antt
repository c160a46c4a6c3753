-- ===== src/Jack/Chosen.antt =====
-- The backend and the scheduler that cmd/jack/main.go chooses where Pub/Sub and Cloud Tasks are configured.
use mathlib.Core.Option.{some-injective}
use jack_service.Common.{
  arith, true, false, ◌≡◌, sym, ap, Option, none, some, ok, inl, inr, Result-cases, ok-injective,
}
use jack_service.Common.Text.{◌==◌, ◌+++◌}
use jack_service.Go.{Error}
use jack_service.Queue.{Backend}
use jack_service.Queue.PubSub.{PubSubBackend, PubSubConfig, new_pubsub_backend, pubsub_backend}
use jack_service.Queue.Adapter.{legacy_adapter}
use jack_service.Scheduler.{Scheduler}
use jack_service.Scheduler.CloudTasks.{
  CloudTasksScheduler, CloudTasksConfig, trim_right_slashes, new_cloud_tasks_scheduler,
  cloud_tasks_scheduler,
}
use jack_service.Api.Callback.{callback_path}
use jack_service.Config.{Config}
use jack_service.Jack.{Platform, pubsub_config, tasks_config, choose_backend, choose_scheduler}

callback_url-new :
    (client : Option Error) (cfg : CloudTasksConfig) (s : CloudTasksScheduler)
    → new_cloud_tasks_scheduler client cfg ≡ ok s
    → s.callback_url ≡ trim_right_slashes cfg.callback_base_url +++ callback_path
unfolding new_cloud_tasks_scheduler
callback_url-new none cfg s h = sym (ap (λ x. x.callback_url) (ok-injective h))
callback_url-new (some e) cfg s h = absurd (cc)

adapter-new :
    (client : Option Error) (cfg : PubSubConfig) (b : PubSubBackend)
    → new_pubsub_backend client cfg ≡ ok b
    → cfg.adapter ≡ some b.adapter
unfolding new_pubsub_backend
adapter-new client cfg b h = ground arith

module _ (platform : Platform) (cfg : Config) where
  -- The scheduler that is chosen where Cloud Tasks is configured.
  pub cloud_tasks_chosen :
      (scheduler : Scheduler)
      → (cfg.cloud_tasks_project == "") ≡ false
      → choose_scheduler platform cfg ≡ ok scheduler
      → (s : CloudTasksScheduler) × (new_cloud_tasks_scheduler platform.tasks_client
            (tasks_config platform cfg)
          ≡ ok s)
        × (scheduler
            ≡ cloud_tasks_scheduler platform.env platform.codec platform.tasks s platform.order)
        × (s.callback_url ≡ trim_right_slashes cfg.callback_base_url +++ callback_path)
  unfolding choose_scheduler
  cloud_tasks_chosen scheduler given h =
      elim (Result-cases
        (new_cloud_tasks_scheduler platform.tasks_client (tasks_config platform cfg))) [
          | inr (e, bad) ↦ absurd (cc (rw (given, bad) at h))
          | inl (s, fine) ↦ (
            s,
            fine,
            sym (ok-injective (rw (given, fine) at h)),
            callback_url-new platform.tasks_client (tasks_config platform cfg) s fine,
          )
        ]

  -- The backend that is chosen for QUEUE_BACKEND=pubsub has the legacy adapter.
  pub pubsub_chosen :
      (backend : Backend)
      → (cfg.queue_backend == "pubsub") ≡ true
      → choose_backend platform cfg ≡ ok backend
      → (b : PubSubBackend) × (new_pubsub_backend platform.pubsub_client
            (pubsub_config platform cfg)
          ≡ ok b)
        × (backend ≡ pubsub_backend platform.env platform.pubsub b)
        × (legacy_adapter platform.env platform.legacy_json ≡ b.adapter)
  unfolding choose_backend
  pubsub_chosen backend chosen h =
      elim (Result-cases (new_pubsub_backend platform.pubsub_client (pubsub_config platform cfg))) [
        | inr (e, bad) ↦ absurd (cc (rw (chosen, bad) at h))
        | inl (b, fine) ↦ (
          b,
          fine,
          sym (ok-injective (rw (chosen, fine) at h)),
          some-injective _ _
              (adapter-new platform.pubsub_client (pubsub_config platform cfg) b fine),
        )
      ]
