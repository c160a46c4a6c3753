-- ===== src/Jack/Runs/Apart.antt =====
-- The calls that a process (cmd/jack/main.go) answers, and the maps of its store.
use mathlib.Core.Option.{some-injective}
use text.Mathlib.Text.{starts_with}
use jack_service.Common.{◌≡◌, sym, ◌∙◌, String, ◌&&◌, ok, inl, inr, eqb, Bool-cases, ok-injective}
use jack_service.Common.Map.{Map}
use jack_service.Common.Text.{◌==◌}
use jack_service.Proto.{Producer, JobType, CreateProducerRequest, CreateJobTypeRequest}
use jack_service.World.{World}
use jack_service.Queue.{Backend, default_config}
use jack_service.Queue.Apart.{
  IsApartBackend, noop_backend-IsApartBackend, legacy_adapter-LeavesMaps,
  pubsub_backend-IsApartBackend,
}
use jack_service.Scheduler.{Scheduler}
use jack_service.Scheduler.Apart.{
  IsApartScheduler, noop_scheduler-IsApartScheduler, cloud_tasks_scheduler-IsApartScheduler,
}
use jack_service.Storage.Laws.{SameMaps, LeavesMaps, SameMaps-refl}
use jack_service.Storage.Reading.{
  get_producer-LeavesMaps, list_producers-LeavesMaps, list_job_types-LeavesMaps,
}
use jack_service.Api.Admin
use jack_service.Api.Callback.Apart.{serve_mux-LeavesMaps}
use jack_service.Api.Http.{HttpRequest}
use jack_service.Api.Server.{Libraries}
use jack_service.Api.Server.Apart.{HasParts, enqueue-LeavesMaps}
use jack_service.Api.Server.Bulk.Apart.{enqueue_bulk-LeavesMaps}
use jack_service.Config.{Config}
use jack_service.Jack.{Platform, Process, choose_backend, choose_scheduler, start, serve}
use jack_service.Jack.Assembled.{start-Assembled, start-IsStore}
use jack_service.Jack.Chosen.{cloud_tasks_chosen, pubsub_chosen}
use jack_service.Jack.Runs.{
  Call, enqueue_call, enqueue_bulk_call, create_producer_call, get_producer_call,
  list_producers_call, create_job_type_call, list_job_types_call, http_call, handle, Reaches, here,
  answer,
}

module _ (platform : Platform) (cfg : Config) where
  choose_backend-IsApartBackend :
      (backend : Backend) → choose_backend platform cfg ≡ ok backend → IsApartBackend backend
  unfolding choose_backend
  choose_backend-IsApartBackend backend h = elim (Bool-cases (cfg.queue_backend == "pubsub")) [
    | inr other ↦
        rw (← (ok-injective (rw (other) at h))) (noop_backend-IsApartBackend default_config)
    | inl chosen ↦
        let (b, _, same, legacy) = pubsub_chosen platform cfg backend chosen h in
        rw same (
          pubsub_backend-IsApartBackend platform.env platform.pubsub b (λ job.
            rw (← legacy) (legacy_adapter-LeavesMaps platform.env platform.legacy_json job)))
  ]

  choose_scheduler-IsApartScheduler :
      (scheduler : Scheduler)
      → choose_scheduler platform cfg ≡ ok scheduler
      → IsApartScheduler scheduler
  unfolding choose_scheduler
  choose_scheduler-IsApartScheduler scheduler h =
      elim (Bool-cases (cfg.cloud_tasks_project == "")) [
        | inl missing ↦ rw (← (ok-injective (rw (missing) at h))) noop_scheduler-IsApartScheduler
        | inr given ↦
            let (s, _, same, _) = cloud_tasks_chosen platform cfg scheduler given h in
            rw same (
              cloud_tasks_scheduler-IsApartScheduler platform.env platform.codec platform.tasks s
                platform.order)
      ]

  module _ (w : World) (p : Process) (h : (start platform cfg w).0 ≡ ok p) where
    start-HasParts : HasParts platform.env platform.services p.runtime
    start-HasParts =
        let a = start-Assembled platform cfg w p h in
        record {
          store_kept = λ store there.
              rw (← (some-injective _ _ (sym a.has_store ∙ there)))
                (start-IsStore platform cfg w p h);
          backend_apart = choose_backend-IsApartBackend p.runtime.backend a.chose_backend;
          scheduler_apart = λ scheduler there.
              rw (← (some-injective _ _ (sym a.has_scheduler ∙ there)))
                (choose_scheduler-IsApartScheduler a.scheduler a.chose_scheduler);
        }

    serve-LeavesMaps : (r : HttpRequest) → LeavesMaps (serve platform cfg p r)
    unfolding serve
    serve-LeavesMaps r =
        elim (Bool-cases (eqb r.proto_major 2 && starts_with r.content_type "application/grpc")) [
          | inl grpc ↦ rw (grpc, serve) (record { leaves = SameMaps-refl })
          | inr other ↦
              let a = start-Assembled platform cfg w p h in
              rw (other, serve)
                (serve_mux-LeavesMaps platform.env platform.codec p.callback_backend
                  (rw (a.same_backend)
                    (choose_backend-IsApartBackend p.runtime.backend a.chose_backend))
                  r)
        ]

    get_producer_call-LeavesMaps :
        (id : String) → LeavesMaps (Admin.get_producer platform.env p.admin_store id)
    unfolding Admin.get_producer
    get_producer_call-LeavesMaps id = elim (Bool-cases (id == "")) [
      | inl missing ↦ rw (missing, Admin.get_producer) (record { leaves = SameMaps-refl })
      | inr given ↦
          rw (given, Admin.get_producer)
            (record {
              leaves = λ u.
                  (get_producer-LeavesMaps platform.env platform.services p.admin_store
                      (start-IsStore platform cfg w p h) id).leaves
                    u;
            })
    ]

    list_job_types_call-LeavesMaps :
        (id : String) → LeavesMaps (Admin.list_job_types platform.env p.admin_store id)
    unfolding Admin.list_job_types
    list_job_types_call-LeavesMaps id = elim (Bool-cases (id == "")) [
      | inl missing ↦ rw (missing, Admin.list_job_types) (record { leaves = SameMaps-refl })
      | inr given ↦
          rw (given, Admin.list_job_types)
            (record {
              leaves = λ u.
                  (list_job_types-LeavesMaps platform.env platform.services p.admin_store
                      (start-IsStore platform cfg w p h) id).leaves
                    u;
            })
    ]

    -- What holds of the maps, and what the two creations keep, every call keeps.
    module _ (lib : Libraries) (P : Map Producer → Map JobType → Type 0)
        (created_producer : (req : CreateProducerRequest) (u : World)
          → P u.producers u.job_types
          → (let v = (Admin.create_producer platform.env p.admin_store req u).1 in
              P v.producers v.job_types))
        (created_job_type : (req : CreateJobTypeRequest) (u : World)
          → P u.producers u.job_types
          → (let v = (Admin.create_job_type platform.env p.admin_store req u).1 in
              P v.producers v.job_types)) where
      left : (u v : World) → SameMaps u v → P u.producers u.job_types → P v.producers v.job_types
      left u v same x = rw (same.same_producers, same.same_job_types) x

      handle_keeps :
          (c : Call) (u : World)
          → P u.producers u.job_types
          → (let v = handle lib platform cfg p c u in P v.producers v.job_types)
      unfolding handle Admin.list_producers
      handle_keeps (enqueue_call ctx req) u = left u _ (
          (enqueue-LeavesMaps lib p.runtime platform.env platform.services start-HasParts ctx
              req).leaves
            u)
      handle_keeps (enqueue_bulk_call ctx reqs) u = left u _ (
          (enqueue_bulk-LeavesMaps lib p.runtime platform.env platform.services start-HasParts ctx
              reqs).leaves
            u)
      handle_keeps (create_producer_call req) u = created_producer req u
      handle_keeps (get_producer_call id) u = left u _ ((get_producer_call-LeavesMaps id).leaves u)
      handle_keeps list_producers_call u = left u _ (
          (list_producers-LeavesMaps platform.env platform.services p.admin_store
              (start-IsStore platform cfg w p h)).leaves
            u)
      handle_keeps (create_job_type_call req) u = created_job_type req u
      handle_keeps (list_job_types_call id) u =
          left u _ ((list_job_types_call-LeavesMaps id).leaves u)
      handle_keeps (http_call r) u = left u _ ((serve-LeavesMaps r).leaves u)

      pub run_keeps :
          (u v : World)
          → Reaches lib platform cfg p u v
          → P u.producers u.job_types
          → P v.producers v.job_types
      run_keeps u v here x = x
      run_keeps u v (answer c run) x =
          run_keeps (handle lib platform cfg p c u) v run (handle_keeps c u x)
