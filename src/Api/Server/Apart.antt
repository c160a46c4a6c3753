-- ===== src/Api/Server/Apart.antt =====
-- `Enqueue` of internal/api/server.go and the maps of the store.
use jack_service.Common.{
  Bool, String, ◌≡◌, refl, ℕ, List, Option, none, some, arith, length, Bool-cases, Option-cases,
  inl, inr, if◌then◌else◌,
}
use jack_service.Common.Text.{◌==◌}
use jack_service.Common.Int.{pos, ltb_ℤ}
use jack_service.Go.{Instant, Error}
use jack_service.Proto.{EnqueueRequest}
use jack_service.World.{World, Env, now}
use jack_service.JobId.{generate}
use jack_service.Queue.{Job}
use jack_service.Queue.Apart.{IsApartBackend}
use jack_service.Scheduler.{Scheduler}
use jack_service.Scheduler.Apart.{IsApartScheduler}
use jack_service.Storage.{Services}
use jack_service.Storage.Contract.{IsStore}
use jack_service.Storage.Laws.{SameMaps, LeavesMaps, SameMaps-refl, SameMaps-trans}
use jack_service.Storage.Reading.{get_producer-LeavesMaps, get_job_type-LeavesMaps}
use jack_service.Storage.{Store}
use jack_service.Api.Server.{
  Server, Libraries, Context, shadow_from_context, producer_warnings, get_job_type_config,
  routing_config, prepare_job, legacy_payload_priority, scheduler_for,
}
use jack_service.Api.Server.Enqueue.{after_queue, after_schedule, dispatch_to, dispatch, enqueue}
use jack_service.Api.Server.Chosen.{Chosen, to_wait, scheduler_for-Chosen}

-- The parts of a server do not touch the maps: its store keeps the contract, and its backend and scheduler are apart.
pub record HasParts (env : Env) (services : Services) (s : Server) : Type 0 where
  pub store_kept : (store : Store) → s.store ≡ some store → IsStore env services store
  pub backend_apart : IsApartBackend s.backend
  pub scheduler_apart :
      (scheduler : Scheduler) → s.scheduler ≡ some scheduler → IsApartScheduler scheduler

module _ (lib : Libraries) (s : Server) (env : Env) (services : Services)
    (has : HasParts env services s) where
  producer_warnings-LeavesMaps : (id : String) → LeavesMaps (producer_warnings lib s id)
  unfolding producer_warnings
  producer_warnings-LeavesMaps id = elim (Option-cases s.store) [
    | inl nothing ↦ rw (nothing, producer_warnings) (record { leaves = SameMaps-refl })
    | inr (store, there) ↦
        rw (there, producer_warnings)
          (record {
            leaves = λ w.
                (get_producer-LeavesMaps env services store (has.store_kept store there) id).leaves
                  w;
          })
  ]

  get_job_type_config-LeavesMaps :
      (id name : String) → LeavesMaps (get_job_type_config lib s id name)
  unfolding get_job_type_config
  get_job_type_config-LeavesMaps id name = elim (Option-cases s.store) [
    | inl nothing ↦ rw (nothing, get_job_type_config) (record { leaves = SameMaps-refl })
    | inr (store, there) ↦
        rw (there, get_job_type_config)
          (record {
            leaves = λ w.
                (get_job_type-LeavesMaps env services store (has.store_kept store there) id
                    name).leaves
                  w;
          })
  ]

  routing_config-LeavesMaps :
      (id name : String) (payload : List ℕ) → LeavesMaps (routing_config lib s id name payload)
  unfolding routing_config
  routing_config-LeavesMaps id name payload =
      elim (Option-cases (
        if s.config.legacy_payload_queue_routing
        then legacy_payload_priority lib payload
        else none)) [
          | inl silent ↦ rw (silent, routing_config) (get_job_type_config-LeavesMaps id name)
          | inr (priority, named) ↦
              rw (named, routing_config)
                (record { leaves = λ w. record { same_producers = refl; same_job_types = refl } })
        ]

  pub prepare_job-LeavesMaps :
      (shadow : Bool) (req : EnqueueRequest) → LeavesMaps (prepare_job lib s shadow req)
  unfolding prepare_job generate
  prepare_job-LeavesMaps shadow req = record {
    leaves = λ w.
        let u = (producer_warnings lib s req.producer_id w).1 in
        let v = (routing_config lib s req.producer_id req.job_type req.payload u).1 in
        SameMaps-trans w u _ ((producer_warnings-LeavesMaps req.producer_id).leaves w) (
          SameMaps-trans u v _
            ((routing_config-LeavesMaps req.producer_id req.job_type req.payload).leaves u)
            (record { same_producers = refl; same_job_types = refl }));
  }

  pub scheduler_for-LeavesMaps : (job : Job) → LeavesMaps (scheduler_for lib s job)
  unfolding scheduler_for
  scheduler_for-LeavesMaps job = record {
    leaves = λ w. record { same_producers = ground arith; same_job_types = ground arith };
  }

  module _ (req : EnqueueRequest) (job : Job) (warnings : List String) (start : Instant) where
    after_queue-LeavesMaps :
        (outcome : Option Error) → LeavesMaps (after_queue lib req job warnings start outcome)
    unfolding after_queue
    after_queue-LeavesMaps none = record {
      leaves = λ w. record { same_producers = refl; same_job_types = refl };
    }
    after_queue-LeavesMaps (some e) = record {
      leaves = λ w. record { same_producers = ground arith; same_job_types = ground arith };
    }

    after_schedule-LeavesMaps :
        (outcome : Option Error) → LeavesMaps (after_schedule lib req job warnings start outcome)
    unfolding after_schedule
    after_schedule-LeavesMaps none = record {
      leaves = λ w. record { same_producers = refl; same_job_types = refl };
    }
    after_schedule-LeavesMaps (some e) = record {
      leaves = λ w. record { same_producers = refl; same_job_types = refl };
    }

    dispatch-LeavesMaps : LeavesMaps (dispatch lib s req job warnings start)
    unfolding dispatch dispatch_to
    dispatch-LeavesMaps = record {
      leaves = λ w.
          let v = (scheduler_for lib s job w).1 in
          SameMaps-trans w v _ ((scheduler_for-LeavesMaps job).leaves w) (
            dispatch_to-SameMaps (scheduler_for lib s job w).0 v
              (scheduler_for-Chosen lib s job w));
    }
      where
        dispatch_to-SameMaps :
            (delayed : Option Scheduler) (v : World)
            → Chosen lib s job delayed
            → SameMaps v (dispatch_to lib s req job warnings start delayed v).1
        dispatch_to-SameMaps none v c =
            let (outcome, u) = s.backend.enqueue job v in
            SameMaps-trans v u _ ((has.backend_apart.on_enqueue job).leaves v)
              ((after_queue-LeavesMaps outcome).leaves u)
        dispatch_to-SameMaps (some scheduler) v (to_wait clock there enabled far) =
            let (outcome, u) = scheduler.schedule job v in
            SameMaps-trans v u _ (((has.scheduler_apart scheduler there).on_schedule job).leaves v)
              ((after_schedule-LeavesMaps outcome).leaves u)

  pub enqueue-LeavesMaps :
      (ctx : Context) (req : EnqueueRequest) → LeavesMaps (enqueue lib s ctx req)
  unfolding enqueue
  enqueue-LeavesMaps ctx req = elim (Bool-cases (req.producer_id == "")) [
    | inl missing ↦
        rw (missing, enqueue)
          (record { leaves = λ w. record { same_producers = refl; same_job_types = refl } })
    | inr given ↦ elim (Bool-cases (req.job_type == "")) [
      | inl missing ↦
          rw (given, missing, enqueue)
            (record { leaves = λ w. record { same_producers = refl; same_job_types = refl } })
      | inr named ↦ elim (Bool-cases (ltb_ℤ s.config.max_payload_size (pos (length req.payload)))) [
        | inl large ↦
            rw (given, named, large, enqueue)
              (record { leaves = λ w. record { same_producers = refl; same_job_types = refl } })
        | inr small ↦
            rw (given, named, small, enqueue)
              (record {
                leaves = λ w.
                    let (start, u) = now lib.env w in
                    let ((job, warnings), v) = prepare_job lib s (shadow_from_context ctx) req u in
                    SameMaps-trans w v _
                      ((prepare_job-LeavesMaps (shadow_from_context ctx) req).leaves u)
                      ((dispatch-LeavesMaps req job warnings start).leaves v);
              })
      ]
    ]
  ]
