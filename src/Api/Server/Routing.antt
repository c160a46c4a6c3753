-- ===== src/Api/Server/Routing.antt =====
-- How `Enqueue` and `EnqueueBulk` of internal/api/server.go route a job over a store.
pub mod Registered
use jack_service.Common.{
  ℕ, String, Bool, false, ◌≡◌, refl, ap, ◌∙◌, List, Option, none, some, Result, ok, err,
  if◌then◌else◌, Option-cases, inl, inr,
}
use jack_service.Common.Int.{ℤ}
use jack_service.Common.Map.{lookup, lookup-insert}
use jack_service.Common.Text.{eq_refl}
use jack_service.Go.{Error}
use jack_service.Proto.{JobType, EnqueueRequest}
use jack_service.World.{World, Env}
use jack_service.Queue.{Priority}
use jack_service.Storage.Contract.{IsStore}
use jack_service.Storage.{Store, Services, job_type_key, job_type_missing}
use jack_service.Storage.Memory.{
  memory_store, get_producer, get_job_type, create_job_type, put_job_type,
}
use jack_service.Api.Server.{
  Server, Libraries, RoutingConfig, legacy_payload_priority, storage_queue_to_queue_priority,
  default_routing, registration_config, get_job_type_config, routing_config, producer_warnings,
  prepare_job,
}

-- What a job of a request is routed by: the priority that its payload names where the configuration
-- lets it, else what its job type is registered with, else the defaults.
pub data Source : Type 0 where
  payload : Priority → Source
  registered : JobType → Source
  defaults : Source

abbrev pub source_of : Option Priority → Option JobType → Source
source_of (some p) found = payload p
source_of none (some jt) = registered jt
source_of none none = defaults

module _ (lib : Libraries) (s : Server) where
  abbrev pub legacy_of : EnqueueRequest → Option Priority
  legacy_of q =
      if s.config.legacy_payload_queue_routing then legacy_payload_priority lib q.payload else none

  abbrev pub priority_from : Source → Priority
  priority_from (payload p) = p
  priority_from (registered jt) = storage_queue_to_queue_priority jt.queue
  priority_from defaults = s.config.default_queue

  abbrev pub retries_from : Source → ℤ
  retries_from (payload p) = s.config.default_max_retries
  retries_from (registered jt) = jt.max_retries
  retries_from defaults = s.config.default_max_retries

  abbrev Routes : Source → RoutingConfig → Type 0
  Routes source routing =
      (routing.priority ≡ priority_from source) × (routing.max_retries ≡ retries_from source)

  module _ (env : Env) (services : Services) (store : Store) (is : IsStore env services store) where
    get_job_type-found :
        (producer_id name : String) (w : World) {jt : JobType}
        → lookup (job_type_key producer_id name) w.job_types ≡ some jt
        → get_job_type env services producer_id name w ≡ (ok jt, w)
    unfolding get_job_type
    get_job_type-found producer_id name w h = rw (h, get_job_type) refl

    get_producer_world : (id : String) (w : World) → (get_producer env services id w).1 ≡ w
    unfolding get_producer
    get_producer_world id w = elim (Option-cases (lookup id w.producers)) [
      | inl missing ↦ rw (missing, get_producer) refl
      | inr (p, found) ↦ rw (found, get_producer) refl
    ]

    get_job_type-missing :
        (producer_id name : String) (w : World)
        → lookup (job_type_key producer_id name) w.job_types ≡ none
        → get_job_type env services producer_id name w
          ≡ (err (job_type_missing producer_id name), w)
    unfolding get_job_type
    get_job_type-missing producer_id name w h = rw (h, get_job_type) refl

    get_job_type_config-store :
        (producer_id name : String) (w : World)
        → s.store ≡ some store
        → (get_job_type_config lib s producer_id name w).0
          ≡ registration_config lib s producer_id name
              (get_job_type env services producer_id name w).0
    unfolding get_job_type_config
    get_job_type_config-store producer_id name w stored =
        rw (stored, get_job_type_config)
          (ap (λ x. registration_config lib s producer_id name x.0)
            (is.gets_job_type producer_id name w))

    registration_config-Routes :
        (producer_id name : String) (found : Result Error JobType)
        → Routes
            (source_of none (elim found [ ok jt ↦ some jt | err e ↦ none ]))
            (registration_config lib s producer_id name found)
    unfolding registration_config default_routing
    registration_config-Routes producer_id name (ok jt) = (refl, refl)
    registration_config-Routes producer_id name (err e) = (refl, refl)

    get_job_type_config-Routes :
        (producer_id name : String) (w : World)
        → s.store ≡ some store
        → Routes
            (source_of none (lookup (job_type_key producer_id name) w.job_types))
            (get_job_type_config lib s producer_id name w).0
    get_job_type_config-Routes producer_id name w stored =
        elim (Option-cases (lookup (job_type_key producer_id name) w.job_types)) [
          | inl missing ↦
              rw
                (
                  missing,
                  get_job_type_config-store producer_id name w stored,
                  get_job_type-missing producer_id name w missing,
                )
                (registration_config-Routes producer_id name
                  (err (job_type_missing producer_id name)))
          | inr (jt, found) ↦
              rw
                (
                  found,
                  get_job_type_config-store producer_id name w stored,
                  get_job_type-found producer_id name w found,
                )
                (registration_config-Routes producer_id name (ok jt))
        ]

    routing_config-legacy :
        (producer_id name : String) (bytes : List ℕ) (w : World) {p : Priority}
        → (if s.config.legacy_payload_queue_routing
            then legacy_payload_priority lib bytes
            else none)
          ≡ some p
        → Routes (payload p) (routing_config lib s producer_id name bytes w).0
    unfolding routing_config
    routing_config-legacy producer_id name bytes w h = rw (h, routing_config) (refl, refl)

    routing_config-other :
        (producer_id name : String) (bytes : List ℕ) (w : World)
        → (if s.config.legacy_payload_queue_routing
            then legacy_payload_priority lib bytes
            else none)
          ≡ none
        → routing_config lib s producer_id name bytes w
          ≡ get_job_type_config lib s producer_id name w
    unfolding routing_config
    routing_config-other producer_id name bytes w h = rw (h, routing_config) refl

    producer_warnings-store :
        (id : String) (w : World)
        → s.store ≡ some store
        → (producer_warnings lib s id w).1 ≡ (get_producer env services id w).1
    unfolding producer_warnings
    producer_warnings-store id w stored =
        rw (stored, producer_warnings) (ap (λ x. x.1) (is.gets_producer id w))

    routing_config-Routes :
        (q : EnqueueRequest) (w : World)
        → s.store ≡ some store
        → Routes
            (source_of (legacy_of q) (lookup (job_type_key q.producer_id q.job_type) w.job_types))
            (routing_config lib s q.producer_id q.job_type q.payload w).0
    routing_config-Routes q w stored = elim (Option-cases (legacy_of q)) [
      | inr (p, named) ↦ rw named (routing_config-legacy q.producer_id q.job_type q.payload w named)
      | inl silent ↦
          rw (silent, routing_config-other q.producer_id q.job_type q.payload w silent)
            (get_job_type_config-Routes q.producer_id q.job_type w stored)
    ]

    pub prepare_job-Routes :
        (shadow : Bool) (q : EnqueueRequest) (w : World)
        → s.store ≡ some store
        → (let source =
              source_of
                (legacy_of q)
                (lookup (job_type_key q.producer_id q.job_type) w.job_types) in
            let job = (prepare_job lib s shadow q w).0.0 in
            (job.priority ≡ priority_from source) × (job.max_retries ≡ retries_from source))
    unfolding prepare_job
    prepare_job-Routes shadow q w stored =
        let same =
          producer_warnings-store q.producer_id w stored ∙ get_producer_world q.producer_id w in
        let (a, b) = routing_config-Routes q w stored in
        (
          ap (λ v. (routing_config lib s q.producer_id q.job_type q.payload v).0.priority) same ∙ a,
          ap (λ v. (routing_config lib s q.producer_id q.job_type q.payload v).0.max_retries) same
              ∙ b,
        )
