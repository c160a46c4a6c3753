-- ===== src/Api/Admin/Invariant.antt =====
-- An invariant of the registry for the handlers of internal/api/admin_server.go, over a store with its contract.
use jack_service.Common.{
  String, ◌≡◌, ◌≢◌, refl, ap, ◌∙◌, none, some, ok, if◌then◌else◌, Bool-cases, Option-cases, inl,
  inr,
}
use jack_service.Common.Map.{Map, lookup, lookup-insert}
use jack_service.Common.Text.{◌==◌, eq_iff}
use jack_service.Proto.{Producer, JobType, CreateProducerRequest, CreateJobTypeRequest}
use jack_service.World.{World, Env, now}
use jack_service.Storage.{Store, Services, job_type_key}
use jack_service.Storage.Keys.{NoColon, job_type_key-injective}
use jack_service.Storage.Laws.{AreRegistry, IsRegistry}
use jack_service.Storage.Contract.{IsStore, Creates-keeps}
use jack_service.Storage.Memory
use jack_service.Storage.Memory.{memory_store, put_producer, put_job_type}
use jack_service.Storage.Memory.Laws.{create_producer-IsRegistry, create_job_type-IsRegistry}
use jack_service.Api.Admin.{
  producer_of, job_type_of, generate_producer_id, create_producer, create_job_type,
}
use jack_service.Api.Admin.Ids.{generate_producer_id-NoColon}

pub record HasPlainIds (producers : Map Producer) : Type 0 where
  pub plain : (k : String) → lookup k producers ≢ none → NoColon k

-- Both invariants.
pub record IsAdministered (w : World) : Type 0 where
  pub registry : IsRegistry w
  pub ids : HasPlainIds w.producers

module _ (env : Env) (services : Services) where
  put_producer-HasPlainIds :
      (p : Producer) (w : World)
      → NoColon p.producer_id
      → HasPlainIds w.producers
      → HasPlainIds (put_producer p w).1.producers
  unfolding put_producer
  put_producer-HasPlainIds p w n h = record {
    plain = λ k there. elim (Bool-cases (p.producer_id == k)) [
      | inl same ↦ rw (← (eq_iff p.producer_id k).0 same) n
      | inr other ↦ h.plain k (λ e. there (
          lookup-insert p.producer_id k p w.producers
          ∙ ap (λ b. if b then some p else lookup k w.producers) other
          ∙ e))
    ];
  }

  memory-HasPlainIds :
      (p : Producer) (w : World)
      → NoColon p.producer_id
      → HasPlainIds w.producers
      → HasPlainIds (Memory.create_producer env services p w).1.producers
  unfolding Memory.create_producer
  memory-HasPlainIds p w n h = elim (Option-cases (lookup p.producer_id w.producers)) [
    | inr (old, there) ↦ rw (there, Memory.create_producer) h
    | inl new ↦ rw (new, Memory.create_producer) (put_producer-HasPlainIds _ (now env w).1 n h)
  ]

  memory_keeps_producers :
      (jt : JobType) (w : World)
      → (Memory.create_job_type env services jt w).1.producers ≡ w.producers
  unfolding Memory.create_job_type put_job_type
  memory_keeps_producers jt w = elim (Option-cases (lookup jt.producer_id w.producers)) [
    | inl missing ↦ rw (missing, Memory.create_job_type) refl
    | inr (p, there) ↦
        elim (Option-cases (lookup (job_type_key jt.producer_id jt.name) w.job_types)) [
          | inr (old, found) ↦ rw (there, found, Memory.create_job_type) refl
          | inl new ↦ rw (there, new, Memory.create_job_type) refl
        ]
  ]

  generate_producer_id-IsAdministered :
      (w : World) → IsAdministered w → IsAdministered (generate_producer_id env w).1
  unfolding generate_producer_id
  generate_producer_id-IsAdministered w a = record { registry = a.registry; ids = a.ids }

  module _ (s : Store) (is : IsStore env services s) where
    -- Over a store that keeps its contract CreateProducer keeps the registry well formed and the producer IDs free of colons,
    -- whatever it answers.
    pub create_producer-IsAdministered :
        (req : CreateProducerRequest) (w : World)
        → IsAdministered w
        → IsAdministered (create_producer env s req w).1
    unfolding create_producer
    create_producer-IsAdministered req w a = elim (Bool-cases (req.name == "")) [
      | inl unnamed ↦ rw (unnamed, create_producer) a
      | inr named ↦
          let (id, drawn) = generate_producer_id env w in
          let b = generate_producer_id-IsAdministered w a in
          rw (named, create_producer)
            (record {
              registry =
                  Creates-keeps AreRegistry drawn _ _
                    (is.creates_producer (producer_of req id) drawn)
                    (create_producer-IsRegistry env services (producer_of req id) drawn b.registry)
                    b.registry;
              ids =
                  Creates-keeps (λ producers job_types. HasPlainIds producers) drawn _ _
                    (is.creates_producer (producer_of req id) drawn)
                    (memory-HasPlainIds (producer_of req id) drawn
                      (generate_producer_id-NoColon env w) b.ids)
                    b.ids;
            })
    ]

    -- Over a store that keeps its contract CreateJobType keeps the registry well formed and the producer IDs free of colons,
    -- whatever it answers.
    pub create_job_type-IsAdministered :
        (req : CreateJobTypeRequest) (w : World)
        → IsAdministered w
        → IsAdministered (create_job_type env s req w).1
    unfolding create_job_type
    create_job_type-IsAdministered req w a = elim (Bool-cases (req.producer_id == "")) [
      | inl missing ↦ rw (missing, create_job_type) a
      | inr given ↦ elim (Bool-cases (req.name == "")) [
        | inl missing ↦ rw (given, missing, create_job_type) a
        | inr named ↦
            rw (given, named, create_job_type)
              (record {
                registry =
                    Creates-keeps AreRegistry w _ _ (is.creates_job_type (job_type_of req) w)
                      (create_job_type-IsRegistry env services (job_type_of req) w a.registry)
                      a.registry;
                ids =
                    Creates-keeps (λ producers job_types. HasPlainIds producers) w _ _
                      (is.creates_job_type (job_type_of req) w) (rw memory_keeps_producers a.ids)
                      a.ids;
              })
      ]
    ]

-- Where the registry is well formed and no producer ID holds a colon, the job type that GetJobType finds for a
-- registered producer is this producer's own, and has the name asked for.
pub get_job_type-own :
    (env : Env) (services : Services) (s : Store) (is : IsStore env services s)
    (producer_id name : String) (w : World) (jt : JobType)
    → IsAdministered w
    → lookup producer_id w.producers ≢ none
    → (s.get_job_type producer_id name w).0 ≡ ok jt
    → (jt.producer_id ≡ producer_id) × (jt.name ≡ name)
unfolding Memory.get_job_type
get_job_type-own env services s is producer_id name w jt a registered g =
    let h = rw is.gets_job_type at g in
    elim (Option-cases (lookup (job_type_key producer_id name) w.job_types)) [
      | inl missing ↦ absurd (cc (rw (missing, Memory.get_job_type) at h))
      | inr (found, there) ↦
          let same : found ≡ jt = cc (rw (there, Memory.get_job_type) at h) in
          let at_key =
            ap (λ j. lookup (job_type_key producer_id name) w.job_types) same
            ∙ there
            ∙ ap some same in
          job_type_key-injective jt.producer_id producer_id jt.name name
            (a.ids.plain jt.producer_id (a.registry.job_type_owned _ jt at_key))
            (a.ids.plain producer_id registered) (a.registry.job_type_keyed _ jt at_key)
    ]
