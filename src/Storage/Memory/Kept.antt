-- ===== src/Storage/Memory/Kept.antt =====
-- The memory store (internal/storage/memory.go) as an implementation of the interface of a store.
use jack_service.Common.{◌≢◌, refl, none, inl, inr, Option-cases}
use jack_service.Common.Map.{lookup}
use jack_service.Proto.{Producer, JobType}
use jack_service.World.{World, Env}
use jack_service.Storage.{Services, job_type_key}
use jack_service.Storage.Laws.{SameMaps}
use jack_service.Storage.Contract.{IsStore}
use jack_service.Storage.Memory.{create_producer, create_job_type, memory_store}

module _ (env : Env) (services : Services) where
  pub create_producer-failed :
      (p : Producer) (w : World)
      → (create_producer env services p w).0.0 ≢ none
      → SameMaps w (create_producer env services p w).1
  unfolding create_producer
  create_producer-failed p w failed = elim (Option-cases (lookup p.producer_id w.producers)) [
    | inl new ↦ absurd (failed (rw (new, create_producer)))
    | inr (q, old) ↦
        rw (old, create_producer) (record { same_producers = refl; same_job_types = refl })
  ]

  pub create_job_type-failed :
      (jt : JobType) (w : World)
      → (create_job_type env services jt w).0.0 ≢ none
      → SameMaps w (create_job_type env services jt w).1
  unfolding create_job_type
  create_job_type-failed jt w failed = elim (Option-cases (lookup jt.producer_id w.producers)) [
    | inl missing ↦
        rw (missing, create_job_type) (record { same_producers = refl; same_job_types = refl })
    | inr (p, there) ↦
        elim (Option-cases (lookup (job_type_key jt.producer_id jt.name) w.job_types)) [
          | inl new ↦ absurd (failed (rw (there, new, create_job_type)))
          | inr (old, found) ↦
              rw (there, found, create_job_type)
                (record { same_producers = refl; same_job_types = refl })
        ]
  ]

  pub memory_store-IsStore : IsStore env services (memory_store env services)
  memory_store-IsStore = record {
    creates_producer = λ p w. record {
      made = λ h. (refl, record { same_producers = refl; same_job_types = refl });
      unmade = create_producer-failed p w;
      refused = λ e h. refl;
    };
    creates_job_type = λ jt w. record {
      made = λ h. (refl, record { same_producers = refl; same_job_types = refl });
      unmade = create_job_type-failed jt w;
      refused = λ e h. refl;
    };
    gets_producer = λ id w. refl;
    gets_job_type = λ id name w. refl;
    lists_producers = λ w. refl;
    lists_job_types = λ id w. refl;
  }
