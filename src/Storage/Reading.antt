-- ===== src/Storage/Reading.antt =====
-- The operations of a store (internal/storage/storage.go) that read.
use jack_service.Common.{String, ◌≡◌, refl, inl, inr, Option-cases}
use jack_service.Common.Map.{lookup}
use jack_service.World.{World, Env}
use jack_service.Storage.{Store, Services, job_type_key}
use jack_service.Storage.Laws.{LeavesMaps, SameMaps-refl}
use jack_service.Storage.Contract.{IsStore}
use jack_service.Storage.Memory

module _ (env : Env) (services : Services) where
  memory_get_producer : (id : String) (w : World) → (Memory.get_producer env services id w).1 ≡ w
  unfolding Memory.get_producer
  memory_get_producer id w = elim (Option-cases (lookup id w.producers)) [
    | inl missing ↦ rw (missing, Memory.get_producer) refl
    | inr (p, there) ↦ rw (there, Memory.get_producer) refl
  ]

  memory_get_job_type :
      (id name : String) (w : World) → (Memory.get_job_type env services id name w).1 ≡ w
  unfolding Memory.get_job_type
  memory_get_job_type id name w = elim (Option-cases (lookup (job_type_key id name) w.job_types)) [
    | inl missing ↦ rw (missing, Memory.get_job_type) refl
    | inr (jt, there) ↦ rw (there, Memory.get_job_type) refl
  ]

  module _ (s : Store) (is : IsStore env services s) where
    pub get_producer-LeavesMaps : (id : String) → LeavesMaps (s.get_producer id)
    get_producer-LeavesMaps id = record {
      leaves = λ w. rw (is.gets_producer, memory_get_producer) (SameMaps-refl w);
    }

    pub get_job_type-LeavesMaps : (id name : String) → LeavesMaps (s.get_job_type id name)
    get_job_type-LeavesMaps id name = record {
      leaves = λ w. rw (is.gets_job_type, memory_get_job_type) (SameMaps-refl w);
    }

    pub list_producers-LeavesMaps : LeavesMaps s.list_producers
    unfolding Memory.list_producers
    list_producers-LeavesMaps = record { leaves = λ w. rw (is.lists_producers) (SameMaps-refl w) }

    pub list_job_types-LeavesMaps : (id : String) → LeavesMaps (s.list_job_types id)
    unfolding Memory.list_job_types
    list_job_types-LeavesMaps id = record {
      leaves = λ w. rw (is.lists_job_types) (SameMaps-refl w);
    }
