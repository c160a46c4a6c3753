-- ===== src/Storage/Contract.antt =====
-- What the users of a store (the interface of internal/storage/storage.go) rely on. The memory store is the
-- reference: a store may refuse a creation that the memory store makes, but then its maps stay as they were.
use jack_service.Common.{String, ◌≡◌, ◌≢◌, Option, none, some, inl, inr, Option-cases}
use jack_service.Common.Map.{Map}
use jack_service.Go.{Error}
use jack_service.Proto.{Producer, JobType}
use jack_service.World.{World, Env}
use jack_service.Storage.{Services, Store}
use jack_service.Storage.Laws.{SameMaps}
use jack_service.Storage.Memory

-- How a creation ends in the world `w`, against how it ends in the memory store.
pub record Creates {A : Type 0} (w : World) (expected actual : (Option Error × A) × World)
    : Type 0 where
  pub made : actual.0.0 ≡ none → (actual.0 ≡ expected.0) × SameMaps expected.1 actual.1
  pub unmade : actual.0.0 ≢ none → SameMaps w actual.1
  pub refused : (e : Error) → expected.0.0 ≡ some e → actual ≡ expected

-- What holds of the maps before, and after the creation in the memory store, holds after the creation.
pub Creates-keeps :
    {A : Type 0} (P : Map Producer → Map JobType → Type 0) (w : World)
    (expected actual : (Option Error × A) × World)
    → Creates w expected actual
    → P expected.1.producers expected.1.job_types
    → P w.producers w.job_types
    → P actual.1.producers actual.1.job_types
Creates-keeps P w expected actual c after before = elim (Option-cases actual.0.0) [
  | inl fine ↦ let (_, same) = c.made fine in rw (same.same_producers, same.same_job_types) after
  | inr (e, bad) ↦
      let same = c.unmade (λ h. cc) in rw (same.same_producers, same.same_job_types) before
]

pub record IsStore (env : Env) (services : Services) (s : Store) : Type 0 where
  pub creates_producer :
      (p : Producer) (w : World)
      → Creates w (Memory.create_producer env services p w) (s.create_producer p w)
  pub creates_job_type :
      (jt : JobType) (w : World)
      → Creates w (Memory.create_job_type env services jt w) (s.create_job_type jt w)
  pub gets_producer :
      (id : String) (w : World) → s.get_producer id w ≡ Memory.get_producer env services id w
  pub gets_job_type :
      (id name : String) (w : World)
      → s.get_job_type id name w ≡ Memory.get_job_type env services id name w
  pub lists_producers : (w : World) → s.list_producers w ≡ Memory.list_producers env services w
  pub lists_job_types :
      (id : String) (w : World) → s.list_job_types id w ≡ Memory.list_job_types env services id w
