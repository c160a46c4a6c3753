-- ===== src/Storage/Laws.antt =====
-- What the stores keep: the invariant of their two maps.
use mathlib.Core.List.{Perm}
use jack_service.Common.{String, ◌≡◌, ◌≢◌, ◌∙◌, refl, none, some}
use jack_service.Common.Map.{Map, lookup, values}
use jack_service.Common.Map.Keys.{NodupKeys}
use jack_service.Proto.{Producer, JobType}
use jack_service.World.{World, M, ◌>>=◌}
use jack_service.Storage.{job_type_key, Services}

-- A key has one entry, every entry stands under the key of its value, and every job type belongs to a
-- registered producer.
pub record AreRegistry (producers : Map Producer) (job_types : Map JobType) : Type 0 where
  pub producers_once : NodupKeys producers
  pub job_types_once : NodupKeys job_types
  pub producer_keyed : (k : String) (p : Producer) → lookup k producers ≡ some p → p.producer_id ≡ k
  pub job_type_keyed :
      (k : String) (jt : JobType)
      → lookup k job_types ≡ some jt
      → job_type_key jt.producer_id jt.name ≡ k
  pub job_type_owned :
      (k : String) (jt : JobType)
      → lookup k job_types ≡ some jt
      → lookup jt.producer_id producers ≢ none

abbrev pub IsRegistry : World → Type 0
IsRegistry w = AreRegistry w.producers w.job_types

-- `range` visits every entry of a map once, in some order.
pub record VisitsAll (services : Services) : Type 0 where
  pub producers_visited : (m : Map Producer) → Perm (services.range_producers m) (values m)
  pub job_types_visited : (m : Map JobType) → Perm (services.range_job_types m) (values m)

-- The maps of a world.
pub record HasMaps (producers : Map Producer) (job_types : Map JobType) (w : World) : Type 0 where
  pub same_producers : w.producers ≡ producers
  pub same_job_types : w.job_types ≡ job_types

abbrev pub SameMaps : World → World → Type 0
SameMaps w w' = HasMaps w.producers w.job_types w'

pub SameMaps-trans : (u v w : World) → SameMaps u v → SameMaps v w → SameMaps u w
SameMaps-trans u v w a b = record {
  same_producers = b.same_producers ∙ a.same_producers;
  same_job_types = b.same_job_types ∙ a.same_job_types;
}

pub SameMaps-refl : (w : World) → SameMaps w w
SameMaps-refl w = record { same_producers = refl; same_job_types = refl }

-- An action after which the maps are as they were.
pub record LeavesMaps {A : Type 0} (action : M A) : Type 0 where
  pub leaves : (w : World) → SameMaps w (action w).1

-- One action, and another that takes its result.
pub bind-LeavesMaps :
    {A B : Type 0} (action : M A) (next : A → M B)
    → LeavesMaps action
    → ((a : A) → LeavesMaps (next a))
    → LeavesMaps (action >>= next)
bind-LeavesMaps action next first then = record {
  leaves = λ w.
      SameMaps-trans w (action w).1 (next (action w).0 (action w).1).1 (first.leaves w)
        ((then (action w).0).leaves (action w).1);
}
