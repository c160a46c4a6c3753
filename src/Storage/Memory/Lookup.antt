-- ===== src/Storage/Memory/Lookup.antt =====
-- What a client of the memory store (internal/storage/memory.go) reads after a creation.
use jack_service.Common.{
  String, ◌≡◌, refl, Bool, true, false, ◌&&◌, Option, none, some, ok, inl, inr, Option-cases, arith,
  if◌then◌else◌,
}
use jack_service.Common.Map.{lookup, lookup-insert}
use jack_service.Common.Text.{◌==◌}
use jack_service.Proto.{Producer}
use jack_service.World.{World, Env}
use jack_service.Storage.{Services, producer_exists}
use jack_service.Storage.Memory.{create_producer, get_producer}

abbrev pub is_none {ℓ} : {A : Type ℓ} → Option A → Bool
is_none none = true
is_none (some a) = false

module _ (env : Env) (services : Services) where
  -- Creating a producer fails exactly when its ID is taken. After it GetProducer returns the stamped
  -- producer for that ID if it succeeded, and for any other ID, or if it failed, what it returned before.
  pub get-create_producer :
      (p : Producer) (w : World) (id : String)
      → ((create_producer env services p w).0.0 ≡ (
          if is_none (lookup p.producer_id w.producers)
          then none
          else some (producer_exists p.producer_id)))
        × ((get_producer env services id (create_producer env services p w).1).0 ≡ (
            if is_none (create_producer env services p w).0.0 && (p.producer_id == id)
            then ok (create_producer env services p w).0.1
            else (get_producer env services id w).0))
  unfolding create_producer get_producer
  get-create_producer p w id = elim (Option-cases (lookup p.producer_id w.producers)) [
    | inl new ↦ rw (new, create_producer, get_producer, lookup-insert) (refl, ground arith)
    | inr (q, old) ↦ rw (old, create_producer, get_producer) (refl, ground arith)
  ]
