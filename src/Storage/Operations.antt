-- ===== src/Storage/Operations.antt =====
-- A process that uses a store (the interface of internal/storage/storage.go), as the sequence of what happens.
use jack_service.Common.{String, List, [], ◌∷◌}
use jack_service.Proto.{Producer, JobType}
use jack_service.World.{World, Event, emit}
use jack_service.Storage.{Store}

-- What happens to a process while it runs: calls of its store, and events elsewhere.
pub data Operation : Type 0 where
  create_producer_call : Producer → Operation
  get_producer_call : String → Operation
  list_producers_call : Operation
  create_job_type_call : JobType → Operation
  get_job_type_call : String → String → Operation
  list_job_types_call : String → Operation
  elsewhere : Event → Operation

unfoldable pub perform : Store → Operation → World → World
unfolding emit
perform s (create_producer_call p) w = (s.create_producer p w).1
perform s (get_producer_call id) w = (s.get_producer id w).1
perform s list_producers_call w = (s.list_producers w).1
perform s (create_job_type_call jt) w = (s.create_job_type jt w).1
perform s (get_job_type_call id name) w = (s.get_job_type id name w).1
perform s (list_job_types_call id) w = (s.list_job_types id w).1
perform s (elsewhere e) w = (emit e w).1

unfoldable pub perform_all : Store → List Operation → World → World
unfolding perform
perform_all s [] w = w
perform_all s (o ∷ os) w = perform_all s os (perform s o w)
