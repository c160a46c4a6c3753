-- ===== src/Storage/Gcs/Restart.antt =====
-- A restart of a process with the store of internal/storage/gcs.go.
use jack_service.Common.{String}
use jack_service.World.{World, Env}
use jack_service.Storage.{Services, Store}
use jack_service.Storage.Laws.{VisitsAll}
use jack_service.Storage.Bucket.{Bucket}
use jack_service.Storage.Gcs.{gcs_store}
use jack_service.Storage.Gcs.Stored.{IsBucket}
use jack_service.Storage.Operations.{Operation, elsewhere}
use jack_service.Storage.Gcs.Durable.{Quiet}

-- An event elsewhere is not a write to the objects of the store.
abbrev pub IsElsewhere : Bucket → String → Operation → Type 0
IsElsewhere bucket store_prefix (elsewhere e) = Quiet bucket store_prefix e
IsElsewhere bucket store_prefix other = Unit

module _ (env : Env) (services : Services) (bucket : Bucket) (store_prefix : String)
    (is : IsBucket bucket) (visits : VisitsAll services) where
  store : Store
  store = gcs_store env services bucket store_prefix
