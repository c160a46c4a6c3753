-- ===== src/Api/Admin/JobTypes.antt =====
-- CreateJobType of internal/api/admin_server.go over a store with its contract.
use jack_service.World.{World}
use jack_service.Storage.Memory
use jack_service.Storage.Memory.{memory_store, put_producer}
