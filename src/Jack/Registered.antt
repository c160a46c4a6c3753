-- ===== src/Jack/Registered.antt =====
-- The admin server and the runtime server of a process (cmd/jack/main.go) together.
use jack_service.World.{World}
use jack_service.Config.{Config}
