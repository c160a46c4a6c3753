-- ===== src/Jack/Delivered.antt =====
-- The way of a delayed job through a process (cmd/jack/main.go): its task comes back as an HTTP request.
use jack_service.Common.{String, ◌≡◌, some, ok}
use jack_service.Common.Map.{lookup}
use jack_service.World.{World, Task}
use jack_service.Scheduler.{Scheduler}
use jack_service.Api.Http.{HttpRequest}
use jack_service.Config.{Config}

-- The request that Cloud Tasks makes of a task: a POST to the path of its URL, with its headers and its body.
pub record Delivers (path_of : String → String) (task : Task) (r : HttpRequest) : Type 0 where
  pub is_post : r.method ≡ "POST"
  pub to_path : r.path ≡ path_of task.url
  pub typed : lookup "Content-Type" task.headers ≡ some r.content_type
  pub carries : r.body ≡ ok task.body
