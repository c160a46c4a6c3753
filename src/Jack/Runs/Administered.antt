-- ===== src/Jack/Runs/Administered.antt =====
-- The registry in every state that a run of a process (cmd/jack/main.go) reaches.
use jack_service.Common.{◌≡◌, ok}
use jack_service.Common.Map.{Map}
use jack_service.Proto.{Producer, JobType}
use jack_service.World.{World}
use jack_service.Storage.Laws.{AreRegistry}
use jack_service.Api.Admin.Invariant.{
  HasPlainIds, IsAdministered, create_producer-IsAdministered, create_job_type-IsAdministered,
}
use jack_service.Api.Server.{Libraries}
use jack_service.Config.{Config}
use jack_service.Jack.{Platform, Process, start}
use jack_service.Jack.Assembled.{start-IsStore}
use jack_service.Jack.Runs.{Reaches}
use jack_service.Jack.Runs.Apart.{run_keeps}

-- The invariant of the two maps.
abbrev AreAdministered : Map Producer → Map JobType → Type 0
AreAdministered producers job_types = AreRegistry producers job_types × HasPlainIds producers

-- However many calls a started process answers, in whatever order and with whatever outcome, its registry stays as the
-- admin server keeps it, if it is so at the start: each key has one entry, each entry stands under the key of its
-- value, every job type belongs to a registered producer, and no producer ID holds a colon.
pub run-IsAdministered :
    (platform : Platform) (cfg : Config) (w : World) (p : Process)
    → (start platform cfg w).0 ≡ ok p
    → (lib : Libraries) (u v : World) → Reaches lib platform cfg p u v
    → IsAdministered u
    → IsAdministered v
run-IsAdministered platform cfg w p h lib u v run a =
    let is = start-IsStore platform cfg w p h in
    let (registry, ids) =
      run_keeps platform cfg w p h lib AreAdministered
        (λ req x (r, i).
          let b =
            create_producer-IsAdministered platform.env platform.services p.admin_store is req x
              (record { registry = r; ids = i }) in
          (b.registry, b.ids))
        (λ req x (r, i).
          let b =
            create_job_type-IsAdministered platform.env platform.services p.admin_store is req x
              (record { registry = r; ids = i }) in
          (b.registry, b.ids))
        u v run (a.registry, a.ids) in
    record { registry = registry; ids = ids }
