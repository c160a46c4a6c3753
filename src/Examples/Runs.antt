-- ===== src/Examples/Runs.antt =====
-- The theorems on the runs of a process at a concrete run: a producer is created, and then a job is sent.
use jack_service.Common.{refl}
use jack_service.World.{World}
use jack_service.Api.Admin.Invariant.{IsAdministered}
use jack_service.Jack.{start}
use jack_service.Config.{load}
use jack_service.Jack.Runs.{Reaches, create_producer_call, enqueue_call, handle, here, answer}
use jack_service.Jack.Runs.Administered.{run-IsAdministered}
use jack_service.Jack.Runs.Grown.{AreWithin, run-Within}
use jack_service.Examples.{nothing_yet, with_crm, mail_request}
use jack_service.Examples.Admin.{shop, nothing_yet-IsAdministered}
use jack_service.Examples.Server.{lib, ctx}
use jack_service.Examples.Started.{platform}
use jack_service.Examples.Processes.{cfg, process}

abbrev ran : World → World
ran w =
    handle lib platform cfg process (enqueue_call ctx mail_request)
      (handle lib platform cfg process (create_producer_call shop) w)

abbrev run : (w : World) → Reaches lib platform cfg process w (ran w)
run w = answer (create_producer_call shop) (answer (enqueue_call ctx mail_request) here)

run-IsAdministered_example : IsAdministered (ran nothing_yet)
unfolding start load
run-IsAdministered_example =
    run-IsAdministered platform cfg nothing_yet process refl lib nothing_yet (ran nothing_yet)
      (run nothing_yet) nothing_yet-IsAdministered

run-Within_example : AreWithin with_crm (ran with_crm).producers (ran with_crm).job_types
unfolding start load
run-Within_example =
    run-Within platform cfg nothing_yet process refl lib with_crm (ran with_crm) (run with_crm)
