-- ===== src/Scheduler/Dropped.antt =====
-- The scheduler of internal/scheduler/noop.go as an implementation of the interface of
-- internal/scheduler/scheduler.go.
use jack_service.Common.{refl, List, [], ◌∷◌}
use jack_service.World.{World}
use jack_service.Queue.{Job}
use jack_service.Queue.Contract.{Answers}
use jack_service.Scheduler.{IsScheduler, noop_schedule_bulk, noop_scheduler}

noop_schedule_bulk-Answers :
    (jobs : List Job) (w : World) → Answers jobs (noop_schedule_bulk jobs w).0
unfolding noop_schedule_bulk
noop_schedule_bulk-Answers [] w = tt
noop_schedule_bulk-Answers (job ∷ jobs) w = (λ e. refl, noop_schedule_bulk-Answers jobs w)

-- The scheduler that schedules nothing answers each job in order.
pub noop_scheduler-IsScheduler : IsScheduler noop_scheduler
noop_scheduler-IsScheduler = record { answers = noop_schedule_bulk-Answers }
