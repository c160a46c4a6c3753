-- ===== src/Api/Server/Chosen.antt =====
-- When `Enqueue` and `EnqueueBulk` of internal/api/server.go give a job to the scheduler.
use jack_service.Common.{
  true, false, ◌≡◌, refl, Option, none, some, if◌then◌else◌, Bool-cases, Option-cases, inl, inr,
}
use jack_service.Common.Int.{pos, ltb_ℤ, leb_ℤ}
use jack_service.Go.{Instant, sub_time}
use jack_service.World.{World, now}
use jack_service.Queue.{Job}
use jack_service.Scheduler.{Scheduler}
use jack_service.Api.Server.{Server, Libraries, scheduler_for}

module _ (lib : Libraries) (s : Server) where
  pub data Chosen (job : Job) : Option Scheduler → Type 0 where
    to_queue : Chosen job none
    to_wait :
        {scheduler : Scheduler} (clock : Instant)
        → s.scheduler ≡ some scheduler
        → ltb_ℤ (pos 0) s.config.schedule_threshold ≡ true
        → leb_ℤ s.config.schedule_threshold (sub_time job.run_at clock) ≡ true
        → Chosen job (some scheduler)

  scheduler_for_missing :
      (job : Job) (w : World) → s.scheduler ≡ none → (scheduler_for lib s job w).0 ≡ none
  unfolding scheduler_for
  scheduler_for_missing job w missing = rw (missing, scheduler_for) refl

  scheduler_for_disabled :
      (job : Job) (w : World) {scheduler : Scheduler}
      → s.scheduler ≡ some scheduler
      → ltb_ℤ (pos 0) s.config.schedule_threshold ≡ false
      → (scheduler_for lib s job w).0 ≡ none
  unfolding scheduler_for
  scheduler_for_disabled job w has disabled = rw (has, disabled, scheduler_for) refl

  scheduler_for_enabled :
      (job : Job) (w : World) {scheduler : Scheduler}
      → s.scheduler ≡ some scheduler
      → ltb_ℤ (pos 0) s.config.schedule_threshold ≡ true
      → (scheduler_for lib s job w).0 ≡ (
          if leb_ℤ s.config.schedule_threshold (sub_time job.run_at (now lib.env w).0)
          then some scheduler
          else none)
  unfolding scheduler_for
  scheduler_for_enabled job w has enabled = rw (has, enabled, scheduler_for) refl

  pub scheduler_for-Chosen : (job : Job) (w : World) → Chosen job (scheduler_for lib s job w).0
  scheduler_for-Chosen job w = elim (Option-cases s.scheduler) [
    | inl missing ↦ rw (scheduler_for_missing job w missing) to_queue
    | inr (scheduler, has) ↦ elim (Bool-cases (ltb_ℤ (pos 0) s.config.schedule_threshold)) [
      | inr disabled ↦ rw (scheduler_for_disabled job w has disabled) to_queue
      | inl enabled ↦
          elim (Bool-cases
            (leb_ℤ s.config.schedule_threshold (sub_time job.run_at (now lib.env w).0))) [
              | inr soon ↦ rw (scheduler_for_enabled job w has enabled, soon) to_queue
              | inl far ↦
                  rw (scheduler_for_enabled job w has enabled, far) (to_wait _ has enabled far)
            ]
    ]
  ]
