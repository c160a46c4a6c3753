-- ===== src/Api/Server/Made.antt =====
-- The job that `Enqueue` and `EnqueueBulk` of internal/api/server.go make of a request.
use jack_service.Common.{Bool, ◌≡◌, refl, some, ap}
use jack_service.Go.{Instant}
use jack_service.Proto.{Timestamp, EnqueueRequest}
use jack_service.World.{World}
use jack_service.JobId.{generate}
use jack_service.Queue.{Job}
use jack_service.Api.Server.{
  Server, Libraries, instant_or, producer_warnings, routing_config, prepare_job,
}

pub record IsJobOf (lib : Libraries) (shadow : Bool) (q : EnqueueRequest) (job : Job) : Type 0 where
  pub producer : job.producer_id ≡ q.producer_id
  pub kind : job.kind ≡ q.job_type
  pub payload : job.payload ≡ q.payload
  pub trace : job.trace_id ≡ q.trace_id
  pub shadowed : job.shadow ≡ shadow
  pub run_at : (t : Timestamp) → q.run_at ≡ some t → job.run_at ≡ lib.as_time t
  pub drawn : World
  pub id : job.id ≡ (generate lib.sha256 lib.env q.producer_id q.job_type drawn).0

instant_or-some :
    (lib : Libraries) (clock : Instant) (q : EnqueueRequest) (t : Timestamp)
    → q.run_at ≡ some t
    → instant_or lib clock q.run_at ≡ lib.as_time t
unfolding instant_or
instant_or-some lib clock q t e = ap (instant_or lib clock) e

pub prepare_job-IsJobOf :
    (lib : Libraries) (s : Server) (shadow : Bool) (q : EnqueueRequest) (w : World)
    → IsJobOf lib shadow q (prepare_job lib s shadow q w).0.0
unfolding prepare_job
prepare_job-IsJobOf lib s shadow q w = record {
  producer = refl;
  kind = refl;
  payload = refl;
  trace = refl;
  shadowed = refl;
  run_at = instant_or-some lib _ q;
  drawn =
      (routing_config lib s q.producer_id q.job_type q.payload
        (producer_warnings lib s q.producer_id w).1).1;
  id = refl;
}
