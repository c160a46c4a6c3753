-- ===== src/Scheduler/RoundTrip.antt =====
-- The body of a task, and the job that is read from it (internal/scheduler/scheduler.go).
use jack_service.Common.{ℕ, List, ◌≡◌, ok, arith}
use jack_service.Go.{Instant}
use jack_service.Queue.{Job}
use jack_service.Scheduler.{ScheduledJob, Codec, marshal_job, unmarshal_job}

-- What the code relies on: JSON that was written is read back, and so are the instants `Readable`
-- (those of the years that RFC 3339 can write).
pub record IsCodec (Readable : Instant → Type 0) (codec : Codec) : Type 0 where
  pub reads_back :
      (sj : ScheduledJob) (body : List ℕ)
      → codec.json_marshal sj ≡ ok body
      → codec.json_unmarshal body ≡ ok sj
  pub parses_back : (t : Instant) → Readable t → codec.parse_time (codec.format_time t) ≡ ok t

-- If JSON that was written is read back, and so are the instants of the job, UnmarshalJob gives back the job that
-- marshalJob has written, every field of it.
pub unmarshal-marshal_job :
    (Readable : Instant → Type 0) (codec : Codec) (is : IsCodec Readable codec) (job : Job)
    (body : List ℕ)
    → Readable job.run_at
    → Readable job.created_at
    → marshal_job codec job ≡ ok body
    → unmarshal_job codec body ≡ ok job
unfolding marshal_job unmarshal_job
unmarshal-marshal_job Readable codec is job body r c h =
    ground
      (arith, is.reads_back _ body h, is.parses_back job.run_at r, is.parses_back job.created_at c)
