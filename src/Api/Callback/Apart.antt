-- ===== src/Api/Callback/Apart.antt =====
-- The callback of internal/api/callback.go and the maps of the store.
use jack_service.Common.{
  refl, ◌&&◌, ℕ, List, Option, none, some, Result, ok, err, inl, inr, Bool-cases, Result-cases,
}
use jack_service.Common.Text.{◌==◌}
use jack_service.Go.{Instant, Error}
use jack_service.World.{Env, now}
use jack_service.Queue.{Job, Backend}
use jack_service.Queue.Apart.{IsApartBackend}
use jack_service.Scheduler.{Codec, unmarshal_job}
use jack_service.Storage.Laws.{LeavesMaps, SameMaps-refl, SameMaps-trans}
use jack_service.Api.Http.{HttpRequest}
use jack_service.Api.Callback.{
  callback_path, after_enqueue, enqueue_now, handle_enqueue_callback, serve_mux,
}

module _ (env : Env) (codec : Codec) (backend : Backend) (apart : IsApartBackend backend) where
  after_enqueue-LeavesMaps :
      (start : Instant) (outcome : Option Error)
      → LeavesMaps (after_enqueue env codec backend start outcome)
  unfolding after_enqueue
  after_enqueue-LeavesMaps start none = record {
    leaves = λ w. record { same_producers = refl; same_job_types = refl };
  }
  after_enqueue-LeavesMaps start (some e) = record {
    leaves = λ w. record { same_producers = refl; same_job_types = refl };
  }

  enqueue_now-LeavesMaps :
      (start : Instant) (job : Job) → LeavesMaps (enqueue_now env codec backend start job)
  unfolding enqueue_now
  enqueue_now-LeavesMaps start job = record {
    leaves = λ w.
        let (clock, u) = now env w in
        let (outcome, v) = backend.enqueue (record job { run_at = clock }) u in
        SameMaps-trans w v _ ((apart.on_enqueue (record job { run_at = clock })).leaves u)
          ((after_enqueue-LeavesMaps start outcome).leaves v);
  }

  handle-LeavesMaps :
      (body : Result Error (List ℕ)) → LeavesMaps (handle_enqueue_callback env codec backend body)
  unfolding handle_enqueue_callback
  handle-LeavesMaps (err e) = record {
    leaves = λ w. record { same_producers = refl; same_job_types = refl };
  }
  handle-LeavesMaps (ok bytes) = elim (Result-cases (unmarshal_job codec bytes)) [
    | inr (e, bad) ↦
        rw (bad, handle_enqueue_callback)
          (record { leaves = λ w. record { same_producers = refl; same_job_types = refl } })
    | inl (job, good) ↦
        rw (good, handle_enqueue_callback)
          (record {
            leaves = λ w. let (start, u) = now env w in (enqueue_now-LeavesMaps start job).leaves u;
          })
  ]

  pub serve_mux-LeavesMaps : (r : HttpRequest) → LeavesMaps (serve_mux env codec backend r)
  unfolding serve_mux
  serve_mux-LeavesMaps r = elim (Bool-cases (r.method == "POST" && r.path == callback_path)) [
    | inl routed ↦
        rw (routed, serve_mux) (record { leaves = λ w. (handle-LeavesMaps r.body).leaves w })
    | inr other ↦ rw (other, serve_mux) (record { leaves = SameMaps-refl })
  ]
