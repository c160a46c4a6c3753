-- ===== src/Jack/Lifetime/Closed.antt =====
-- What a process (cmd/jack/main.go) closes at its end, and when.
use jack_service.Jack.Lifetime.Closings.{
  closings, Closes, one-Closes, none-Closes, stop_topics-Closes, then-Closes,
}
use mathlib.Core.Path.{subst}
use jack_service.Common.{
  ◌≡◌, refl, sym, ap, ◌∙◌, List, [], ◌∷◌, ◌++◌, Option, none, Result, ok, inl, inr, Bool-cases,
  Option-cases, Result-cases, ok-injective, if◌then◌else◌, String, false,
}
use jack_service.Common.Text.{◌==◌}
use jack_service.Go.{Error}
use jack_service.World.{
  World, M, Event, ◌>>=◌, Connection, to_statsd, to_storage, to_pubsub, to_tasks,
  serving_status_set, http_shut_down, grpc_stopped,
}
use jack_service.Queue.{Backend}
use jack_service.Queue.PubSub
use jack_service.Queue.PubSub.{Topics, stop_topics}
use jack_service.Scheduler.{Scheduler}
use jack_service.Scheduler.CloudTasks
use jack_service.Storage.{Store}
use jack_service.Storage.Gcs
use jack_service.Storage.Gcs.Start.{new_gcs_store-ok}
use jack_service.Config.{Config}
use jack_service.Jack.{Platform, Process, start, choose_store, choose_backend, choose_scheduler}
use jack_service.Jack.Assembled.{start-Assembled, start-choose_store}
use jack_service.Jack.Chosen.{cloud_tasks_chosen, pubsub_chosen}
use jack_service.Jack.Lifetime.{
  listen, shut_down, close_statsd, close_scheduler, close_all, stop, serve_until_signal, main,
}

-- A connection that there is only if the setting is not empty.
abbrev pub unless_unset : String → Connection → List Connection
unless_unset setting c = if setting == "" then [] else c ∷ []

-- What a process with this configuration has connected, in the reverse order in which it is closed.
abbrev pub connections : Config → List Connection
connections cfg =
    ((unless_unset cfg.datadog_statsd_addr to_statsd ++ unless_unset cfg.gcs_bucket to_storage)
      ++ (if cfg.queue_backend == "pubsub" then to_pubsub ∷ [] else []))
    ++ unless_unset cfg.cloud_tasks_project to_tasks

module _ (platform : Platform) (cfg : Config) where
  close_statsd-Closes :
      Closes (close_statsd platform cfg) (unless_unset cfg.datadog_statsd_addr to_statsd)
  unfolding close_statsd
  close_statsd-Closes = elim (Bool-cases (cfg.datadog_statsd_addr == "")) [
    | inl unset ↦ rw (unset, close_statsd) (none-Closes none)
    | inr given ↦ rw (given, close_statsd) (one-Closes to_statsd platform.close_statsd)
  ]

  store-Closes :
      (w : World) (store : Store)
      → (choose_store platform cfg w).0 ≡ ok store
      → Closes store.close (unless_unset cfg.gcs_bucket to_storage)
  unfolding choose_store Gcs.close
  store-Closes w store h = elim (Bool-cases (cfg.gcs_bucket == "")) [
    | inl in_memory ↦
        rw (in_memory, ← (ok-injective (rw (in_memory, choose_store) at h))) (none-Closes none)
    | inr in_bucket ↦
        rw
          (
            in_bucket,
            ← (
                new_gcs_store-ok platform.env platform.services platform.bucket cfg.gcs_prefix
                  platform.storage_client w (rw (in_bucket, choose_store) at h)),
          )
          (one-Closes to_storage platform.bucket.close)
  ]

  backend-Closes :
      (backend : Backend)
      → choose_backend platform cfg ≡ ok backend
      → Closes backend.close (if cfg.queue_backend == "pubsub" then to_pubsub ∷ [] else [])
  unfolding choose_backend PubSub.close
  backend-Closes backend h = elim (Bool-cases (cfg.queue_backend == "pubsub")) [
    | inr other ↦ rw (other, ← (ok-injective (rw (other) at h))) (none-Closes none)
    | inl chosen ↦
        let (b, _, same, _) = pubsub_chosen platform cfg backend chosen h in
        rw (chosen, same)
          (then-Closes (stop_topics (platform.pubsub.range b.topics)) _ [] (to_pubsub ∷ [])
            (stop_topics-Closes (platform.pubsub.range b.topics))
            (one-Closes to_pubsub platform.pubsub.close))
  ]

  scheduler-Closes :
      (scheduler : Scheduler)
      → choose_scheduler platform cfg ≡ ok scheduler
      → Closes scheduler.close (unless_unset cfg.cloud_tasks_project to_tasks)
  unfolding choose_scheduler CloudTasks.close
  scheduler-Closes scheduler h = elim (Bool-cases (cfg.cloud_tasks_project == "")) [
    | inl missing ↦ rw (missing, ← (ok-injective (rw (missing) at h))) (none-Closes none)
    | inr given ↦
        let (s, _, same, _) = cloud_tasks_chosen platform cfg scheduler given h in
        rw (given, same) (one-Closes to_tasks platform.tasks.close)
  ]

  close_all-Closes :
      (w : World) (p : Process)
      → (start platform cfg w).0 ≡ ok p
      → Closes (close_all platform cfg p) (connections cfg)
  unfolding close_all close_scheduler
  close_all-Closes w p h =
      let a = start-Assembled platform cfg w p h in
      then-Closes (close_scheduler platform cfg p.runtime.scheduler) _ _ _
        (rw (a.has_scheduler) (scheduler-Closes a.scheduler a.chose_scheduler))
        (then-Closes p.callback_backend.close _ _ _
          (rw (a.same_backend) (backend-Closes p.runtime.backend a.chose_backend))
          (then-Closes p.admin_store.close _ _ _
            (store-Closes w p.admin_store (start-choose_store platform cfg w p h))
            close_statsd-Closes))

  -- How the history ends after `served`.
  abbrev EndsWell : List Event → List Event → Type 0
  EndsWell served history =
      (later : List Event) × (e : Option Error) × (history
        ≡ later ++ grpc_stopped ∷ http_shut_down e ∷ serving_status_set false ∷ served)
      × (closings later ≡ connections cfg)

  stop-EndsWell :
      (p : Process) (v : World)
      → Closes (close_all platform cfg p) (connections cfg)
      → EndsWell v.history (stop platform cfg p v).1.history
  unfolding stop shut_down
  stop-EndsWell p v c =
      let error = platform.shut_down_http (serving_status_set false ∷ v.history) in
      let (later, same, closed) = c.closed (record v {
        history = grpc_stopped ∷ http_shut_down error ∷ serving_status_set false ∷ v.history;
      }) in
      (later, error, same, closed)

  serve_until_signal-EndsWell :
      (serving : Process → M (Unit {0})) (p : Process) (v : World)
      → Closes (close_all platform cfg p) (connections cfg)
      → (serve_until_signal platform cfg serving p v).0 ≡ ok tt
      → EndsWell
          (serving p (listen platform cfg v).1).1.history
          (serve_until_signal platform cfg serving p v).1.history
  unfolding serve_until_signal listen
  serve_until_signal-EndsWell serving p v c h = elim (Option-cases platform.listen) [
    | inr (e, failed) ↦ absurd (cc (rw (failed, serve_until_signal) at h))
    | inl fine ↦
        rw (fine, serve_until_signal) (stop-EndsWell p (serving p (listen platform cfg v).1).1 c)
  ]

  main-started :
      (serving : Process → M (Unit {0})) (w : World) (p : Process)
      → (start platform cfg w).0 ≡ ok p
      → main platform cfg serving w
        ≡ serve_until_signal platform cfg serving p (start platform cfg w).1
  unfolding main
  main-started serving w p h = rw (h, main, ◌>>=◌) refl

  -- The end of a process that has served until a signal: the health status, the HTTP server and the gRPC server come
  -- down in this order, and only then each connection that the configuration asks for is closed, once, that of the scheduler
  -- first and that of statsd last.
  pub main-Closed :
      (serving : Process → M (Unit {0})) (w : World)
      → (main platform cfg serving w).0 ≡ ok tt
      → (p : Process) × ((start platform cfg w).0 ≡ ok p)
        × (let served = (serving p (listen platform cfg (start platform cfg w).1).1).1.history in
            (later : List Event) × (e : Option Error) × ((main platform cfg serving w).1.history
              ≡ later ++ grpc_stopped ∷ http_shut_down e ∷ serving_status_set false ∷ served)
            × (closings later ≡ connections cfg))
  unfolding main
  main-Closed serving w h = elim (Result-cases (start platform cfg w).0) [
    | inr (e, bad) ↦ absurd (cc (rw (bad, main, ◌>>=◌) at h))
    | inl (p, fine) ↦
        let run = main-started serving w p fine in
        let ends =
          serve_until_signal-EndsWell serving p (start platform cfg w).1 (close_all-Closes w p fine)
            (sym (ap (λ x. x.0) run) ∙ h) in
        (
          p,
          fine,
          subst
              (λ (x : Result Error (Unit {0}) × World).
                EndsWell (serving p (listen platform cfg (start platform cfg w).1).1).1.history
                  x.1.history)
              (sym run) ends,
        )
  ]
