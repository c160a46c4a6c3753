-- ===== src/Api/Callback.antt =====
-- internal/api/callback.go: the HTTP callback of Cloud Tasks. A reply is its status code.
pub mod Delivery
pub mod Apart
use jack_service.Common.Text.{◌==◌}
use jack_service.Api.Http.{HttpRequest, Served, answered, no_handler}
use jack_service.Common.{
  ◌&&◌, if◌then◌else◌, String, ℕ, List, [], ◌∷◌, Option, none, some, Result, ok, err,
}
use jack_service.Go.{Instant, Error}
use jack_service.World.{M, ◌>>=◌, ◌>>◌, pure, Env, incr, distribution, now, since, send}
use jack_service.Queue.{Job, Backend}
use jack_service.Scheduler.{Codec, unmarshal_job}

abbrev pub status_ok : ℕ
status_ok = 200

abbrev pub status_bad_request : ℕ
status_bad_request = 400

abbrev pub status_internal_server_error : ℕ
status_internal_server_error = 500

-- The path of the route that Register adds, for the method POST.
abbrev pub callback_path : String
callback_path = "/internal/callback/enqueue"

module _ (env : Env) (codec : Codec) (backend : Backend) where
  unfoldable pub after_enqueue : Instant → Option Error → M ℕ
  unfolding send since
  after_enqueue start (some e) = do
    send (incr "jack.callback.count" ("status:error" ∷ "reason:enqueue" ∷ []))
    pure status_internal_server_error
  after_enqueue start none = do
    send (incr "jack.callback.count" ("status:success" ∷ []))
    duration ← since env start
    send (distribution "jack.callback.duration" duration [])
    pure status_ok

  -- The rest of the handler once the job is there: it is to run now.
  unfoldable pub enqueue_now : Instant → Job → M ℕ
  unfolding now after_enqueue
  enqueue_now start job = do
    clock ← now env
    outcome ← backend.enqueue (record job { run_at = clock })
    after_enqueue start outcome

  -- `body` is what io.ReadAll gives.
  unfoldable pub handle_enqueue_callback : (body : Result Error (List ℕ)) → M ℕ
  unfolding now send unmarshal_job enqueue_now
  handle_enqueue_callback body = do
    start ← now env
    elim body [
      | err e ↦ (do
        send (incr "jack.callback.count" ("status:error" ∷ "reason:read_body" ∷ []))
        pure status_bad_request)
      | ok bytes ↦ elim (unmarshal_job codec bytes) [
        | err e ↦ (do
          send (incr "jack.callback.count" ("status:error" ∷ "reason:unmarshal" ∷ []))
          pure status_bad_request)
        | ok job ↦ enqueue_now start job
      ]
    ]

  -- The multiplexer with the one route that Register adds.
  unfoldable pub serve_mux : HttpRequest → M Served
  unfolding handle_enqueue_callback
  serve_mux r =
      if r.method == "POST" && r.path == callback_path
      then (do status ← handle_enqueue_callback r.body; pure (answered status))
      else pure no_handler
